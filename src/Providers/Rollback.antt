-- ===== src/Providers/Rollback.antt =====
-- What a failed save of the registry leaves.
use router_extra.Prelude.{
  String, ◌≡◌, refl, ap, Bool, true, false, not, ◌&&◌, ◌||◌, none, some, List, [], ◌∷◌, arith,
  eq_iff, if◌then◌else◌, get, put, put-put, delete_all-absent, Bool-cases, Option-cases, inl, inr,
}
use router_extra.Providers.{
  Provider, FreeRegistry, Touched, save, document, put_back, restore_provider, restore, mutation,
}
use router_extra.Providers.Scans.Results.{persist_or_stage}

put-same :
    (id : String) (p : Provider) (m : List (String × Provider)) → get id m ≡ some p → put id p m ≡ m
unfolding get put
put-same id p [] e = cc
put-same id p ((k, q) ∷ rest) e = ground (arith, eq_iff k id, put-same id p rest)

-- A result of a method before the wrapper: what the wrapper makes of it where it failed, and what
-- the file holds where it succeeded.
pub record IsAtomic (t : Touched) (saves : Bool) (r : FreeRegistry) (v : FreeRegistry × Bool)
    : Type 0 where
  pub undone : v.1 ≡ false → restore t r v.0 ≡ r
  pub written : v.1 ≡ true → v.0.file ≡ (if saves then some (document v.0) else r.file)

pub save-IsAtomic :
    (t : Touched) (refused : Bool) (r s : FreeRegistry)
    → restore t r s ≡ r
    → IsAtomic t true r (save false refused s)
unfolding save document
save-IsAtomic t refused r s h =
    elim (Bool-cases (not s.state_valid && not false || not s.storage_available || refused)) [
      | inl e ↦ rw (e, save) (record { undone = λ x. h; written = λ x. absurd cc })
      | inr e ↦ rw (e, save) (record { undone = λ x. absurd cc; written = λ x. refl })
    ]

pub persist_or_stage-IsAtomic :
    (t : Touched) (persist refused : Bool) (r s : FreeRegistry)
    → restore t r s ≡ r
    → s.file ≡ r.file
    → IsAtomic t persist r (persist_or_stage persist refused s)
unfolding persist_or_stage
persist_or_stage-IsAtomic t true refused r s h e = save-IsAtomic t refused r s h
persist_or_stage-IsAtomic t false refused r s h e = record {
  undone = λ x. absurd cc;
  written = λ x. e;
}

pub failed-IsAtomic :
    (t : Touched) (saves : Bool) (r : FreeRegistry)
    → restore t r r ≡ r
    → IsAtomic t saves r (r, false)
failed-IsAtomic t saves r h = record { undone = λ x. h; written = λ x. absurd cc }

-- The wrapped method leaves everything as it was, or the file holds what is in memory, or, where
-- it does not save, what it held.
pub record IsKept (saves : Bool) (r : FreeRegistry) (v : FreeRegistry × Bool) : Type 0 where
  pub unchanged : v.1 ≡ false → v.0 ≡ r
  pub in_file : v.1 ≡ true → v.0.file ≡ (if saves then some (document v.0) else r.file)

pub mutation-IsKept :
    (t : Touched) (saves : Bool) (method : FreeRegistry → FreeRegistry × Bool) (r : FreeRegistry)
    → IsAtomic t saves r (method r)
    → IsKept saves r (mutation t method r)
unfolding mutation
mutation-IsKept t saves method r h = elim (Bool-cases (method r).1) [
  | inl e ↦ rw (e, mutation) (record { unchanged = λ x. absurd cc; in_file = λ x. h.written e })
  | inr e ↦ rw (e, mutation) (record { unchanged = λ x. h.undone e; in_file = λ x. absurd cc })
]

module _ (id : String) (r : FreeRegistry) (named : get "" r.providers ≡ none) where
  pub restore_provider-put :
      (p q : Provider)
      → get id r.providers ≡ some p
      → restore_provider (some id) r.providers (put id q r.providers) ≡ r.providers
  unfolding restore_provider put_back
  restore_provider-put p q e =
      ground (arith, eq_iff id "", ap (λ i. get i r.providers), put-put id q p r.providers e)

  pub restore_provider-same : restore_provider (some id) r.providers r.providers ≡ r.providers
  unfolding restore_provider put_back
  restore_provider-same = elim (Option-cases (get id r.providers)) [
    | inl e ↦ rw e (ground (arith, delete_all-absent id r.providers e))
    | inr (p, e) ↦ rw e (ground (arith, put-same id p r.providers e))
  ]
