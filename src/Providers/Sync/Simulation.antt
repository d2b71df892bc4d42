-- ===== src/Providers/Sync/Simulation.antt =====
-- Every step of the staged sync on the full registry is the step of FreeTail.Staging.
use router_extra.Prelude.{
  ℕ, String, ◌≡◌, refl, sym, ap, subst, ◌∙◌, Bool, true, false, not, ◌&&◌, Option, none, some, List,
  arith, list_eq, Bool-cases, inl, inr,
}
use router_extra.FreeTail.Staging.{
  Intent, Registry, carry_out, finalize_over as abstract_finalize_over,
  finalize_tail_sync_intent as abstract_finalize,
}
use router_extra.Providers.{
  TailIntent, FreeRegistry, Touched, save, document, restore, restore_provider, mutation,
}
use router_extra.Providers.Sync.Staged.{
  finalize_tail_sync_intent, on_pending, finalize_over, carried_out, apply_tail_sync_intent,
}
use router_extra.Providers.Undoing.{apply-IsFramed, restore-final}
use router_extra.Providers.Sync.Refinement.{Views, intent_of, apply-Views}

-- Whether a save succeeds.
unfoldable pub can_save : Bool → FreeRegistry → Bool
can_save refused r = r.state_valid && r.storage_available && not refused

unfoldable pub saved : FreeRegistry → FreeRegistry
unfolding document
saved r = record r { state_valid = true; scan_evidence_dirty = false; file = some (document r) }

pub save-can :
    (refused : Bool) (r : FreeRegistry)
    → can_save refused r ≡ true
    → save false refused r ≡ (saved r, true)
unfolding save can_save saved
save-can refused r h = ground arith

pub save-cannot :
    (refused : Bool) (r : FreeRegistry)
    → can_save refused r ≡ false
    → save false refused r ≡ (r, false)
unfolding save can_save
save-cannot refused r h = ground arith

pub can_save-applied :
    (refused : Bool) (now : ℕ) (i : TailIntent) (r : FreeRegistry)
    → can_save refused (carried_out now i r) ≡ can_save refused r
unfolding can_save carried_out
can_save-applied refused now i r = ap (can_save refused) (apply-IsFramed now i r)

pub mutation-done :
    (t : Touched) (method : FreeRegistry → FreeRegistry × Bool) (r s : FreeRegistry)
    → method r ≡ (s, true)
    → mutation t method r ≡ (s, true)
unfolding mutation
mutation-done t method r s h = rw (h, mutation) refl

pub mutation-undone :
    (t : Touched) (method : FreeRegistry → FreeRegistry × Bool) (r s : FreeRegistry)
    → method r ≡ (s, false)
    → restore t r s ≡ r
    → mutation t method r ≡ (r, false)
unfolding mutation
mutation-undone t method r s h e = rw (h, mutation) (ap (λ (x : FreeRegistry). (x, false)) e)

-- The staged intents correspond, and are the combo's.
abbrev pub SamePending : String → Option TailIntent → Option Intent → Type 0
SamePending combo none none = Unit {0}
SamePending combo none (some j) = ⊥
SamePending combo (some i) none = ⊥
SamePending combo (some i) (some j) = (i.combo_name ≡ combo) × (j ≡ intent_of i)

pub record Simulates (combo : String) (a : Registry) (r : FreeRegistry) : Type 0 where
  pub views : Views combo a r
  pub pending : SamePending combo r.pending_tail_sync a.pending_tail_sync

-- A step of both, with the same answer.
pub record Matches {ℓ} (A : Type ℓ) (combo : String) (w : Registry × A) (v : FreeRegistry × A)
    : Type ℓ where
  pub simulates : Simulates combo w.0 v.0
  pub answer : v.1 ≡ w.1

pub Matches-by {ℓ} :
    {A : Type ℓ} (combo : String) {w x : Registry × A} {v y : FreeRegistry × A}
    → w ≡ x
    → v ≡ y
    → Matches A combo x y
    → Matches A combo w v
Matches-by {A = A} combo {w} {x} {v} {y} e f h =
    subst (λ z. Matches A combo z v) (sym e) (subst (λ z. Matches A combo x z) (sym f) h)

pub saved-Views :
    (combo : String) (a : Registry) (r : FreeRegistry) → Views combo a r → Views combo a (saved r)
unfolding saved
saved-Views combo a r h = record { owns = h.owns; candidates = h.candidates }

pub carried-Simulates :
    (combo : String) (now : ℕ) (i : TailIntent) (a : Registry) (r : FreeRegistry)
    → i.combo_name ≡ combo
    → Views combo a r
    → Simulates combo (carry_out (intent_of i) a) (saved (carried_out now i r))
unfolding saved carried_out carry_out
carried-Simulates combo now i a r e h =
    let k = apply-Views now i a r (subst (λ c. Views c a r) (sym e) h) in
    record {
      views =
          subst (λ c. Views c (carry_out (intent_of i) a) (saved (carried_out now i r))) e
            (record { owns = k.owns; candidates = k.candidates });
      pending = tt;
    }

module _ (combo : String) (now : ℕ) (refused : Bool) (actual : List String) (a : Registry)
    (r : FreeRegistry) (h : Simulates combo a r) where
  method : FreeRegistry → FreeRegistry × Bool
  unfolding finalize_over
  method s = finalize_over now refused actual s.pending_tail_sync s

  finalize-differs :
      (i : TailIntent)
      → r.pending_tail_sync ≡ some i
      → a.pending_tail_sync ≡ some (intent_of i)
      → list_eq actual i.new_models ≡ false
      → Matches Bool combo
          (abstract_finalize (can_save refused r) actual a)
          (finalize_tail_sync_intent now refused actual r)
  unfolding method finalize_tail_sync_intent finalize_over abstract_finalize abstract_finalize_over
      restore restore_provider intent_of
  finalize-differs i e f d =
      Matches-by combo
        (ap (λ q. abstract_finalize_over (can_save refused r) actual q a) f ∙ rw d refl)
        (mutation-undone (on_pending true) method r r
          (ap (λ q. finalize_over now refused actual q r) e ∙ rw d refl) refl)
        (record { simulates = h; answer = refl })

  finalize-refused :
      (i : TailIntent)
      → r.pending_tail_sync ≡ some i
      → a.pending_tail_sync ≡ some (intent_of i)
      → list_eq actual i.new_models ≡ true
      → can_save refused r ≡ false
      → Matches Bool combo
          (abstract_finalize (can_save refused r) actual a)
          (finalize_tail_sync_intent now refused actual r)
  unfolding method finalize_tail_sync_intent finalize_over abstract_finalize abstract_finalize_over
      intent_of carried_out
  finalize-refused i e f d c =
      Matches-by combo
        (ap (λ q. abstract_finalize_over (can_save refused r) actual q a) f ∙ rw (d, c) refl)
        (mutation-undone (on_pending true) method r (carried_out now i r)
          (ap (λ q. finalize_over now refused actual q r) e
            ∙ rw d
                (save-cannot refused (carried_out now i r) (can_save-applied refused now i r ∙ c)))
          (restore-final r (apply_tail_sync_intent now i r) (apply-IsFramed now i r)))
        (record { simulates = h; answer = refl })

  finalize-done :
      (i : TailIntent)
      → r.pending_tail_sync ≡ some i
      → a.pending_tail_sync ≡ some (intent_of i)
      → i.combo_name ≡ combo
      → list_eq actual i.new_models ≡ true
      → can_save refused r ≡ true
      → Matches Bool combo
          (abstract_finalize (can_save refused r) actual a)
          (finalize_tail_sync_intent now refused actual r)
  unfolding method finalize_tail_sync_intent finalize_over abstract_finalize abstract_finalize_over
      intent_of
  finalize-done i e f n d c =
      Matches-by combo
        (ap (λ q. abstract_finalize_over (can_save refused r) actual q a) f ∙ rw (d, c) refl)
        (mutation-done (on_pending true) method r (saved (carried_out now i r)) (
          ap (λ q. finalize_over now refused actual q r) e
          ∙ rw d (save-can refused (carried_out now i r) (can_save-applied refused now i r ∙ c))))
        (record { simulates = carried-Simulates combo now i a r n h.views; answer = refl })

  finalize-case :
      (o : Option TailIntent) (b : Option Intent)
      → r.pending_tail_sync ≡ o
      → a.pending_tail_sync ≡ b
      → SamePending combo o b
      → Matches Bool combo
          (abstract_finalize (can_save refused r) actual a)
          (finalize_tail_sync_intent now refused actual r)
  unfolding method finalize_tail_sync_intent finalize_over abstract_finalize abstract_finalize_over
      restore restore_provider
  finalize-case none none e f p =
      Matches-by combo (ap (λ q. abstract_finalize_over (can_save refused r) actual q a) f)
        (mutation-undone (on_pending true) method r r
          (ap (λ q. finalize_over now refused actual q r) e) refl)
        (record { simulates = h; answer = refl })
  finalize-case none (some j) e f p = elim p [ ]
  finalize-case (some i) none e f p = elim p [ ]
  finalize-case (some i) (some j) e f p = elim (Bool-cases (list_eq actual i.new_models)) [
    | inr d ↦ finalize-differs i e (f ∙ ap some p.1) d
    | inl d ↦ elim (Bool-cases (can_save refused r)) [
      | inr c ↦ finalize-refused i e (f ∙ ap some p.1) d c
      | inl c ↦ finalize-done i e (f ∙ ap some p.1) p.0 d c
    ]
  ]

  -- The commit of a staged sync on the full registry.
  pub finalize-Matches :
      Matches Bool combo
        (abstract_finalize (can_save refused r) actual a)
        (finalize_tail_sync_intent now refused actual r)
  finalize-Matches = finalize-case r.pending_tail_sync a.pending_tail_sync refl refl h.pending
