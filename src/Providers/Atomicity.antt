-- ===== src/Providers/Atomicity.antt =====
-- Every mutation of the registry either leaves everything as it was or is on disk whole.
use router_extra.Prelude.{
  ℕ, String, ◌≡◌, refl, ap, ◌∙◌, Bool, true, none, some, arith, get, put, get-put, eq_iff,
  Option-cases, inl, inr,
}
use router_extra.FreeTail.{ProviderHealth}
use router_extra.Providers.{
  Provider, FreeRegistry, restore, restore_provider, on_provider, change_over, change,
}
use router_extra.Providers.Settings.{
  trust_for, Duration, unknown_duration, until_cleared, seconds, trust, in_memory, in_memory_over,
}
use router_extra.Providers.Scans.Results.{
  Outcome, failed, found, LiveOutcome, succeeded, blocked, refused_or_failed,
  record_metadata_result, record_live_probe_result, record_health_state, update_over, apply_outcome,
  finish, live_over, judged,
}
use router_extra.Providers.Rollback.{
  IsAtomic, IsKept, save-IsAtomic, persist_or_stage-IsAtomic, failed-IsAtomic, mutation-IsKept,
  restore_provider-put, restore_provider-same,
}

module _ (id : String) (r : FreeRegistry) (named : get "" r.providers ≡ none) where
  restore-same : restore (on_provider id) r r ≡ r
  unfolding restore
  restore-same = ap (λ ps. record r { providers = ps }) (restore_provider-same id r named)

  restore-put :
      (p q : Provider)
      → get id r.providers ≡ some p
      → restore (on_provider id) r (record r { providers = put id q r.providers }) ≡ r
  unfolding restore
  restore-put p q e = ap (λ ps. record r { providers = ps }) (restore_provider-put id r named p q e)

  change_over-IsAtomic :
      (refused : Bool) (f : Provider → Provider)
      → IsAtomic (on_provider id) true r (change_over (get id r.providers) refused id f r)
  unfolding change_over
  change_over-IsAtomic refused f = elim (Option-cases (get id r.providers)) [
    | inl e ↦ rw (e, change_over) (failed-IsAtomic (on_provider id) true r restore-same)
    | inr (p, e) ↦
        rw (e, change_over)
          (save-IsAtomic (on_provider id) refused r
            (record r { providers = put id (f p) r.providers }) (restore-put p (f p) e))
  ]

  pub change-IsKept :
      (refused : Bool) (f : Provider → Provider) → IsKept true r (change refused id f r)
  unfolding change
  change-IsKept refused f =
      mutation-IsKept (on_provider id) true (λ s. change_over (get id s.providers) refused id f s) r
        (change_over-IsAtomic refused f)

  update_over-IsAtomic :
      (persist refused : Bool) (f : Provider → Provider)
      → IsAtomic
          (on_provider id)
          persist
          r
          (update_over persist refused (get id r.providers) id f r)
  unfolding update_over
  update_over-IsAtomic persist refused f = elim (Option-cases (get id r.providers)) [
    | inl e ↦ rw (e, update_over) (failed-IsAtomic (on_provider id) persist r restore-same)
    | inr (p, e) ↦
        rw (e, update_over)
          (persist_or_stage-IsAtomic (on_provider id) persist refused r
            (record r { providers = put id (f p) r.providers }) (restore-put p (f p) e) refl)
  ]

  pub health-IsKept :
      (persist refused : Bool) (h : ProviderHealth) (status : String)
      → IsKept persist r (record_health_state persist refused id h status r)
  unfolding record_health_state
  health-IsKept persist refused h status =
      mutation-IsKept (on_provider id) persist
        (λ s. update_over persist refused (get id s.providers) id (judged h status) s) r
        (update_over-IsAtomic persist refused (judged h status))

  pub trust_for-IsKept :
      (refused : Bool) (now : ℕ) (d : Duration) → IsKept true r (trust_for refused now id d r)
  unfolding trust_for
  trust_for-IsKept refused now unknown_duration = record {
    unchanged = λ x. refl;
    in_file = λ x. absurd cc;
  }
  trust_for-IsKept refused now until_cleared = change-IsKept refused (trust now none)
  trust_for-IsKept refused now (seconds n) = change-IsKept refused (trust now _)

  scan-IsAtomic :
      (now : ℕ) (persist refused : Bool) (outcome : Outcome) (p : Provider)
      → get id r.providers ≡ some p
      → IsAtomic
          (record (on_provider id) { prune = true })
          persist
          r
          (finish persist refused r (apply_outcome now outcome id (some p) r))
  unfolding finish apply_outcome restore
  scan-IsAtomic now persist refused (failed e) p h =
      persist_or_stage-IsAtomic (record (on_provider id) { prune = true }) persist refused r _
        (restore-put p _ h) refl
  scan-IsAtomic now persist refused (found authoritative models) p h =
      persist_or_stage-IsAtomic (record (on_provider id) { prune = true }) persist refused r _
        (restore-put p _ h) refl

  pub metadata-IsKept :
      (now : ℕ) (persist refused : Bool) (outcome : Outcome)
      → IsKept persist r (record_metadata_result now persist refused id outcome r)
  unfolding record_metadata_result finish apply_outcome restore
  metadata-IsKept now persist refused outcome =
      mutation-IsKept (record (on_provider id) { prune = true }) persist
        (λ s. finish persist refused s (apply_outcome now outcome id (get id s.providers) s)) r
        (elim (Option-cases (get id r.providers)) [
          | inl e ↦
              rw (e, apply_outcome)
                (failed-IsAtomic (record (on_provider id) { prune = true }) persist r restore-same)
          | inr (p, e) ↦ rw e (scan-IsAtomic now persist refused outcome p e)
        ])

live_blocked-IsAtomic :
    (id : String) (r : FreeRegistry) (persist refused : Bool) (h : ProviderHealth) (p q : Provider)
    → get "" r.providers ≡ none
    → get id r.providers ≡ some p
    → IsAtomic (on_provider id) persist r (
        record_health_state persist refused id h "" (record r { providers = put id q r.providers }))
live_blocked-IsAtomic id r persist refused h p q n e =
    let s = record r { providers = put id q r.providers } in
    let k =
      health-IsKept id s
        (ground (arith, get-put id "" q r.providers, eq_iff id "", ap (λ i. get i r.providers)))
        persist refused h "" in
    record {
      undone = λ x. ap (restore (on_provider id) r) (k.unchanged x) ∙ restore-put id r n p q e;
      written = k.in_file;
    }

live-IsAtomic :
    (id : String) (r : FreeRegistry) (now : ℕ) (persist refused : Bool) (outcome : LiveOutcome)
    (p : Provider)
    → get "" r.providers ≡ none
    → get id r.providers ≡ some p
    → IsAtomic (on_provider id) persist r (live_over now persist refused outcome id (some p) r)
unfolding live_over
live-IsAtomic id r now persist refused succeeded p n h =
    persist_or_stage-IsAtomic (on_provider id) persist refused r _ (restore-put id r n p _ h) refl
live-IsAtomic id r now persist refused (blocked b state error_class) p n h =
    live_blocked-IsAtomic id r persist refused b p _ n h
live-IsAtomic id r now persist refused (refused_or_failed state error_class) p n h =
    persist_or_stage-IsAtomic (on_provider id) persist refused r _ (restore-put id r n p _ h) refl

pub live-IsKept :
    (id : String) (r : FreeRegistry) (now : ℕ) (persist refused : Bool) (outcome : LiveOutcome)
    → get "" r.providers ≡ none
    → IsKept persist r (record_live_probe_result now persist refused id outcome r)
unfolding record_live_probe_result live_over
live-IsKept id r now persist refused outcome n =
    mutation-IsKept (on_provider id) persist
      (λ s. live_over now persist refused outcome id (get id s.providers) s) r
      (elim (Option-cases (get id r.providers)) [
        | inl e ↦
            rw (e, live_over) (failed-IsAtomic (on_provider id) persist r (restore-same id r n))
        | inr (p, e) ↦ rw e (live-IsAtomic id r now persist refused outcome p n e)
      ])

in_memory-providers :
    (id : String) (f : Provider → Provider) (r : FreeRegistry)
    → get "" r.providers ≡ none
    → restore_provider (some id) r.providers (in_memory id f r).providers ≡ r.providers
unfolding in_memory in_memory_over
in_memory-providers id f r n = elim (Option-cases (get id r.providers)) [
  | inl e ↦ rw (e, in_memory) (restore_provider-same id r n)
  | inr (p, e) ↦ rw (e, in_memory) (restore_provider-put id r n p (f p) e)
]
