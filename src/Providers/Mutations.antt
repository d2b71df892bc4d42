-- ===== src/Providers/Mutations.antt =====
-- The methods of the registry that `_registry_mutation` wraps, as values.
use router_extra.Prelude.{
  ℕ, String, ◌≡◌, refl, ap, ◌∙◌, Bool, true, false, none, some, List, get, put, Option-cases, inl,
  inr, delete_all,
}
use router_extra.FreeTail.{FreeEvidence, ProviderHealth}
use router_extra.Providers.{
  Provider, FreeRegistry, TailIntent, ScanPolicy, ScanMode, save, restore, restore_provider,
  on_provider,
}
use router_extra.Providers.Settings.{
  set_enabled, set_policy, set_mode, set_note, set_live_probe_consent, mark_trusted_alive,
  clear_trusted_alive, in_memory, in_memory_over,
}
use router_extra.Providers.Scans.Results.{
  Outcome, LiveOutcome, record_metadata_result, record_live_probe_result, record_health_state,
}
use router_extra.Providers.Scans.Manual.{add_manual_model}
use router_extra.Providers.Sync.{
  mark_synced, drop_synced, confirm_pruned, on_ledger, own, flag, marked, pruned,
}
use router_extra.Providers.Sync.Staged.{
  stage_tail_sync_intent, commit_tail_sync_delta, finalize_tail_sync_intent,
}
use router_extra.Providers.Rollback.{
  IsKept, save-IsAtomic, mutation-IsKept, restore_provider-put, restore_provider-same,
}

pub data Mutation : Type 0 where
  enables : (id : String) → (enabled : Bool) → Mutation
  sets_policy : (id : String) → ScanPolicy → Mutation
  sets_mode : (id : String) → ScanMode → Mutation
  notes : (id note : String) → Mutation
  consents : (id : String) → (allowed : Bool) → Mutation
  trusts : (now : ℕ) → (id duration : String) → Mutation
  untrusts : (id : String) → Mutation
  scans : (now : ℕ) → (persist : Bool) → (id : String) → Outcome → Mutation
  probes : (now : ℕ) → (persist : Bool) → (id : String) → LiveOutcome → Mutation
  judges : (persist : Bool) → (id : String) → ProviderHealth → (status : String) → Mutation
  adds_manual : (now : ℕ) → (id model : String) → FreeEvidence → Mutation
  marks : (now : ℕ) → (ids : List String) → (id combo : String) → Mutation
  drops : (ids : List String) → Mutation
  confirms : (ids : List String) → Mutation
  stages : TailIntent → Mutation
  commits : (now : ℕ) → TailIntent → Mutation
  finalizes : (now : ℕ) → (actual : List String) → Mutation

-- `refused` is what becomes of the save that the method asks for.
unfoldable pub mutate : Bool → Mutation → FreeRegistry → FreeRegistry × Bool
unfolding set_enabled set_policy set_mode set_note set_live_probe_consent mark_trusted_alive
    clear_trusted_alive record_metadata_result record_live_probe_result record_health_state
    add_manual_model mark_synced drop_synced confirm_pruned stage_tail_sync_intent
    commit_tail_sync_delta finalize_tail_sync_intent
mutate refused (enables id enabled) r = set_enabled refused id enabled r
mutate refused (sets_policy id policy) r = set_policy refused id policy r
mutate refused (sets_mode id mode) r = set_mode refused id mode r
mutate refused (notes id note) r = set_note refused id note r
mutate refused (consents id allowed) r = set_live_probe_consent refused id allowed r
mutate refused (trusts now id duration) r = mark_trusted_alive refused now id duration r
mutate refused (untrusts id) r = clear_trusted_alive refused id r
mutate refused (scans now persist id outcome) r =
    record_metadata_result now persist refused id outcome r
mutate refused (probes now persist id outcome) r =
    record_live_probe_result now persist refused id outcome r
mutate refused (judges persist id h status) r = record_health_state persist refused id h status r
mutate refused (adds_manual now id model evidence) r =
    add_manual_model now refused id model evidence r
mutate refused (marks now ids id combo) r = mark_synced now refused ids id combo r
mutate refused (drops ids) r = drop_synced refused ids r
mutate refused (confirms ids) r = confirm_pruned refused ids r
mutate refused (stages i) r = stage_tail_sync_intent refused i r
mutate refused (commits now i) r = commit_tail_sync_delta now refused i r
mutate refused (finalizes now actual) r = finalize_tail_sync_intent now refused actual r

-- Whether a method saves at once; a scan may leave that to the next save.
unfoldable pub saves_now : Mutation → Bool
saves_now (scans now persist id outcome) = persist
saves_now (probes now persist id outcome) = persist
saves_now (judges persist id h status) = persist
saves_now m = true

in_memory-none :
    (id : String) (f : Provider → Provider) (r : FreeRegistry)
    → get id r.providers ≡ none
    → in_memory id f r ≡ r
unfolding in_memory in_memory_over
in_memory-none id f r e = rw (e, in_memory) refl

in_memory-some :
    (id : String) (f : Provider → Provider) (r : FreeRegistry) (p : Provider)
    → get id r.providers ≡ some p
    → in_memory id f r ≡ record r { providers = put id (f p) r.providers }
unfolding in_memory in_memory_over
in_memory-some id f r p e = rw (e, in_memory) refl

mark-restored :
    (now : ℕ) (ids : List String) (id combo : String) (r : FreeRegistry)
    → get "" r.providers ≡ none
    → restore (record (on_provider id) { ledger = true }) r (marked now ids id combo r) ≡ r
unfolding restore marked
mark-restored now ids id combo r n =
    let s = record r { synced = own id combo now ids r.synced } in
    elim (Option-cases (get id r.providers)) [
      | inl e ↦
          ap (restore (record (on_provider id) { ledger = true }) r)
            (in_memory-none id (flag now ids) s e)
          ∙ ap (λ ps. record r { providers = ps }) (restore_provider-same id r n)
      | inr (p, e) ↦
          ap (restore (record (on_provider id) { ledger = true }) r)
            (in_memory-some id (flag now ids) s p e)
          ∙ ap (λ ps. record r { providers = ps })
              (restore_provider-put id r n p (flag now ids p) e)
    ]

pub mark-IsKept :
    (now : ℕ) (refused : Bool) (ids : List String) (id combo : String) (r : FreeRegistry)
    → get "" r.providers ≡ none
    → IsKept true r (mark_synced now refused ids id combo r)
unfolding mark_synced
mark-IsKept now refused ids id combo r n =
    mutation-IsKept (record (on_provider id) { ledger = true }) true
      (λ s. save false refused (marked now ids id combo s)) r
      (save-IsAtomic (record (on_provider id) { ledger = true }) refused r
        (marked now ids id combo r) (mark-restored now ids id combo r n))

pub drop-IsKept :
    (refused : Bool) (ids : List String) (r : FreeRegistry)
    → IsKept true r (drop_synced refused ids r)
unfolding drop_synced restore restore_provider
drop-IsKept refused ids r =
    mutation-IsKept (on_ledger false) true
      (λ s. save false refused (record s { synced = delete_all ids s.synced })) r
      (save-IsAtomic (on_ledger false) refused r (record r { synced = delete_all ids r.synced })
        refl)

pub confirm-IsKept :
    (refused : Bool) (ids : List String) (r : FreeRegistry)
    → IsKept true r (confirm_pruned refused ids r)
unfolding confirm_pruned restore restore_provider pruned
confirm-IsKept refused ids r =
    mutation-IsKept (on_ledger true) true (λ s. save false refused (pruned ids s)) r
      (save-IsAtomic (on_ledger true) refused r (pruned ids r) refl)
