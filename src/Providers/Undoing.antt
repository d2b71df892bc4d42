-- ===== src/Providers/Undoing.antt =====
-- Every wrapped method of the registry is undone where its save fails.
use router_extra.Prelude.{
  ℕ, String, ◌≡◌, refl, ap, ◌∙◌, Bool, true, false, Option, none, some, List, [], ◌∷◌,
  if◌then◌else◌, get, Option-cases, Bool-cases, inl, inr, list_eq, str_eq,
}
use router_extra.Storage.{is_blank}
use router_extra.Providers.{Provider, FreeRegistry, TailIntent, document, restore, restore_provider}
use router_extra.Providers.Settings.{
  set_enabled, set_policy, set_mode, set_note, set_live_probe_consent, mark_trusted_alive,
  trust_duration, clear_trusted_alive, in_memory, in_memory_over, enable,
}
use router_extra.Providers.Scans.Manual.{add_manual_model, with_manual}
use router_extra.Providers.Sync.{own, flag}
use router_extra.Providers.Sync.Staged.{
  stage_tail_sync_intent, commit_tail_sync_delta, finalize_tail_sync_intent, on_pending, on_commit,
  stage_over, commit_over, finalize_over, carried_out, apply_tail_sync_intent, append_all,
  append_one, given_owner, owner_of,
}
use router_extra.Providers.Rollback.{
  IsAtomic, IsKept, save-IsAtomic, failed-IsAtomic, mutation-IsKept,
}
use router_extra.Providers.Mutations.{
  Mutation, enables, sets_policy, sets_mode, notes, consents, trusts, untrusts, scans, probes,
  judges, adds_manual, marks, drops, confirms, stages, commits, finalizes, mutate, saves_now,
  mark-IsKept, drop-IsKept, confirm-IsKept,
}
use router_extra.Providers.Atomicity.{
  change-IsKept, health-IsKept, trust_for-IsKept, metadata-IsKept, live-IsKept,
}

-- What applying a sync may change.
abbrev pub IsFramed : FreeRegistry → FreeRegistry → Type 0
IsFramed r s =
    s
    ≡ record r { providers = s.providers; synced = s.synced; prune_candidates = s.prune_candidates }

IsFramed-trans : (r s t : FreeRegistry) → IsFramed r s → IsFramed s t → IsFramed r t
IsFramed-trans r s t h k =
    k
    ∙ ap
        (λ (x : FreeRegistry). record x {
          providers = t.providers;
          synced = t.synced;
          prune_candidates = t.prune_candidates;
        })
        h

pub in_memory-IsFramed :
    (id : String) (f : Provider → Provider) (r : FreeRegistry) → IsFramed r (in_memory id f r)
unfolding in_memory in_memory_over
in_memory-IsFramed id f r = elim (Option-cases (get id r.providers)) [
  | inl e ↦ rw (e, in_memory) refl
  | inr (p, e) ↦ rw (e, in_memory) refl
]

pub append_all-IsFramed :
    (now : ℕ) (i : TailIntent) (owner : String → String) (ids : List String) (r : FreeRegistry)
    → IsFramed r (append_all now i owner ids r)
unfolding append_all append_one
append_all-IsFramed now i owner [] r = refl
append_all-IsFramed now i owner (id ∷ ids) r =
    let pid = given_owner (owner id) (get id i.provider_ids) in
    let s = record r { synced = own pid i.combo_name now (id ∷ []) r.synced } in
    let t = append_one now i owner id r in
    IsFramed-trans r t (append_all now i owner ids t)
      (IsFramed-trans r s t refl (in_memory-IsFramed pid (flag now (id ∷ [])) s))
      (append_all-IsFramed now i owner ids t)

pub apply-IsFramed :
    (now : ℕ) (i : TailIntent) (r : FreeRegistry) → IsFramed r (apply_tail_sync_intent now i r)
unfolding apply_tail_sync_intent
apply-IsFramed now i r =
    let s = append_all now i (λ id. owner_of id r.providers) i.appended r in
    IsFramed-trans r s _ (append_all-IsFramed now i (λ id. owner_of id r.providers) i.appended r)
      refl

restore-commit : (r s : FreeRegistry) → IsFramed r s → restore on_commit r s ≡ r
unfolding restore restore_provider
restore-commit r s h = ap (restore on_commit r) h

pub restore-final :
    (r s : FreeRegistry)
    → IsFramed r s
    → restore (on_pending true) r (record s { pending_tail_sync = none }) ≡ r
unfolding restore restore_provider
restore-final r s h =
    ap (λ (x : FreeRegistry). restore (on_pending true) r (record x { pending_tail_sync = none })) h

pub restore-pending :
    (r : FreeRegistry) (o : Option TailIntent)
    → restore (on_pending false) r (record r { pending_tail_sync = o }) ≡ r
unfolding restore restore_provider
restore-pending r o = refl

pub stage_over-IsAtomic :
    (refused : Bool) (i : TailIntent) (o : Option TailIntent) (r : FreeRegistry)
    → IsAtomic (on_pending false) true r (stage_over refused i o r)
unfolding stage_over
stage_over-IsAtomic refused i (some staged) r =
    failed-IsAtomic (on_pending false) true r (restore-pending r r.pending_tail_sync)
stage_over-IsAtomic refused i none r = elim (Bool-cases (is_blank i.combo_name)) [
  | inl e ↦
      rw (e, stage_over)
        (failed-IsAtomic (on_pending false) true r (restore-pending r r.pending_tail_sync))
  | inr e ↦
      rw (e, stage_over)
        (save-IsAtomic (on_pending false) refused r (record r { pending_tail_sync = some i })
          (restore-pending r (some i)))
]

commit_over-IsAtomic :
    (now : ℕ) (refused : Bool) (i : TailIntent) (o : Option TailIntent) (r : FreeRegistry)
    → IsAtomic on_commit true r (commit_over now refused i o r)
unfolding commit_over
commit_over-IsAtomic now refused i (some staged) r =
    failed-IsAtomic on_commit true r (restore-commit r r refl)
commit_over-IsAtomic now refused i none r = elim (Bool-cases (str_eq i.combo_name "")) [
  | inl e ↦ rw (e, commit_over) (failed-IsAtomic on_commit true r (restore-commit r r refl))
  | inr e ↦
      rw (e, commit_over)
        (save-IsAtomic on_commit refused r (apply_tail_sync_intent now i r)
          (restore-commit r (apply_tail_sync_intent now i r) (apply-IsFramed now i r)))
]

pub finalize_over-IsAtomic :
    (now : ℕ) (refused : Bool) (actual : List String) (o : Option TailIntent) (r : FreeRegistry)
    → IsAtomic (on_pending true) true r (finalize_over now refused actual o r)
unfolding finalize_over carried_out restore restore_provider
finalize_over-IsAtomic now refused actual none r = failed-IsAtomic (on_pending true) true r refl
finalize_over-IsAtomic now refused actual (some i) r =
    elim (Bool-cases (list_eq actual i.new_models)) [
      | inl e ↦
          rw (e, finalize_over)
            (save-IsAtomic (on_pending true) refused r (carried_out now i r)
              (restore-final r (apply_tail_sync_intent now i r) (apply-IsFramed now i r)))
      | inr e ↦ rw (e, finalize_over) (failed-IsAtomic (on_pending true) true r refl)
    ]

mutate-IsKept :
    (refused : Bool) (m : Mutation) (r : FreeRegistry)
    → get "" r.providers ≡ none
    → IsKept (saves_now m) r (mutate refused m r)
unfolding mutate saves_now set_enabled set_policy set_mode set_note set_live_probe_consent
    mark_trusted_alive clear_trusted_alive add_manual_model stage_tail_sync_intent
    commit_tail_sync_delta finalize_tail_sync_intent
mutate-IsKept refused (enables id enabled) r n = change-IsKept id r n refused (enable enabled)
mutate-IsKept refused (sets_policy id policy) r n = change-IsKept id r n refused _
mutate-IsKept refused (sets_mode id mode) r n = change-IsKept id r n refused _
mutate-IsKept refused (notes id note) r n = change-IsKept id r n refused _
mutate-IsKept refused (consents id allowed) r n = change-IsKept id r n refused _
mutate-IsKept refused (trusts now id duration) r n =
    trust_for-IsKept id r n refused now (trust_duration duration)
mutate-IsKept refused (untrusts id) r n = change-IsKept id r n refused _
mutate-IsKept refused (scans now persist id outcome) r n =
    metadata-IsKept id r n now persist refused outcome
mutate-IsKept refused (probes now persist id outcome) r n =
    live-IsKept id r now persist refused outcome n
mutate-IsKept refused (judges persist id h status) r n =
    health-IsKept id r n persist refused h status
mutate-IsKept refused (adds_manual now id model evidence) r n =
    change-IsKept id r n refused (with_manual now model evidence)
mutate-IsKept refused (marks now ids id combo) r n = mark-IsKept now refused ids id combo r n
mutate-IsKept refused (drops ids) r n = drop-IsKept refused ids r
mutate-IsKept refused (confirms ids) r n = confirm-IsKept refused ids r
mutate-IsKept refused (stages i) r n =
    mutation-IsKept (on_pending false) true (λ s. stage_over refused i s.pending_tail_sync s) r
      (stage_over-IsAtomic refused i r.pending_tail_sync r)
mutate-IsKept refused (commits now i) r n =
    mutation-IsKept on_commit true (λ s. commit_over now refused i s.pending_tail_sync s) r
      (commit_over-IsAtomic now refused i r.pending_tail_sync r)
mutate-IsKept refused (finalizes now actual) r n =
    mutation-IsKept (on_pending true) true
      (λ s. finalize_over now refused actual s.pending_tail_sync s) r
      (finalize_over-IsAtomic now refused actual r.pending_tail_sync r)

-- A wrapped method of the registry, `ensure_provider` and `reconcile_pending_tail_sync` aside, that
-- returns False leaves the registry and its file exactly as they were, whatever it had changed by
-- then. One that returns True and saves has the registry as it is now in the file; a scan that
-- leaves the saving to later has not touched the file. No provider may stand under the empty id.
pub mutate_or_undo :
    (refused : Bool) (m : Mutation) (r : FreeRegistry)
    → get "" r.providers ≡ none
    → let (after, ok) = mutate refused m r in
      (ok ≡ false → after ≡ r)
      × (ok ≡ true → after.file ≡ (if saves_now m then some (document after) else r.file))
mutate_or_undo refused m r n = let k = mutate-IsKept refused m r n in (k.unchanged, k.in_file)
