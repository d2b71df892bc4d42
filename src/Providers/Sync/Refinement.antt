-- ===== src/Providers/Sync/Refinement.antt =====
-- The registry's staged sync does for one combo what 9router_WatchEdit/core/free_provider_registry.py
-- promises the window of it: FreeTail.Staging is the abstract registry, of one combo's ids alone.
use router_extra.Prelude.{
  ℕ, String, ◌≡◌, refl, sym, ap, ◌∙◌, Bool, not, ◌&&◌, ◌||◌, List, [], ◌∷◌, arith, get, put,
  delete_all, get-put, get-delete_all, keep, contains, contains-keep, str_eq, eq_iff, eq_refl,
}
use router_extra.FreeTail.Plan.{apply_delta, add_all}
use router_extra.FreeTail.Replanning.{contains-add_all}
use router_extra.FreeTail.Staging.{Intent, Registry, carry_out}
use router_extra.Providers.{Ownership, Candidate, TailIntent, Provider, FreeRegistry}
use router_extra.Providers.Settings.{in_memory, in_memory_over}
use router_extra.Providers.Scans.{candidate_ids}
use router_extra.Providers.Sync.{own, flag, owned_by, without_candidates}
use router_extra.Providers.Sync.Staged.{
  apply_tail_sync_intent, append_all, append_one, given_owner, owner_of,
}

-- The intent without what only the full registry needs.
unfoldable pub intent_of : TailIntent → Intent
intent_of i = record {
  old_models = i.old_models;
  new_models = i.new_models;
  appended = i.appended;
  removed = i.removed;
}

synced-in_memory :
    (id : String) (f : Provider → Provider) (r : FreeRegistry)
    → (in_memory id f r).synced ≡ r.synced
unfolding in_memory in_memory_over
synced-in_memory id f r = ground arith

candidates-in_memory :
    (id : String) (f : Provider → Provider) (r : FreeRegistry)
    → (in_memory id f r).prune_candidates ≡ r.prune_candidates
unfolding in_memory in_memory_over
candidates-in_memory id f r = ground arith

owned_by-put :
    (k id : String) (o : Ownership) (m : List (String × Ownership))
    → owned_by o.combo (get k (put id o m)) ≡ (str_eq id k || owned_by o.combo (get k m))
unfolding owned_by
owned_by-put k id o m = rw (get-put id k o m) (ground (arith, eq_refl o.combo))

or-swap : (a b c : Bool) → (a || (b || c)) ≡ ((b || a) || c)
or-swap a b c = ground arith

owned_by-append_one :
    (k : String) (now : ℕ) (i : TailIntent) (owner : String → String) (id : String)
    (r : FreeRegistry)
    → owned_by i.combo_name (get k (append_one now i owner id r).synced)
      ≡ (str_eq id k || owned_by i.combo_name (get k r.synced))
unfolding append_one own
owned_by-append_one k now i owner id r =
    let pid = given_owner (owner id) (get id i.provider_ids) in
    ap (λ m. owned_by i.combo_name (get k m))
      (synced-in_memory pid (flag now (id ∷ []))
        (record r { synced = own pid i.combo_name now (id ∷ []) r.synced }))
    ∙ owned_by-put k id (record { provider_id = pid; combo = i.combo_name; at = now }) r.synced

owned_by-append_all :
    (k : String) (now : ℕ) (i : TailIntent) (owner : String → String) (ids : List String)
    (r : FreeRegistry)
    → owned_by i.combo_name (get k (append_all now i owner ids r).synced)
      ≡ (contains k ids || owned_by i.combo_name (get k r.synced))
unfolding append_all contains
owned_by-append_all k now i owner [] r = refl
owned_by-append_all k now i owner (id ∷ ids) r =
    owned_by-append_all k now i owner ids (append_one now i owner id r)
    ∙ ap (λ b. contains k ids || b) (owned_by-append_one k now i owner id r)
    ∙ or-swap (contains k ids) (str_eq id k) (owned_by i.combo_name (get k r.synced))

candidates-append_all :
    (now : ℕ) (i : TailIntent) (owner : String → String) (ids : List String) (r : FreeRegistry)
    → (append_all now i owner ids r).prune_candidates ≡ r.prune_candidates
unfolding append_all append_one
candidates-append_all now i owner [] r = refl
candidates-append_all now i owner (id ∷ ids) r =
    let pid = given_owner (owner id) (get id i.provider_ids) in
    candidates-append_all now i owner ids (append_one now i owner id r)
    ∙ candidates-in_memory pid (flag now (id ∷ []))
        (record r { synced = own pid i.combo_name now (id ∷ []) r.synced })

owned_by-delete_all :
    (c k : String) (ids : List String) (m : List (String × Ownership))
    → owned_by c (get k (delete_all ids m)) ≡ (owned_by c (get k m) && not (contains k ids))
unfolding owned_by
owned_by-delete_all c k ids m = rw (get-delete_all k ids m) (ground arith)

contains-without_candidates :
    (k : String) (ids : List String) (cs : List Candidate)
    → contains k (candidate_ids (without_candidates ids cs))
      ≡ (contains k (candidate_ids cs) && not (contains k ids))
unfolding candidate_ids without_candidates keep contains
contains-without_candidates k ids [] = refl
contains-without_candidates k ids (c ∷ cs) =
    ground (
      arith,
      contains-without_candidates k ids cs,
      eq_iff c.canonical_id k,
      ap (λ i. contains i ids),
    )

-- The abstract registry of one combo sees the same ids as owned there and the same candidates.
pub record Views (combo : String) (a : Registry) (r : FreeRegistry) : Type 0 where
  pub owns : (k : String) → owned_by combo (get k r.synced) ≡ contains k a.ledger.synced
  pub candidates :
      (k : String) → contains k (candidate_ids r.prune_candidates) ≡ contains k a.ledger.candidates

-- Carrying out an intent of the combo.
pub apply-Views :
    (now : ℕ) (i : TailIntent) (a : Registry) (r : FreeRegistry)
    → Views i.combo_name a r
    → Views i.combo_name (carry_out (intent_of i) a) (apply_tail_sync_intent now i r)
unfolding apply_tail_sync_intent carry_out apply_delta intent_of
apply-Views now i a r h =
    let s = append_all now i (λ id. owner_of id r.providers) i.appended r in
    record {
      owns = λ k.
          owned_by-delete_all i.combo_name k i.removed s.synced
          ∙ ap (λ b. b && not (contains k i.removed))
              (owned_by-append_all k now i (λ id. owner_of id r.providers) i.appended r
                ∙ ap (λ b. contains k i.appended || b) (h.owns k)
                ∙ sym (contains-add_all k i.appended a.ledger.synced))
          ∙ sym (
              contains-keep (λ id. not (contains id i.removed)) k
                (add_all i.appended a.ledger.synced));
      candidates = λ k.
          contains-without_candidates k i.removed s.prune_candidates
          ∙ ap (λ b. b && not (contains k i.removed))
              (ap (λ cs. contains k (candidate_ids cs))
                  (candidates-append_all now i (λ id. owner_of id r.providers) i.appended r)
                ∙ h.candidates k)
          ∙ sym (contains-keep (λ id. not (contains id i.removed)) k a.ledger.candidates);
    }
