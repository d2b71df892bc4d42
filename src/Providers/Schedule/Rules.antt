-- ===== src/Providers/Schedule/Rules.antt =====
-- The rules for scanning, probing and joining the FREE tail.
use router_extra.Prelude.{
  ℕ, ◌-◌, String, ◌≡◌, ◌≢◌, ◌⊎◌, refl, sym, ap, ◌∙◌, Bool, true, false, ◌&&◌, ◌||◌, Option, none,
  some, List, [], ◌∷◌, arith, str_eq, eq_iff, leb, ◌==◌, is_none, keep, contains, contains-append,
  get, keys, Option-cases, Bool-cases, inl, inr,
}
use router_extra.FreeTail.{
  tail_eligibility, strict_free, client_bound_free, dead, auth_failed, unsupported,
  cost_risk_blocks_live_probe, local_bridge_required, direct_routable,
}
use router_extra.FreeTail.Evidence.{tail_eligibility_iff}
use router_extra.FreeTail.Plan.{Ledger, read_input, original_of, plan_tail_sync}
use router_extra.FreeTail.Planning.{contains-first_of_each}
use router_extra.FreeTail.Sync.{plan_members}
use router_extra.Storage.{sort_texts}
use router_extra.Storage.Reading.{contains-sort_texts}
use router_extra.Providers.{
  ModelRow, Provider, FreeRegistry, ScanPolicy, always, stale_only, manual, never,
}
use router_extra.Providers.Scans.{ids_of}
use router_extra.Providers.Schedule.{
  is_stale, due_by, record_due, is_due, refuses_all, requested, operator_scan_requested,
  is_eligible, risk_of, eligible_ids, is_wanted, tail_ids_of, eligible_tail_ids,
}

-- Whether a policy schedules a scan by itself, of a record that is stale or not.
abbrev pub schedules : ScanPolicy → Bool → Bool
schedules always stale = true
schedules stale_only stale = stale
schedules manual stale = false
schedules never stale = false

due_of :
    (now : ℕ) (p : Provider)
    → record_due now (some p) ≡ (requested now (some p) && schedules p.scan_policy (is_stale now p))
unfolding record_due due_by requested refuses_all
due_of now p = ground arith

-- A provider is due by itself exactly if the operator could have it scanned now, so it is enabled,
-- not NEVER and not backing off, and its policy schedules it: ALWAYS, or STALE_ONLY with no
-- metadata younger than six hours.
pub is_due_iff :
    (now : ℕ) (id : String) (p : Provider) (r : FreeRegistry)
    → get id r.providers ≡ some p
    → is_due now id r ≡ (
        operator_scan_requested now id r
        && schedules p.scan_policy
            (p.last_metadata_success == 0 || leb 21600 (now - p.last_metadata_success)))
unfolding is_due operator_scan_requested is_stale
is_due_iff now id p r e = rw e (due_of now p)

contains-ids_of :
    (k : String) (test : ModelRow → Bool) (rows : List ModelRow)
    → contains k (ids_of (keep test rows)) ≡ true
    → (row : ModelRow) × (row.canonical_id ≡ k) × (test row ≡ true)
unfolding contains ids_of keep
contains-ids_of k test [] h = absurd cc
contains-ids_of k test (row ∷ rows) h = elim (Bool-cases (test row && str_eq row.canonical_id k)) [
  | inl e ↦ (row, ground (arith, eq_iff row.canonical_id k), ground arith)
  | inr e ↦ contains-ids_of k test rows (ground arith)
]

-- A model that the registry holds and that may be in the FREE tail: the provider is not proved
-- down for it, a routing path exists, and it is strictly free at no monetary risk or bound to the
-- client and usable through the bridge.
abbrev pub IsFreeRoute : List String → String → FreeRegistry → Type 0
IsFreeRoute bridge k r =
    (id : String) × (p : Provider) × (get id r.providers ≡ some p)
    × (row : ModelRow) × (row.canonical_id ≡ k)
    × (row.provider_health ≢ dead)
    × (row.provider_health ≢ auth_failed)
    × (row.routing ≢ unsupported)
    × (((row.free_evidence ≡ strict_free)
          × (cost_risk_blocks_live_probe (risk_of p.live_probe_cost_risk row.cost_risk) ≡ false))
        ⊎ ((row.free_evidence ≡ client_bound_free)
            × (contains k bridge ≡ true)
            × ((row.routing ≡ local_bridge_required) ⊎ (row.routing ≡ direct_routable))))

none_of : {A : Type 0} (o : Option A) → is_none o ≡ true → o ≡ none
none_of none h = refl
none_of (some x) h = absurd cc

eligible-row :
    (bridge : List String) (k : String) (p : Provider)
    → contains k (eligible_ids bridge (some p)) ≡ true
    → (row : ModelRow) × (row.canonical_id ≡ k)
      × (tail_eligibility row.free_evidence row.provider_health row.routing
            (risk_of p.live_probe_cost_risk row.cost_risk)
            (contains k bridge)
          ≡ none)
unfolding eligible_ids is_eligible
eligible-row bridge k p h =
    let (row, e, t) =
      contains-ids_of k (is_eligible bridge p) p.models
        (sym (contains-sort_texts k (ids_of (keep (is_eligible bridge p) p.models))) ∙ h) in
    (
      row,
      e,
      ap
            (λ i.
              tail_eligibility row.free_evidence row.provider_health row.routing
                (risk_of p.live_probe_cost_risk row.cost_risk) (contains i bridge))
            (sym e)
          ∙ none_of _ t,
    )

-- An eligible model's row, as what makes it a FREE route.
row-IsFreeRoute :
    (bridge : List String) (k id : String) (r : FreeRegistry) (p : Provider)
    → get id r.providers ≡ some p
    → contains k (eligible_ids bridge (some p)) ≡ true
    → IsFreeRoute bridge k r
row-IsFreeRoute bridge k id r p e h =
    let (row, e', t) = eligible-row bridge k p h in
    let (alive, authorized, routed, free) =
      (tail_eligibility_iff row.free_evidence row.provider_health row.routing
          (risk_of p.live_probe_cost_risk row.cost_risk) (contains k bridge)).0
        t in
    (id, p, e, row, e', alive, authorized, routed, free)

eligible_ids-none :
    (bridge : List String) (k : String) → contains k (eligible_ids bridge none) ≡ false
unfolding eligible_ids contains
eligible_ids-none bridge k = refl

provider-row :
    (bridge : List String) (k id : String) (r : FreeRegistry)
    → contains k (eligible_ids bridge (get id r.providers)) ≡ true
    → IsFreeRoute bridge k r
provider-row bridge k id r h = elim (Option-cases (get id r.providers)) [
  | inl e ↦
      let is_none = eligible_ids-none bridge k in
      let moved = ap (λ o. contains k (eligible_ids bridge o)) e in absurd cc
  | inr (p, e) ↦
      row-IsFreeRoute bridge k id r p e (ap (λ o. contains k (eligible_ids bridge o)) (sym e) ∙ h)
]

tail_ids_of-IsFreeRoute :
    (bridge : List String) (k : String) (r : FreeRegistry) (ids : List String)
    → contains k (tail_ids_of bridge r ids) ≡ true
    → IsFreeRoute bridge k r
unfolding tail_ids_of contains
tail_ids_of-IsFreeRoute bridge k r [] h = absurd cc
tail_ids_of-IsFreeRoute bridge k r (id ∷ ids) h =
    elim (Bool-cases (contains k (eligible_ids bridge (get id r.providers)))) [
      | inl e ↦ provider-row bridge k id r e
      | inr e ↦ tail_ids_of-IsFreeRoute bridge k r ids (
          ground (
            arith,
            contains-append k (eligible_ids bridge (get id r.providers)) (tail_ids_of bridge r ids),
          ))
    ]

pub eligible_tail_ids-IsFreeRoute :
    (wanted? : Option (List String)) (bridge : List String) (k : String) (r : FreeRegistry)
    → contains k (eligible_tail_ids wanted? bridge r) ≡ true
    → IsFreeRoute bridge k r
unfolding eligible_tail_ids
eligible_tail_ids-IsFreeRoute wanted? bridge k r h =
    tail_ids_of-IsFreeRoute bridge k r (keep (is_wanted wanted?) (sort_texts (keys r.providers))) h

wanted-IsFreeRoute :
    (wanted? : Option (List String)) (bridge : List String) (r : FreeRegistry) (ledger : Ledger)
    (given : List (String × String)) (k : String)
    → contains k (read_input (eligible_tail_ids wanted? bridge r) ledger given).wanted ≡ true
    → IsFreeRoute bridge k r
unfolding read_input
wanted-IsFreeRoute wanted? bridge r ledger given k h =
    eligible_tail_ids-IsFreeRoute wanted? bridge k r
      (ground (arith, contains-first_of_each k [] (eligible_tail_ids wanted? bridge r)))

-- Whatever a tail sync from the registry puts in a combo that was not there is the id of a row of
-- the registry whose provider is neither dead nor failing authorization for it, that has a routing
-- path, and that is strictly free at a cost that does not block probing, or bound to the client
-- and usable through the bridge.
pub synced-IsFreeRoute :
    (combo_models : List String) (wanted? : Option (List String)) (bridge : List String)
    (r : FreeRegistry) (ledger : Ledger) (given : List (String × String)) (k : String)
    → contains k
        (plan_tail_sync combo_models
          (read_input (eligible_tail_ids wanted? bridge r) ledger given)).models
      ≡ true
    → contains k (original_of combo_models) ≡ false
    → IsFreeRoute bridge k r
synced-IsFreeRoute combo_models wanted? bridge r ledger given k h new =
    let i = read_input (eligible_tail_ids wanted? bridge r) ledger given in
    elim ((plan_members combo_models i k).0 h) [
      | inl e ↦ wanted-IsFreeRoute wanted? bridge r ledger given k e
      | inr (present, kept, owned) ↦ absurd cc
    ]
