-- ===== src/Providers/Scans/Faithful.antt =====
-- What `record_metadata_result` does to the registry.
use router_extra.Prelude.{
  ℕ, String, ◌≡◌, refl, sym, ap, subst, ◌∙◌, Bool, true, false, some, List, [], ◌∷◌, ◌++◌, arith,
  str_eq, eq_refl, if◌then◌else◌, contains, get, put, get-put,
}
use router_extra.Providers.{Provider, Candidate, FreeRegistry, Touched, save, mutation, on_provider}
use router_extra.Providers.Scans.{manual_rows, candidate_ids}
use router_extra.Providers.Scans.Results.{
  Outcome, failed, found, record_metadata_result, apply_outcome, finish, persist_or_stage,
  failed_scan, scanned, new_candidates,
}
use router_extra.Providers.Scans.Inventory.{models-failed_scan, manual_rows-scanned}

mutation-true :
    (t : Touched) (method : FreeRegistry → FreeRegistry × Bool) (r : FreeRegistry)
    → (mutation t method r).1 ≡ true
    → (mutation t method r).0 ≡ (method r).0
unfolding mutation
mutation-true t method r e = rw e refl

-- The parts of a registry that saving leaves alone.
record SameParts (r s : FreeRegistry) : Type 0 where
  providers : r.providers ≡ s.providers
  synced : r.synced ≡ s.synced
  prune_candidates : r.prune_candidates ≡ s.prune_candidates

persist_or_stage-SameParts :
    (persist refused : Bool) (r : FreeRegistry) → SameParts (persist_or_stage persist refused r).0 r
unfolding persist_or_stage save
persist_or_stage-SameParts true refused r = record {
  providers = ground arith;
  synced = ground arith;
  prune_candidates = ground arith;
}
persist_or_stage-SameParts false refused r = record {
  providers = refl;
  synced = refl;
  prune_candidates = refl;
}

contains-candidate_ids-append :
    (k : String) (xs ys : List Candidate)
    → contains k (candidate_ids xs) ≡ true
    → contains k (candidate_ids (xs ++ ys)) ≡ true
unfolding candidate_ids contains
contains-candidate_ids-append k [] ys h = cc
contains-candidate_ids-append k (x ∷ xs) ys h =
    ground (arith, contains-candidate_ids-append k xs ys)

abbrev pub Kept : Outcome → Provider → Provider → List Candidate → List Candidate → Type 0
Kept (failed e) p q old new = (q.models ≡ p.models) × (new ≡ old)
Kept (found authoritative models) p q old new =
    (k : String) → contains k (candidate_ids old) ≡ true → contains k (candidate_ids new) ≡ true

applied :
    (now : ℕ) (outcome : Outcome) (id : String) (p : Provider) (r : FreeRegistry)
    → (s : FreeRegistry) × (apply_outcome now outcome id (some p) r ≡ some s)
      × (q : Provider) × (s.providers ≡ put id q r.providers)
      × (s.synced ≡ r.synced)
      × (manual_rows q.models ≡ manual_rows p.models)
      × Kept outcome p q r.prune_candidates s.prune_candidates
unfolding apply_outcome
applied now (failed e) id p r = (
  record r { providers = put id (failed_scan now e p) r.providers },
  refl,
  failed_scan now e p,
  refl,
  refl,
  ap manual_rows (models-failed_scan now e p),
  (models-failed_scan now e p, refl),
)
applied now (found authoritative models) id p r = (
  record r {
    providers = put id (scanned now authoritative models p) r.providers;
    prune_candidates =
        r.prune_candidates ++ new_candidates now authoritative models p r.prune_candidates;
  },
  refl,
  scanned now authoritative models p,
  refl,
  refl,
  manual_rows-scanned now authoritative models p,
  λ k. contains-candidate_ids-append k r.prune_candidates _,
)

method_result :
    (now : ℕ) (persist refused : Bool) (outcome : Outcome) (id : String) (p : Provider)
    (r s : FreeRegistry)
    → get id r.providers ≡ some p
    → apply_outcome now outcome id (some p) r ≡ some s
    → finish persist refused r (apply_outcome now outcome id (get id r.providers) r)
      ≡ persist_or_stage persist refused s
unfolding finish
method_result now persist refused outcome id p r s e f =
    ap (λ o. finish persist refused r (apply_outcome now outcome id o r)) e
    ∙ ap (finish persist refused r) f

-- A metadata scan of a known provider that returns True changes one provider's record and nothing
-- of the ledger. A failed scan keeps that provider's models and the candidates for removal; a
-- successful one keeps the operator's own rows as they are and in order, and withdraws no
-- candidate, not even for a model that it lists again.
pub scan_faithful :
    (now : ℕ) (persist refused : Bool) (id : String) (outcome : Outcome) (p : Provider)
    (r : FreeRegistry)
    → get id r.providers ≡ some p
    → (record_metadata_result now persist refused id outcome r).1 ≡ true
    → let after = (record_metadata_result now persist refused id outcome r).0 in
      (q : Provider) × (get id after.providers ≡ some q)
      × ((other : String)
          → str_eq id other ≡ false
          → get other after.providers ≡ get other r.providers)
      × (after.synced ≡ r.synced)
      × (manual_rows q.models ≡ manual_rows p.models)
      × Kept outcome p q r.prune_candidates after.prune_candidates
unfolding record_metadata_result
scan_faithful now persist refused id outcome p r e ok =
    let (s, f, q, providers, synced, rows, kept) = applied now outcome id p r in
    let method = λ (x : FreeRegistry).
      finish persist refused x (apply_outcome now outcome id (get id x.providers) x) in
    let same = persist_or_stage-SameParts persist refused s in
    let after =
      mutation-true (record (on_provider id) { prune = true }) method r ok
      ∙ ap (λ (v : FreeRegistry × Bool). v.0)
          (method_result now persist refused outcome id p r s e f) in
    let ps = ap (λ (x : FreeRegistry). x.providers) after ∙ same.providers ∙ providers in
    (
      q,
      ap (get id) ps
          ∙ get-put id id q r.providers
          ∙ ap (λ b. if b then some q else get id r.providers) (eq_refl id),
      λ other d.
          ap (get other) ps
          ∙ get-put id other q r.providers
          ∙ ap (λ b. if b then some q else get other r.providers) d,
      ap (λ (x : FreeRegistry). x.synced) after ∙ same.synced ∙ synced,
      rows,
      subst (Kept outcome p q r.prune_candidates)
          (sym (ap (λ (x : FreeRegistry). x.prune_candidates) after ∙ same.prune_candidates)) kept,
    )
