-- ===== src/Providers/Scans/Candidates.antt =====
-- Which owned routes a metadata scan makes candidates for removal.
use router_extra.Prelude.{
  ℕ, String, ◌≡◌, ◌≢◌, refl, ap, ◌∙◌, Bool, true, false, not, ◌&&◌, ◌||◌, Option, none, some, List,
  [], ◌∷◌, ◌++◌, arith, str_eq, eq_iff, contains, Distinct, put-Distinct, get-absent, get, put,
  keys, Option-cases, Bool-cases, inl, inr,
}
use router_extra.Providers.{ModelRow, Provider, Candidate}
use router_extra.Providers.Scans.{
  by_id, by_id_onto, incoming_by_id, manual_rows, ids_of, schedule_prune, candidate_ids, add_first,
}
use router_extra.Providers.Scans.Results.{incoming_of, new_candidates}

by_id_onto-Distinct :
    (rows : List ModelRow) (m : List (String × ModelRow))
    → Distinct (keys m)
    → Distinct (keys (by_id_onto rows m))
unfolding by_id_onto
by_id_onto-Distinct [] m h = h
by_id_onto-Distinct (row ∷ rows) m h =
    by_id_onto-Distinct rows (put row.canonical_id row m) (put-Distinct row.canonical_id row m h)

by_id-Distinct : (rows : List ModelRow) → Distinct (keys (by_id rows))
unfolding by_id keys
by_id-Distinct rows = by_id_onto-Distinct rows [] tt

-- A row that the scanner owns and that was put in the FREE tail.
unfoldable pub is_owned_route : Option ModelRow → Bool
is_owned_route none = false
is_owned_route (some row) = row.scanner_managed && row.synced_to_saifren

contains-schedule_prune :
    (k pid : String) (now : ℕ) (seen known : List String) (m : List (String × ModelRow))
    → Distinct (keys m)
    → contains k (candidate_ids (schedule_prune pid now seen known m))
      ≡ (is_owned_route (get k m) && not (contains k seen) && not (contains k known))
unfolding schedule_prune candidate_ids contains keys get is_owned_route
contains-schedule_prune k pid now seen known [] h = refl
contains-schedule_prune k pid now seen known ((id, row) ∷ rest) h =
    elim (Bool-cases (
      row.scanner_managed
      && not (contains id seen)
      && row.synced_to_saifren
      && not (contains id known))) [
        | inl e ↦ rw e (
            ground (
              arith,
              contains-schedule_prune k pid now seen (id ∷ known) rest h.1,
              eq_iff id k,
              get-absent k rest,
              ap (λ i. contains i seen),
              ap (λ i. contains i known),
              ap (λ i. contains i (keys rest)),
            ))
        | inr e ↦ rw e (
            ground (
              arith,
              contains-schedule_prune k pid now seen known rest h.1,
              eq_iff id k,
              get-absent k rest,
              ap (λ i. contains i seen),
              ap (λ i. contains i known),
              ap (λ i. contains i (keys rest)),
            ))
      ]

keys-append :
    (k : String) (xs ys : List (String × ModelRow))
    → contains k (keys (xs ++ ys)) ≡ (contains k (keys xs) || contains k (keys ys))
unfolding keys contains
keys-append k [] ys = refl
keys-append k ((id, row) ∷ xs) ys = ground (arith, keys-append k xs ys)

contains-some :
    (k : String) (row : ModelRow) (m : List (String × ModelRow))
    → get k m ≡ some row
    → contains k (keys m) ≡ true
unfolding get keys contains
contains-some k row [] e = cc
contains-some k row ((id, r) ∷ rest) e = ground (arith, contains-some k row rest)

or-flip : (a b : Bool) → (a || (b || false)) ≡ (b || a)
or-flip a b = ground arith

contains-add_first :
    (k : String) (row : ModelRow) (m : List (String × ModelRow))
    → contains k (keys (add_first (get row.canonical_id m) row m))
      ≡ (str_eq row.canonical_id k || contains k (keys m))
unfolding add_first keys contains
contains-add_first k row m = elim (Option-cases (get row.canonical_id m)) [
  | inl e ↦ rw e (
      keys-append k m ((row.canonical_id, row) ∷ [])
      ∙ or-flip (contains k (keys m)) (str_eq row.canonical_id k))
  | inr (old, e) ↦
      rw e (ground (arith, contains-some row.canonical_id old m e, eq_iff row.canonical_id k))
]

contains-incoming :
    (k : String) (manual : List String) (rows : List ModelRow) (held : List (String × ModelRow))
    → contains k (keys (incoming_by_id manual rows held)) ≡ (
        contains k (keys held)
        || contains k (ids_of rows) && not (str_eq k "") && not (contains k manual))
unfolding incoming_by_id ids_of contains
contains-incoming k manual [] held = ground arith
contains-incoming k manual (row ∷ rows) held =
    elim (Bool-cases (str_eq row.canonical_id "" || contains row.canonical_id manual)) [
      | inl e ↦ rw e (
          ground (
            arith,
            contains-incoming k manual rows held,
            eq_iff row.canonical_id k,
            ap (λ i. contains i manual),
            ap (λ i. str_eq i ""),
          ))
      | inr e ↦ rw e (
          ground (
            arith,
            contains-incoming k manual rows (add_first (get row.canonical_id held) row held),
            contains-add_first k row held,
            eq_iff row.canonical_id k,
            ap (λ i. contains i manual),
            ap (λ i. str_eq i ""),
          ))
    ]

-- Of the ids that are neither empty nor of an operator's own row, a successful authoritative scan
-- makes exactly those candidates for removal that the scanner had put in the FREE tail, that are
-- no candidates yet, and that the result no longer lists. So a route that is still listed never
-- becomes one, whatever its evidence is now, and a partial result makes none.
pub new_candidates_iff :
    (k : String) (now : ℕ) (authoritative : Bool) (models : List ModelRow) (p : Provider)
    (old : List Candidate)
    → k ≢ ""
    → contains k (ids_of (manual_rows p.models)) ≡ false
    → contains k (candidate_ids (new_candidates now authoritative models p old)) ≡ (
        authoritative
        && is_owned_route (get k (by_id p.models))
        && not (contains k (ids_of models))
        && not (contains k (candidate_ids old)))
unfolding new_candidates incoming_of candidate_ids contains keys
new_candidates_iff k now false models p old n m = refl
new_candidates_iff k now true models p old n m = ground (
  arith,
  contains-schedule_prune k p.provider_id now (keys (incoming_of models p)) (candidate_ids old)
      (by_id p.models) (by_id-Distinct p.models),
  contains-incoming k (ids_of (manual_rows p.models)) models [],
  eq_iff k "",
)
