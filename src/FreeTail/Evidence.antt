-- ===== src/FreeTail/Evidence.antt =====
-- What counts as free, and what may join the tail.
use router_extra.Prelude.{
  String, ◌≡◌, ◌≢◌, ◌↔◌, ◌⊎◌, Bool, true, false, Option, none, some, List, [], ◌∷◌, arith, inl, inr,
  Bool-cases,
}
use router_extra.FreeTail.{
  FreeEvidence, strict_free, client_bound_free, ProviderHealth, dead, auth_failed,
  RoutingCapability, unsupported, direct_routable, local_bridge_required, CostRisk,
  cost_risk_blocks_live_probe, Price, at_least, below, Row, is_price_key, or_max, pricing_values,
  ends_with, classify_free_evidence, tail_eligibility,
}

-- A price that charges nothing.
abbrev pub IsFreePrice : Price → Type 0
IsFreePrice (at_least n) = n ≡ 0
IsFreePrice (below n) = Unit {0}

-- Every price under one of the counted keys charges nothing.
abbrev pub NoCharge : List (String × Option Price) → Type 0
NoCharge [] = Unit {0}
NoCharge ((k, none) ∷ rest) = NoCharge rest
NoCharge ((k, some p) ∷ rest) = (is_price_key k ≡ true → IsFreePrice p) × NoCharge rest

abbrev AtMostFree : Option Price → Type 0
AtMostFree none = Unit {0}
AtMostFree (some p) = IsFreePrice p

or_max_free :
    (p : Price) (q : Option Price) → AtMostFree (or_max p q) → IsFreePrice p × AtMostFree q
unfolding or_max
or_max_free p none h = (h, tt)
or_max_free (at_least a) (some (at_least b)) h = ground arith
or_max_free (at_least a) (some (below b)) h = (h, tt)
or_max_free (below a) (some (at_least b)) h = (tt, h)
or_max_free (below a) (some (below b)) h = (tt, tt)

pricing_free : (ps : List (String × Option Price)) → AtMostFree (pricing_values ps) → NoCharge ps
unfolding pricing_values
pricing_free [] h = tt
pricing_free ((k, none) ∷ rest) h = pricing_free rest h
pricing_free ((k, some p) ∷ rest) h = elim (Bool-cases (is_price_key k)) [
  | inl e ↦
      let (a, b) = or_max_free p (pricing_values rest) (rw e at h) in (λ c. a, pricing_free rest b)
  | inr e ↦ (λ c. cc, pricing_free rest (rw e at h))
]

-- What a strictly free row shows: it is not withdrawn, nothing marks it as billed, no counted
-- price charges, no wording is promotional, and one explicit zero-cost mark is there.
pub record ShowsFree (r : Row) : Type 0 where
  pub listed : r.withdrawn ≡ false
  pub not_billed : (r.is_free ≢ some false) × (r.is_partner ≡ false) × (r.billed ≡ false)
  pub no_charge : NoCharge r.pricing
  pub no_promo : r.promo_words ≡ false
  pub explicit :
      (r.is_free ≡ some true)
      ⊎ (pricing_values r.pricing ≡ some (at_least 0))
      ⊎ (ends_with r.model_id ":free" ≡ true)
      ⊎ ((ends_with r.model_id "-free" ≡ true) × (r.client_bound ≡ false))

strict_price :
    (r : Row) → (classify_free_evidence r).0 ≡ strict_free → AtMostFree (pricing_values r.pricing)
unfolding classify_free_evidence
strict_price r h = ground arith

-- A row is classified as strictly free only on explicit zero-cost evidence that nothing in the
-- row contradicts.
pub strict_needs_evidence : (r : Row) → (classify_free_evidence r).0 ≡ strict_free → ShowsFree r
unfolding classify_free_evidence
strict_needs_evidence r h = record {
  listed = ground arith;
  not_billed = ground arith;
  no_charge = pricing_free r.pricing (strict_price r h);
  no_promo = ground arith;
  explicit = ground arith;
}

-- A route may join the FREE tail exactly when its provider is not positively down, a routing path
-- is there, and it is either strictly free at no monetary probe risk, or client-bound and
-- eligible for the bridge over a bridged or direct path.
pub tail_eligibility_iff :
    (e : FreeEvidence) (state : ProviderHealth) (routing : RoutingCapability) (risk : CostRisk)
    (bridge : Bool)
    → (tail_eligibility e state routing risk bridge ≡ none) ↔ (
        (state ≢ dead)
        × (state ≢ auth_failed)
        × (routing ≢ unsupported)
        × (((e ≡ strict_free) × (cost_risk_blocks_live_probe risk ≡ false))
            ⊎ ((e ≡ client_bound_free)
                × (bridge ≡ true)
                × ((routing ≡ local_bridge_required) ⊎ (routing ≡ direct_routable)))))
unfolding tail_eligibility cost_risk_blocks_live_probe
tail_eligibility_iff e state routing risk bridge = ground arith
