-- ===== src/Health/Verdicts.antt =====
-- When a probe is a success, and what its cost rests on.
use router_extra.Prelude.{
  ℕ, String, ◌≡◌, ◌≢◌, ◌↔◌, ◌⊎◌, refl, sym, ap, ◌∙◌, inl, inr, Option-cases, Bool, true, false,
  ◌&&◌, ◌||◌, none, some, arith, str_eq,
}
use router_extra.Health.Streaks.{or_else-holds}
use router_extra.Health.{live, paid, Counters, zero_counters, Evidence}
use router_extra.Health.Classify.{
  Probe, word_free, word_paid, timeout_rule, transport_rule, success_rule, live_verdict,
  unverified_verdict, account_rule, status_rule, or_else, resolve_status, classify_from,
  is_verified_live, live_cost, is_provider_or_model_known_free, is_provider_known_paid,
}

-- What has to hold for a probe to count as a success.
pub record Succeeds (p : Probe) : Type 0 where
  pub in_time : p.is_timeout ≡ false
  pub not_408 : p.status_code ≢ 408
  pub payload : p.is_html ≡ false
  pub resolved :
      (p.dns_words && (str_eq p.error_code "network_error" || str_eq p.error_code "")) ≡ false
  pub status_ok : resolve_status p ≡ 200
  pub verified : is_verified_live p ≡ true

account-ne-live :
    (p : Probe) (s : ℕ) (c : Counters) (r : Evidence)
    → account_rule p s c ≡ some r
    → r.availability ≢ live
unfolding account_rule
account-ne-live p s c r h = ground arith

status-ne-live :
    (hc : ℕ → String) (p : Probe) (s : ℕ) (c : Counters)
    → (status_rule hc p s c).availability ≢ live
unfolding status_rule
status-ne-live hc p s c = ground arith

later-ne-live :
    (hc : ℕ → String) (p : Probe) (s : ℕ) (c : Counters)
    → (or_else (account_rule p s c) (status_rule hc p s c)).availability ≢ live
later-ne-live hc p s c =
    or_else-holds (λ r. r.availability ≢ live) (account_rule p s c) (status_rule hc p s c)
      (account-ne-live p s c) (status-ne-live hc p s c)

timeout_none :
    (p : Probe) (c : Counters)
    → (timeout_rule p c ≡ none) ↔ ((p.is_timeout ≡ false) × (p.status_code ≢ 408))
unfolding timeout_rule
timeout_none p c = ground arith

timeout-ne-live :
    (p : Probe) (c : Counters) (r : Evidence) → timeout_rule p c ≡ some r → r.availability ≢ live
unfolding timeout_rule
timeout-ne-live p c r h = ground arith

abbrev unresolved : Probe → Bool
unresolved p = p.dns_words && (str_eq p.error_code "network_error" || str_eq p.error_code "")

transport_none :
    (p : Probe) (s : ℕ) (c : Counters)
    → (transport_rule p s c ≡ none) ↔ ((p.is_html ≡ false) × (unresolved p ≡ false))
unfolding transport_rule
transport_none p s c = ground arith

transport-ne-live :
    (p : Probe) (s : ℕ) (c : Counters) (r : Evidence)
    → transport_rule p s c ≡ some r
    → r.availability ≢ live
unfolding transport_rule
transport-ne-live p s c r h = ground arith

success_rule_live :
    (p : Probe) (s : ℕ) (c : Counters)
    → s ≡ 200
    → is_verified_live p ≡ true
    → success_rule p s c ≡ some (live_verdict p)
unfolding success_rule
success_rule_live p s c e v = rw (e, v) refl

success_only :
    (p : Probe) (s : ℕ) (c : Counters) (r : Evidence)
    → success_rule p s c ≡ some r
    → r.availability ≡ live
    → (s ≡ 200) × (is_verified_live p ≡ true) × (r ≡ live_verdict p)
unfolding success_rule unverified_verdict
success_only p s c r h l = ground arith

-- A live verdict is the success's, and the conditions for it hold.
live_only :
    (hc : ℕ → String) (p : Probe) (c : Counters)
    → (classify_from hc p c).availability ≡ live
    → Succeeds p × (classify_from hc p c ≡ live_verdict p)
unfolding classify_from or_else
live_only hc p c h = elim (Option-cases (timeout_rule p c)) [
  | inr (r, e) ↦ absurd (timeout-ne-live p c r e (rw e at h))
  | inl e ↦ elim (Option-cases (transport_rule p (resolve_status p) c)) [
    | inr (r, f) ↦ absurd (transport-ne-live p (resolve_status p) c r f (rw (e, f) at h))
    | inl f ↦ elim (Option-cases (success_rule p (resolve_status p) c)) [
      | inl g ↦ absurd (later-ne-live hc p (resolve_status p) c (rw (e, f, g) at h))
      | inr (r, g) ↦
          let (ok, verified, same) = success_only p (resolve_status p) c r g (rw (e, f, g) at h) in
          let (timely, not_408) = (timeout_none p c).0 e in
          let (payload, known) = (transport_none p (resolve_status p) c).0 f in
          (
            record {
              in_time = timely;
              not_408 = not_408;
              payload = payload;
              resolved = known;
              status_ok = ok;
              verified = verified;
            },
            rw (e, f, g) same,
          )
    ]
  ]
]

-- A probe is classified as live exactly when it came in time, its answer is an API payload and no
-- name resolution failure, the code of the rejecting layer is 200 and the answer is a verified
-- inference with no error.
pub live_iff :
    (hc : ℕ → String) (p : Probe) (c : Counters)
    → ((classify_from hc p c).availability ≡ live) ↔ Succeeds p
unfolding classify_from or_else live_verdict
live_iff hc p c = (
  λ h. (live_only hc p c h).0,
  λ w.
      let e = (timeout_none p c).1 (w.in_time, w.not_408) in
      let f = (transport_none p (resolve_status p) c).1 (w.payload, w.resolved) in
      rw (e, f, success_rule_live p (resolve_status p) c w.status_ok w.verified) refl,
)

paid_needs :
    (p : Probe)
    → live_cost p ≡ paid
    → (p.cost_override ≡ some word_paid)
      ⊎ ((p.cost_override ≢ some word_free) × (p.cost_hint ≡ some word_paid))
      ⊎ ((p.cost_override ≢ some word_free)
          × (p.cost_hint ≢ some word_free)
          × (is_provider_or_model_known_free p.provider_prefix p.model_id ≡ false)
          × (is_provider_known_paid p.provider_prefix ≡ true))
unfolding live_cost
paid_needs p h = ground arith

-- A success clears every counter, and its cost is paid only by the operator's override, by the
-- catalogue's hint where the override does not say free, or for a provider that is known to be
-- paid where neither says free and neither provider nor model is known to be free.
pub live_cost_lem :
    (hc : ℕ → String) (p : Probe) (c : Counters)
    → let r = classify_from hc p c in
      r.availability ≡ live
      → (r.counters ≡ zero_counters)
        × (r.cost ≡ paid
            → (p.cost_override ≡ some word_paid)
              ⊎ ((p.cost_override ≢ some word_free) × (p.cost_hint ≡ some word_paid))
              ⊎ ((p.cost_override ≢ some word_free)
                  × (p.cost_hint ≢ some word_free)
                  × (is_provider_or_model_known_free p.provider_prefix p.model_id ≡ false)
                  × (is_provider_known_paid p.provider_prefix ≡ true)))
unfolding live_verdict
live_cost_lem hc p c h =
    let e = (live_only hc p c h).1 in
    (
      ap (λ (r : Evidence). r.counters) e,
      λ q. paid_needs p (sym (ap (λ (r : Evidence). r.cost) e) ∙ q),
    )
