-- ===== src/Health/Streaks.antt =====
-- What a probe does to the evidence counters, and what they count over a history of probes.
use router_extra.Prelude.{
  ℕ, suc, ◌≤◌, ◌<◌, String, ◌≡◌, ◌↔◌, ◌⊎◌, refl, ap, ◌∙◌, Bool, true, false, Option, none, some,
  List, [], ◌∷◌, arith, if◌then◌else◌,
}
use router_extra.Health.{
  Availability, auth_rejected, access_forbidden, rate_limited, connect_timeout, route_error,
  model_missing, model_gone, router_degraded, dns_failure, non_api_html_response, waf_blocked,
  browser_challenge, client_bound_free_tier, dead, Confidence, model_dead, provider_dead, Counters,
  zero_counters, Evidence,
}
use router_extra.Health.Classify.{
  Probe, timeout_rule, transport_rule, success_rule, live_verdict, unverified_verdict, account_rule,
  status_rule, or_else, resolve_status, classify_from,
}

-- What a verdict says of a streak: it goes on, it is left alone, or it is broken.
pub data Effect : Type 0 where
  counts keeps breaks : Effect

abbrev pub is_neutral : Availability → Bool
is_neutral waf_blocked = true
is_neutral browser_challenge = true
is_neutral non_api_html_response = true
is_neutral dns_failure = true
is_neutral client_bound_free_tier = true
is_neutral access_forbidden = true
is_neutral model_gone = true
is_neutral router_degraded = true
is_neutral a = false

abbrev pub is_missing : Availability → Confidence → Bool
is_missing model_missing conf = true
is_missing dead model_dead = true
is_missing a conf = false

abbrev pub is_route : Availability → Confidence → Bool
is_route route_error conf = true
is_route dead provider_dead = true
is_route a conf = false

abbrev pub is_timeout_state : Availability → Bool
is_timeout_state connect_timeout = true
is_timeout_state a = false

abbrev pub is_auth_state : Availability → Bool
is_auth_state auth_rejected = true
is_auth_state a = false

abbrev pub is_rate_state : Availability → Bool
is_rate_state rate_limited = true
is_rate_state a = false

-- One counter under a verdict that counts for it, is neutral, or belongs to another cause.
abbrev pub tally : Bool → Bool → ℕ → ℕ
tally counted neutral n = if counted then suc n else (if neutral then n else 0)

-- The counters that a verdict should leave.
abbrev pub attribute : Availability → Confidence → Counters → Counters
attribute a conf c = record {
  model_missing_streak = tally (is_missing a conf) (is_neutral a) c.model_missing_streak;
  timeout_streak = tally (is_timeout_state a) (is_neutral a) c.timeout_streak;
  route_error_streak = tally (is_route a conf) (is_neutral a) c.route_error_streak;
  auth_streak = tally (is_auth_state a) (is_neutral a) c.auth_streak;
  rate_limit_streak = tally (is_rate_state a) (is_neutral a) c.rate_limit_streak;
}

abbrev IsAttributed : Counters → Evidence → Type 0
IsAttributed c r = r.counters ≡ attribute r.availability r.confidence c

-- A dead verdict rests on its own counter, and a missing or route verdict is below the threshold.
abbrev IsEarned : Evidence → Type 0
IsEarned r =
    (r.availability ≡ dead
      → ((r.confidence ≡ model_dead) × (3 ≤ r.counters.model_missing_streak))
        ⊎ ((r.confidence ≡ provider_dead) × (5 ≤ r.counters.route_error_streak)))
    × (r.availability ≡ model_missing → r.counters.model_missing_streak < 3)
    × (r.availability ≡ route_error → r.counters.route_error_streak < 5)

abbrev IsSound : Counters → Evidence → Type 0
IsSound c r = IsAttributed c r × IsEarned r

timeout_rule-IsSound :
    (p : Probe) (c : Counters) (r : Evidence) → timeout_rule p c ≡ some r → IsSound c r
unfolding timeout_rule
timeout_rule-IsSound p c r h = ground arith

transport_rule-IsSound :
    (p : Probe) (s : ℕ) (c : Counters) (r : Evidence) → transport_rule p s c ≡ some r → IsSound c r
unfolding transport_rule
transport_rule-IsSound p s c r h = ground arith

success_rule-IsSound :
    (p : Probe) (s : ℕ) (c : Counters) (r : Evidence) → success_rule p s c ≡ some r → IsSound c r
unfolding success_rule live_verdict unverified_verdict
success_rule-IsSound p s c r h = ground arith

account_rule-IsSound :
    (p : Probe) (s : ℕ) (c : Counters) (r : Evidence) → account_rule p s c ≡ some r → IsSound c r
unfolding account_rule
account_rule-IsSound p s c r h = ground arith

status_rule-IsSound :
    (hc : ℕ → String) (p : Probe) (s : ℕ) (c : Counters) → IsSound c (status_rule hc p s c)
unfolding status_rule
status_rule-IsSound hc p s c = ground arith

-- Each verdict comes from one of the rules.
pub or_else-holds {ℓ} :
    (P : Evidence → Type ℓ) (o : Option Evidence) (r : Evidence)
    → ((e : Evidence) → o ≡ some e → P e)
    → P r
    → P (or_else o r)
unfolding or_else
or_else-holds P none r h k = k
or_else-holds P (some e) r h k = h e refl

module _ {ℓ} (P : Evidence → Type ℓ) (hc : ℕ → String) (p : Probe) (c : Counters) where
  -- A property of each rule's verdicts holds of the classification.
  pub classify-holds :
      ((r : Evidence) → timeout_rule p c ≡ some r → P r)
      → ((s : ℕ) (r : Evidence) → transport_rule p s c ≡ some r → P r)
      → ((s : ℕ) (r : Evidence) → success_rule p s c ≡ some r → P r)
      → ((s : ℕ) (r : Evidence) → account_rule p s c ≡ some r → P r)
      → ((s : ℕ) → P (status_rule hc p s c))
      → P (classify_from hc p c)
  unfolding classify_from
  classify-holds a b d e f =
      let s = resolve_status p in
      or_else-holds P (timeout_rule p c) _ a (
        or_else-holds P (transport_rule p s c) _ (b s) (
          or_else-holds P (success_rule p s c) _ (d s)
            (or_else-holds P (account_rule p s c) _ (e s) (f s))))

classify-IsSound : (hc : ℕ → String) (p : Probe) (c : Counters) → IsSound c (classify_from hc p c)
classify-IsSound hc p c =
    classify-holds (IsSound c) hc p c (timeout_rule-IsSound p c) (λ s. transport_rule-IsSound p s c)
      (λ s. success_rule-IsSound p s c) (λ s. account_rule-IsSound p s c)
      (λ s. status_rule-IsSound hc p s c)

-- Every classification leaves exactly the counters that its verdict stands for: the counter of
-- its own cause one up and the others at zero, all as they were for a verdict that is no evidence
-- against the model, and all at zero for any other verdict.
pub classify-counters :
    (hc : ℕ → String) (p : Probe) (c : Counters)
    → let r = classify_from hc p c in r.counters ≡ attribute r.availability r.confidence c
classify-counters hc p c = (classify-IsSound hc p c).0

-- The verdicts on a model, the newest first: each probe starts from the last counters.
abbrev pub last_counters : List Evidence → Counters
unfolding zero_counters
last_counters [] = zero_counters
last_counters (r ∷ rs) = r.counters

unfoldable pub history : (ℕ → String) → List Probe → List Evidence
history hc [] = []
history hc (p ∷ older) = let rs = history hc older in classify_from hc p (last_counters rs) ∷ rs

-- The verdicts of one cause since the last verdict that broke their row.
abbrev pub streak : (Availability → Confidence → Bool) → List Evidence → ℕ
streak counted [] = 0
streak counted (r ∷ rs) =
    tally (counted r.availability r.confidence) (is_neutral r.availability) (streak counted rs)

missing_streak :
    (hc : ℕ → String) (ps : List Probe)
    → (last_counters (history hc ps)).model_missing_streak ≡ streak is_missing (history hc ps)
unfolding history zero_counters
missing_streak hc [] = refl
missing_streak hc (p ∷ older) =
    let rs = history hc older in
    ap (λ (c : Counters). c.model_missing_streak) (classify-counters hc p (last_counters rs))
    ∙ ap
        (tally
          (is_missing (classify_from hc p (last_counters rs)).availability
            (classify_from hc p (last_counters rs)).confidence)
          (is_neutral (classify_from hc p (last_counters rs)).availability))
        (missing_streak hc older)

route_streak :
    (hc : ℕ → String) (ps : List Probe)
    → (last_counters (history hc ps)).route_error_streak ≡ streak is_route (history hc ps)
unfolding history zero_counters
route_streak hc [] = refl
route_streak hc (p ∷ older) =
    let rs = history hc older in
    ap (λ (c : Counters). c.route_error_streak) (classify-counters hc p (last_counters rs))
    ∙ ap
        (tally
          (is_route (classify_from hc p (last_counters rs)).availability
            (classify_from hc p (last_counters rs)).confidence)
          (is_neutral (classify_from hc p (last_counters rs)).availability))
        (route_streak hc older)

module _ (c : Counters) (r : Evidence) (sound : IsSound c r) where
  dead_reaches :
      r.availability ≡ dead
      → (3
          ≤ tally
              (is_missing r.availability r.confidence)
              (is_neutral r.availability)
              c.model_missing_streak)
        ⊎ (5
            ≤ tally
                (is_route r.availability r.confidence)
                (is_neutral r.availability)
                c.route_error_streak)
  dead_reaches d = ground arith

  missing_reaches :
      is_missing r.availability r.confidence ≡ true
      → ((r.availability ≡ dead) ↔ (
          3
          ≤ tally
              (is_missing r.availability r.confidence)
              (is_neutral r.availability)
              c.model_missing_streak))
  missing_reaches m = ground arith

module _ (hc : ℕ → String) (p : Probe) (older : List Probe) where
  -- After any probes of a fresh model, the newest verdict is dead only if it ends a row of at
  -- least three verdicts that the model is missing, or of at least five naked route errors, where
  -- only verdicts that are no evidence against the model may stand between them.
  pub dead_needs_streak :
      let rs = history hc (p ∷ older) in
      (classify_from hc p (last_counters (history hc older))).availability ≡ dead
      → (3 ≤ streak is_missing rs) ⊎ (5 ≤ streak is_route rs)
  unfolding history
  dead_needs_streak d =
      let c = last_counters (history hc older) in
      rw (← missing_streak hc older, ← route_streak hc older)
        (dead_reaches c (classify_from hc p c) (classify-IsSound hc p c) d)

  -- Whatever the probes of a fresh model were, a verdict that it is missing with fewer than
  -- three in a row is not dead: it is reported as missing.
  pub missing_below_threshold :
      let rs = history hc (p ∷ older) in
      let r = classify_from hc p (last_counters (history hc older)) in
      is_missing r.availability r.confidence ≡ true
      → ((r.availability ≡ dead) ↔ (3 ≤ streak is_missing rs))
  unfolding history
  missing_below_threshold m =
      let c = last_counters (history hc older) in
      rw (← missing_streak hc older)
        (missing_reaches c (classify_from hc p c) (classify-IsSound hc p c) m)
