-- ===== src/Health/Classify.antt =====
-- `classify_probe_result` of 9router_WatchEdit/core/classification.py: the ladder of rules that
-- turns one probe response into evidence. A `Probe` holds what the function reads off the texts:
-- each Boolean is the result of the named regular expression or shape test of the source, at the
-- text that the source applies it to. Latency, reasons and notes are left out.
use text.Mathlib.Text.{find?}
use router_extra.Prelude.{
  ℕ, ◌+◌, String, Bool, true, false, not, ◌&&◌, ◌||◌, Option, none, some, List, [], ◌∷◌, str_eq,
  ◌==◌, leb, is_none, if◌then◌else◌, contains,
}
use router_extra.Health.{
  Availability, live, auth_rejected, access_forbidden, balance_required, rate_limited,
  connect_timeout, provider_error, route_error, model_missing, model_gone, router_degraded,
  dns_failure, non_api_html_response, waf_blocked, browser_challenge, client_bound_free_tier, dead,
  unknown, Cost, free, paid, unknown_cost, Confidence, live_confidence, likely_temporary,
  config_error, model_dead, provider_dead, Counters, zero_counters, Evidence,
}

-- What a cost text spells once it is upper-cased.
pub data CostWord : Type 0 where
  word_free word_paid word_other : CostWord

pub record Probe : Type 0 where
  pub status_code : ℕ
  pub is_timeout : Bool
  pub json_status : Option ℕ  -- the number under "status" of the JSON object
  pub http_in_message : Option ℕ  -- `HTTP ddd` in the error message
  pub bracket_in_message : Option ℕ  -- `[ddd]:` in the error message
  pub has_error_message : Bool
  pub error_code : String
  pub model_in_code : Bool  -- "model" in the lower-cased error code
  pub has_body : Bool  -- the redacted and stripped body is not empty
  pub is_object : Bool  -- the JSON is an object
  pub ok : Option Bool  -- "ok" of the JSON object, where it is a Boolean
  pub has_inference : Bool  -- `has_inference_evidence`
  pub is_html : Bool
  pub waf_marks : Bool  -- a WAF header or a WAF marker in the body
  pub challenge_marks : Bool
  pub dns_words : Bool
  pub balance_words : Bool
  pub client_bound_words : Bool
  pub auth_words : Bool
  pub rate_limit_words : Bool
  pub gone_words : Bool
  pub missing_words : Bool
  pub provider_prefix : String  -- lower-cased
  pub model_id : String  -- lower-cased
  pub cost_override : Option CostWord
  pub cost_hint : Option CostWord

abbrev pub failure_streak_for_dead : ℕ
failure_streak_for_dead = 3

abbrev known_free_providers : List String
known_free_providers =
    "antigravity" ∷ "ag" ∷ "gemini-cli" ∷ "free" ∷ "freetier" ∷ "moyuu" ∷ "bai" ∷ "oc" ∷ "ocg"
    ∷ "cl" ∷ []

abbrev known_paid_providers : List String
known_paid_providers =
    "openai" ∷ "anthropic" ∷ "cohere" ∷ "voyage" ∷ "deepseek-direct" ∷ "azure" ∷ "bedrock"
    ∷ "vertex" ∷ "groq-paid" ∷ "mistral-paid" ∷ []

unfoldable pub is_provider_or_model_known_free : String → String → Bool
unfolding contains
is_provider_or_model_known_free p m =
    if contains p known_free_providers
    then true
    else (if str_eq p "kira-ai"
        then false
        else not (is_none (find? m "free")) || not (is_none (find? m "trial")))

unfoldable pub is_provider_known_paid : String → Bool
unfolding contains
is_provider_known_paid p = contains p known_paid_providers

-- The counters that a classification starts from.
pub start_counters : Option Counters → Option ℕ → Counters
unfolding zero_counters
start_counters (some c) streak = c
start_counters none none = zero_counters
start_counters none (some n) = record {
  model_missing_streak = n;
  timeout_streak = n;
  route_error_streak = n;
  auth_streak = n;
  rate_limit_streak = n;
}

-- The code that the ladder classifies by: a nested status counts before the wrapper's.
json_resolved : Probe → ℕ
json_resolved p = elim p.json_status [
  | none ↦ p.status_code
  | some j ↦ if not (j == 0 || j == 200) && p.status_code == 200 then j else p.status_code
]

is_wrapper : ℕ → Bool
is_wrapper s = s == 200 || s == 500 || s == 502 || s == 503 || s == 504

message_resolved : Probe → ℕ → ℕ
unfolding is_wrapper
message_resolved p s =
    let outer : ℕ = elim p.http_in_message [ none ↦ s | some h ↦ h ] in
    elim p.bracket_in_message [
      | none ↦ outer
      | some c ↦ if not (c == outer) && is_wrapper outer then c else outer
    ]

unfoldable pub resolve_status : Probe → ℕ
unfolding json_resolved message_resolved
resolve_status p =
    let s = json_resolved p in if p.has_error_message then message_resolved p s else s

abbrev or_code : String → String → String
or_code code other = if str_eq code "" then other else code

abbrev or_status : ℕ → ℕ → ℕ
or_status s other = if s == 0 then other else s

verdict : Availability → Cost → Confidence → ℕ → String → Counters → Evidence
verdict a cost conf s code c = record {
  availability = a;
  cost = cost;
  confidence = conf;
  status_code = s;
  error_code = code;
  counters = c;
}

-- 1. Hard timeout.
unfoldable pub timeout_rule : Probe → Counters → Option Evidence
unfolding verdict zero_counters
timeout_rule p c =
    if p.is_timeout || p.status_code == 408
    then some (
        verdict connect_timeout unknown_cost likely_temporary (or_status p.status_code 408)
          "TIMEOUT" (record zero_counters { timeout_streak = c.timeout_streak + 1 }))
    else none

-- 2. Answers that are no API payload: a WAF page, other HTML, a failed name resolution.
unfoldable pub transport_rule : Probe → ℕ → Counters → Option Evidence
unfolding verdict
transport_rule p s c =
    if s == 403 && p.is_html && p.waf_marks
    then some (
        if p.challenge_marks
        then verdict browser_challenge unknown_cost likely_temporary s "BROWSER_CHALLENGE" c
        else verdict waf_blocked unknown_cost likely_temporary s "WAF_BLOCKED" c)
    else (if p.is_html
        then some (
            verdict non_api_html_response unknown_cost likely_temporary s "NON_API_HTML_RESPONSE" c)
        else (if p.dns_words && (str_eq p.error_code "network_error" || str_eq p.error_code "")
            then some (verdict dns_failure unknown_cost likely_temporary s "DNS_FAILURE" c)
            else none))

-- FREE and PAID are taken from a word, anything else leaves the cost open.
word_cost : Option CostWord → Cost
word_cost none = unknown_cost
word_cost (some word_free) = free
word_cost (some word_paid) = paid
word_cost (some word_other) = unknown_cost

or_cost : Cost → Cost → Cost
or_cost free other = free
or_cost paid other = paid
or_cost unknown_cost other = other

-- The override comes first, then the catalogue's hint, then what is known of the provider.
unfoldable pub live_cost : Probe → Cost
unfolding word_cost or_cost
live_cost p = or_cost (word_cost p.cost_override) (
    or_cost (word_cost p.cost_hint) (
      if is_provider_or_model_known_free p.provider_prefix p.model_id
      then free
      else (if is_provider_known_paid p.provider_prefix then paid else unknown_cost)))

pub says : Bool → Option Bool → Bool
says b none = false
says true (some a) = a
says false (some a) = not a

pub has_error_field : Probe → Bool
unfolding says
has_error_field p =
    not (says true p.ok)
    && (p.has_error_message
        || (not (str_eq p.error_code "")
            && not
                (str_eq p.error_code "200" || str_eq p.error_code "0" || str_eq p.error_code "ok")))

-- The strict contract of a success: `ok` is true or an inference was seen, with no error.
unfoldable pub is_verified_live : Probe → Bool
unfolding says has_error_field
is_verified_live p =
    (says true p.ok || p.has_inference) && not (has_error_field p) && not (says false p.ok)

unfoldable pub live_verdict : Probe → Evidence
unfolding verdict zero_counters
live_verdict p = verdict live (live_cost p) live_confidence 200 "OK" zero_counters

unfoldable pub unverified_verdict : Evidence
unfolding verdict zero_counters
unverified_verdict = verdict unknown unknown_cost likely_temporary 200 "TEST_FAILED" zero_counters

-- An empty body, `ok: false`, or an object with no inference and no error.
unfoldable pub is_unverified : Probe → Bool
unfolding says has_error_field
is_unverified p =
    not (has_error_field p) && not (says false p.ok) && not p.has_body
    || says false p.ok
    || (p.is_object && not p.has_inference && not (has_error_field p))

-- 3. HTTP 200.
unfoldable pub success_rule : Probe → ℕ → Counters → Option Evidence
success_rule p s c =
    if s == 200
    then (if is_verified_live p
        then some (live_verdict p)
        else (if is_unverified p then some unverified_verdict else none))
    else none

is_client_bound_free_tier : Probe → ℕ → Bool
is_client_bound_free_tier p s =
    p.client_bound_words
    && (s == 0 || s == 401 || s == 403 || s == 500 || s == 502 || s == 503 || s == 504)

-- 4. to 6. The account's balance, the client-bound tier, access, credentials and rate limits.
unfoldable pub account_rule : Probe → ℕ → Counters → Option Evidence
unfolding verdict zero_counters is_client_bound_free_tier
account_rule p s c =
    if s == 402 || p.balance_words
    then some (
        verdict balance_required paid config_error (or_status s 402)
          (or_code p.error_code "insufficient_balance") zero_counters)
    else (if is_client_bound_free_tier p s
        then some (
            verdict client_bound_free_tier free config_error (or_status s 403)
              (or_code p.error_code "CLIENT_BOUND_FREE_TIER") c)
        else (if s == 403
            then some (
                verdict access_forbidden unknown_cost config_error s
                  (or_code p.error_code "ACCESS_FORBIDDEN") c)
            else (if (s == 401 || p.auth_words) && not p.balance_words && not p.rate_limit_words
                then some (
                    verdict auth_rejected unknown_cost config_error s
                      (or_code p.error_code "unauthorized")
                      (record zero_counters { auth_streak = c.auth_streak + 1 }))
                else (if s == 429 || p.rate_limit_words
                    then some (
                        verdict rate_limited unknown_cost likely_temporary (or_status s 429)
                          (or_code p.error_code "rate_limit_exceeded")
                          (record zero_counters { rate_limit_streak = c.rate_limit_streak + 1 }))
                    else none))))

-- Semantic evidence that the model is missing: dead from the third in a row on.
missing_verdict : ℕ → String → Counters → Evidence
unfolding verdict zero_counters
missing_verdict s code c =
    let n = c.model_missing_streak + 1 in
    let is_dead = leb failure_streak_for_dead n in
    verdict (if is_dead then dead else model_missing) unknown_cost
      (if is_dead then model_dead else likely_temporary) s code
      (record zero_counters { model_missing_streak = n })

-- A naked 404: dead from the fifth in a row on.
route_verdict : String → Counters → Evidence
unfolding verdict zero_counters
route_verdict code c =
    let n = c.route_error_streak + 1 in
    let is_dead = leb (failure_streak_for_dead + 2) n in
    verdict (if is_dead then dead else route_error) unknown_cost
      (if is_dead then provider_dead else likely_temporary) 404 code
      (record zero_counters { route_error_streak = n })

gone_verdict : Probe → Counters → Evidence
unfolding verdict
gone_verdict p c =
    let is_gone = p.gone_words || p.model_in_code in
    verdict (if is_gone then model_gone else router_degraded) unknown_cost
      (if is_gone then config_error else likely_temporary) 410
      (or_code p.error_code (if is_gone then "MODEL_GONE" else "ROUTER_DEGRADED")) c

-- 7. to 9. HTTP 410, 404 and 5xx, and what is left. `http_code` is the text `HTTP_{status}`.
unfoldable pub status_rule : (ℕ → String) → Probe → ℕ → Counters → Evidence
unfolding verdict zero_counters missing_verdict route_verdict gone_verdict
status_rule http_code p s c =
    if s == 410
    then gone_verdict p c
    else (if s == 404
        then (if p.missing_words || p.model_in_code
            then missing_verdict 404 (or_code p.error_code "model_missing") c
            else route_verdict (or_code p.error_code "naked_404_route_error") c)
        else (if s == 500 || s == 502 || s == 503 || s == 504
            then (if p.missing_words
                then missing_verdict s "model_missing_wrapped" c
                else verdict provider_error unknown_cost likely_temporary s
                    (or_code p.error_code (http_code s)) zero_counters)
            else verdict unknown unknown_cost likely_temporary s
                (or_code p.error_code "unknown_response") zero_counters))

-- The first rule that answers decides.
unfoldable pub or_else : Option Evidence → Evidence → Evidence
or_else (some e) next = e
or_else none next = next

unfoldable pub classify_from : (ℕ → String) → Probe → Counters → Evidence
unfolding or_else
classify_from http_code p c =
    let s = resolve_status p in
    or_else (timeout_rule p c) (
      or_else (transport_rule p s c)
        (or_else (success_rule p s c) (or_else (account_rule p s c) (status_rule http_code p s c))))

unfoldable pub classify_probe_result : (ℕ → String) → Probe → Option Counters → Option ℕ → Evidence
unfolding start_counters classify_from timeout_rule transport_rule success_rule account_rule
    status_rule resolve_status is_verified_live is_unverified live_verdict unverified_verdict
    or_else live_cost
classify_probe_result http_code p previous streak =
    classify_from http_code p (start_counters previous streak)
