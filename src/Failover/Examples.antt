-- ===== src/Failover/Examples.antt =====
-- A published combo with one model gone, one rate limited and one live, and the theorems there.
use router_extra.Prelude.{
  String, ◌≡◌, ◌↔◌, refl, true, none, some, List, [], ◌∷◌, contains, get, some_of, keep,
}
use router_extra.Health.{
  Availability, live, rate_limited, model_gone, free, live_confidence, zero_counters,
}
use router_extra.HealthCache.{HealthRecord, no_stamp, no_delta}
use router_extra.Failover.{
  failover_report, is_routable, is_failing, classify_health, expectation_of, availability_of,
  report_of, rows_from, row_at, ids_of_rows, is_untested, published, serves, fails_over,
  next_member, untested_members, summarize, chain_parts, part_of, filled, counted, first_where,
  follower, row_of, id_of, last_fails, row_routable, is_unroutable,
}
use router_extra.FreeTail.Plan.{first_of_each}
use router_extra.Storage.{sort_texts}
use router_extra.Failover.Chain.{serving_chain, failing_chain}
use router_extra.Failover.Verdicts.{untested_iff, IsUnsorted}

abbrev verdict : Availability → HealthRecord
verdict a = record {
  availability = a;
  cost = free;
  confidence = live_confidence;
  cost_override = none;
  latency_ms = 300;
  status_code = 200;
  last_tested_at = no_stamp;
  last_success_at = no_stamp;
  success_streak = 0;
  counters = zero_counters;
  previous_availability = none;
  delta = no_delta;
}

abbrev verdicts : List (String × HealthRecord)
verdicts =
    ("gone", verdict model_gone) ∷ ("slow", verdict rate_limited) ∷ ("good", verdict live) ∷ []

serving_chain_example :
    ((failover_report ("gone" ∷ "slow" ∷ "good" ∷ "new" ∷ []) verdicts [] "free").0.serving
      ≡ some "good")
    × ((failover_report
          ("gone" ∷ "slow" ∷ "good" ∷ "new" ∷ [])
          verdicts
          []
          "free").0.serving_fallback
        ≡ some "new")
unfolding some_of is_routable classify_health get
serving_chain_example =
    serving_chain verdicts ("gone" ∷ "slow" ∷ []) "good" ("new" ∷ []) [] "free" refl refl

failing_chain_example :
    ((failover_report ("gone" ∷ "slow" ∷ "good" ∷ []) verdicts [] "free").0.failover_from
      ≡ some "slow")
    × ((failover_report ("gone" ∷ "slow" ∷ "good" ∷ []) verdicts [] "free").0.failover_to
        ≡ some "good")
unfolding some_of is_failing classify_health get
failing_chain_example =
    failing_chain verdicts ("gone" ∷ []) "slow" ("good" ∷ []) [] "free" refl refl

untested_iff_example :
    (contains "gone" (failover_report ("gone" ∷ "good" ∷ []) verdicts [] "free").0.untested_ids
      ≡ true)
    ↔ ((contains "gone" ("gone" ∷ "good" ∷ []) ≡ true)
        × IsUnsorted (availability_of (get "gone" verdicts)))
untested_iff_example = untested_iff ("gone" ∷ "good" ∷ []) verdicts [] "free" "gone"

gone_test : (failover_report ("gone" ∷ "good" ∷ []) verdicts [] "free").0.untested_ids ≡ "gone" ∷ []
unfolding failover_report report_of rows_from row_at classify_health expectation_of availability_of
    get keep ids_of_rows is_untested
gone_test = refl

summary_test :
    (failover_report ("gone" ∷ "slow" ∷ "good" ∷ []) verdicts [] "free").1
    ≡ published 3 ∷ serves "good" ∷ fails_over "slow" ∷ next_member "good" ∷ untested_members 1 ∷ []
unfolding failover_report report_of summarize chain_parts rows_from row_at classify_health
    expectation_of availability_of get keep ids_of_rows is_untested is_failing is_routable part_of
    filled counted first_where follower row_of id_of last_fails row_routable is_unroutable
    first_of_each sort_texts
summary_test = refl
