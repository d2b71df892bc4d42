-- ===== src/Probe/Scheduler/Complete.antt =====
-- What a scan of 9router_WatchEdit/core/probe.py keeps to, and when it may end.
use router_extra.Prelude.{
  ℕ, suc, ◌≤◌, ◌<◌, String, ◌≡◌, refl, ap, subst, ◌∙◌, Option, none, some, List, [], ◌∷◌, arith,
  length, keys, sum_of,
}
use router_extra.Probe.Scheduler.{DiscoveredModel, Delayed, Task, Plan, resume_delayed, schedule}
use router_extra.Probe.Scheduler.Invariant.{held, queued, tasks_of, resume_delayed-Resumed}
use router_extra.Probe.Scheduler.Launches.{Returns, load}
use router_extra.Probe.Scheduler.Rounds.{Scheduled}
use router_extra.Probe.Scheduler.Scan.{Scan, begin_scan, ScanRun}
use router_extra.Probe.Scheduler.Kept.{round-Scheduled, rounds-IsKept, run-IsKept}

returned : {P : Plan → Type 0} (o : Option Plan) → Returns P o → (q : Plan) × (o ≡ some q) × P q
returned none h = elim h [ ]
returned (some q) h = (q, refl, h)

no_length : (ts : List Task) → length ts ≡ 0 → ts ≡ []
no_length [] e = refl
no_length (t ∷ ts) e = absurd (omega arith)

queued-empty :
    (f : DiscoveredModel → ℕ) (queues : List (String × List DiscoveredModel))
    → length (keys queues) ≡ 0
    → queued f queues ≡ 0
unfolding keys
queued-empty f [] e = refl
queued-empty f (q ∷ queues) e = absurd (omega arith)

-- At every point of a scan at most `global_concurrency` probes run, and of one connection at most
-- `per_provider_concurrency`, whatever the answers, the deadlines and the order in which tasks end.
pub limits_kept :
    (global per now : ℕ) (models : List DiscoveredModel) {s : Scan}
    → ScanRun global per (begin_scan models now) s
    → (length s.plan.tasks ≤ global) × ((k : String) → tasks_of k s.plan.tasks ≤ per)
limits_kept global per now models r =
    let h = run-IsKept global per models now r in (h.limited, h.bounded)

-- At every point of a scan the scheduling loop ends after at most one round for each slot and one
-- more: no index, key or empty queue makes it raise, and no model is lost by it.
pub rounds_end :
    (global per now : ℕ) (models : List DiscoveredModel) {s : Scan}
    → ScanRun global per (begin_scan models now) s
    → (q : Plan) × (schedule (suc global) s.now s.backoffs global per (resume_delayed s.now s.plan)
        ≡ some q)
      × ((f : DiscoveredModel → ℕ) → held f q ≡ held f s.plan)
rounds_end global per now models {s} r =
    let h = run-IsKept global per models now r in
    let (q, e, k) = returned _ (round-Scheduled global per models s h) in
    (q, e, λ f. k.holds f ∙ (resume_delayed-Resumed s.now s.plan h.sound).holds f)

-- Where the loop finds nothing running and nothing waiting after it has scheduled, which ends the
-- scan, every model of the scan has been probed, as often as it stands among them, provided that
-- both concurrency limits are positive.
pub scan_complete :
    (global per now : ℕ) (models : List DiscoveredModel) {s : Scan} (q : Plan)
    → 0 < global
    → 0 < per
    → ScanRun global per (begin_scan models now) s
    → schedule (suc global) s.now s.backoffs global per (resume_delayed s.now s.plan) ≡ some q
    → q.tasks ≡ []
    → q.delayed ≡ []
    → (f : DiscoveredModel → ℕ) → sum_of f s.probed ≡ sum_of f models
scan_complete global per now models {s} q g w r e no_tasks none_waits f =
    let h = run-IsKept global per models now r in
    let p = resume_delayed s.now s.plan in
    let k =
      subst (Returns (λ q. Scheduled global per p q)) e (round-Scheduled global per models s h) in
    let all = rounds-IsKept global per models s q h e in
    let quiet : load q ≡ 0 = omega (
      arith,
      ap (λ (ts : List Task). length ts) no_tasks,
      ap (λ (ds : List Delayed). length ds) none_waits,
    ) in
    let empty = k.drained (no_length p.tasks (omega (arith, k.grows))) w g quiet in
    let same = ap (λ (cs : List String). length cs) k.sound.same in
    omega (
      arith,
      all.holds f,
      queued-empty f q.conn_queues (omega (arith, empty, same)),
      ap (sum_of (λ (t : Task). f t.model)) no_tasks,
      ap (sum_of (λ (d : Delayed). f d.model)) none_waits,
    )
