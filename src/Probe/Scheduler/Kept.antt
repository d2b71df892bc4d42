-- ===== src/Probe/Scheduler/Kept.antt =====
-- What every point of a scan of 9router_WatchEdit/core/probe.py keeps.
use router_extra.Prelude.{
  ℕ, suc, ◌+◌, ◌-◌, ◌≤◌, ◌<◌, String, ◌≡◌, refl, sym, ap, subst, true, false, some, List, [], ◌∷◌,
  arith, str_eq, eq_iff, eq_refl, max, if◌then◌else◌, length, get, put, keys, get-put, Distinct,
  Pick, here, there, sum_of, sum_of-Pick,
}
use router_extra.Probe.Scheduler.{
  DiscoveredModel, Delayed, Task, Plan, or_default, enqueue, queue_all, start, resume_delayed,
  schedule, end_task, park, park_deferred, provider_resume_at,
}
use router_extra.Probe.Scheduler.Invariant.{
  IsSound, held, queued, tasks_of, queued-enqueue, filled-enqueue, enqueue-Distinct,
  sum_of-heappush, resume_delayed-Resumed,
}
use router_extra.Probe.Scheduler.Launches.{Returns}
use router_extra.Probe.Scheduler.Rounds.{Scheduled, schedule_ends}
use router_extra.Probe.Scheduler.Scan.{
  Scan, begin_scan, ScanStep, rounds, answers, defers, backs_off, passes, ScanRun, still, more,
}

pub record IsKept (global per : ℕ) (models : List DiscoveredModel) (s : Scan) : Type 0 where
  pub sound : IsSound s.plan
  pub holds : (f : DiscoveredModel → ℕ) → held f s.plan + sum_of f s.probed ≡ sum_of f models
  pub limited : length s.plan.tasks ≤ global
  pub bounded : (k : String) → tasks_of k s.plan.tasks ≤ per

queue_all-IsSound :
    (ms : List DiscoveredModel) (queues : List (String × List DiscoveredModel))
    → Distinct (keys queues)
    → ((k : String) (q : List DiscoveredModel) → get k queues ≡ some q → 0 < length q)
    → Distinct (keys (queue_all ms queues))
      × ((k : String) (q : List DiscoveredModel)
          → get k (queue_all ms queues) ≡ some q
          → 0 < length q)
unfolding queue_all
queue_all-IsSound [] queues d h = (d, h)
queue_all-IsSound (m ∷ ms) queues d h =
    queue_all-IsSound ms (enqueue m.connection m queues) (enqueue-Distinct m.connection m queues d)
      (filled-enqueue m.connection m queues h)

queued-queue_all :
    (f : DiscoveredModel → ℕ) (ms : List DiscoveredModel)
    (queues : List (String × List DiscoveredModel))
    → queued f (queue_all ms queues) ≡ queued f queues + sum_of f ms
unfolding queue_all
queued-queue_all f [] queues = omega arith
queued-queue_all f (m ∷ ms) queues = omega (
  arith,
  queued-queue_all f ms (enqueue m.connection m queues),
  queued-enqueue m.connection m queues f,
)

begin-IsKept :
    (global per now : ℕ) (models : List DiscoveredModel)
    → IsKept global per models (begin_scan models now)
unfolding begin_scan start keys get or_default
begin-IsKept global per now models =
    let (d, h) = queue_all-IsSound models [] tt (λ k q e. absurd cc) in
    record {
      sound = record { same = refl; distinct = d; filled = h; flying = λ c. refl };
      holds = λ f. omega (arith, queued-queue_all f models []);
      limited = omega arith;
      bounded = λ k. omega arith;
    }

length-Pick : {t : Task} {ts rest : List Task} → Pick t ts rest → length ts ≡ suc (length rest)
length-Pick here = refl
length-Pick (there p) = ap suc (length-Pick p)

-- A task that ends.
ended-IsSound :
    (t : Task) (rest : List Task) (p : Plan)
    → Pick t p.tasks rest
    → IsSound p
    → IsSound (record p {
      in_flight = put t.conn (or_default 1 (get t.conn p.in_flight) - 1) p.in_flight;
      tasks = rest;
    })
unfolding or_default
ended-IsSound t rest p pick s = record {
  same = s.same;
  distinct = s.distinct;
  filled = s.filled;
  flying = λ k. ground (
    arith,
    s.flying k,
    s.flying t.conn,
    sum_of-Pick (λ (u : Task). if str_eq u.conn k then 1 else 0) pick,
    sum_of-Pick (λ (u : Task). if str_eq u.conn t.conn then 1 else 0) pick,
    get-put t.conn k (or_default 1 (get t.conn p.in_flight) - 1) p.in_flight,
    eq_iff t.conn k,
    eq_refl t.conn,
    ap (λ i. get i p.in_flight),
  );
}

module _ (global per : ℕ) (models : List DiscoveredModel) where
  pub round-Scheduled :
      (s : Scan)
      → IsKept global per models s
      → Returns
          (λ q. Scheduled global per (resume_delayed s.now s.plan) q)
          (schedule (suc global) s.now s.backoffs global per (resume_delayed s.now s.plan))
  round-Scheduled s h =
      schedule_ends (suc global) s.now s.backoffs global per (resume_delayed s.now s.plan)
        (resume_delayed-Resumed s.now s.plan h.sound).sound (omega arith)

  pub rounds-IsKept :
      (s : Scan) (q : Plan)
      → IsKept global per models s
      → schedule (suc global) s.now s.backoffs global per (resume_delayed s.now s.plan) ≡ some q
      → IsKept global per models (record s { plan = q })
  rounds-IsKept s q h e =
      let r = resume_delayed-Resumed s.now s.plan h.sound in
      let k =
        subst (Returns (λ q. Scheduled global per (resume_delayed s.now s.plan) q)) e
          (round-Scheduled s h) in
      record {
        sound = k.sound;
        holds = λ f. omega (arith, k.holds f, r.holds f, h.holds f);
        limited =
            k.limited (subst (λ (ts : List Task). length ts ≤ global) (sym r.tasks) h.limited);
        bounded = k.bounded (λ c. subst (λ ts. tasks_of c ts ≤ per) (sym r.tasks) (h.bounded c));
      }

  module _ (s : Scan) (t : Task) (rest : List Task) (pick : Pick t s.plan.tasks rest)
      (h : IsKept global per models s) where
    fewer : length rest ≤ global
    fewer = omega (arith, length-Pick pick, h.limited)

    fewer_of : (k : String) → tasks_of k rest ≤ per
    fewer_of k =
        omega
          (arith, sum_of-Pick (λ (u : Task). if str_eq u.conn k then 1 else 0) pick, h.bounded k)

    answers-IsKept : IsKept global per models (record s {
      plan = end_task false s.now s.backoffs t rest s.plan;
      probed = t.model ∷ s.probed;
    })
    unfolding end_task
    answers-IsKept = record {
      sound = ended-IsSound t rest s.plan pick h.sound;
      holds = λ f. omega (arith, h.holds f, sum_of-Pick (λ (u : Task). f u.model) pick);
      limited = fewer;
      bounded = fewer_of;
    }

    defers-IsKept :
        IsKept global per models (record s { plan = end_task true s.now s.backoffs t rest s.plan })
    unfolding end_task park_deferred park
    defers-IsKept =
        let at = max (provider_resume_at t.conn s.backoffs) s.now in
        let d : Delayed = record {
          resume_at = at;
          seq = s.plan.delay_seq;
          conn = t.conn;
          model = t.model;
        } in
        let k = ended-IsSound t rest s.plan pick h.sound in
        record {
          sound = record {
            same = k.same;
            distinct = k.distinct;
            filled = k.filled;
            flying = k.flying;
          };
          holds = λ f. omega (
            arith,
            h.holds f,
            sum_of-Pick (λ (u : Task). f u.model) pick,
            sum_of-heappush (λ e. f e.model) d s.plan.delayed,
          );
          limited = fewer;
          bounded = fewer_of;
        }

  step-IsKept :
      {s u : Scan}
      → ScanStep global per s u
      → IsKept global per models s
      → IsKept global per models u
  step-IsKept (rounds s q e) h = rounds-IsKept s q h e
  step-IsKept (answers s t rest pick) h = answers-IsKept s t rest pick h
  step-IsKept (defers s t rest pick) h = defers-IsKept s t rest pick h
  step-IsKept (backs_off s c until) h = record {
    sound = h.sound;
    holds = h.holds;
    limited = h.limited;
    bounded = h.bounded;
  }
  step-IsKept (passes s seconds) h = record {
    sound = h.sound;
    holds = h.holds;
    limited = h.limited;
    bounded = h.bounded;
  }

  pub run-IsKept :
      (now : ℕ) {s : Scan}
      → ScanRun global per (begin_scan models now) s
      → IsKept global per models s
  run-IsKept now still = begin-IsKept global per now models
  run-IsKept now (more r st) = step-IsKept st (run-IsKept now r)
