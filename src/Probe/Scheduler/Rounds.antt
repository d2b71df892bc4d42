-- ===== src/Probe/Scheduler/Rounds.antt =====
-- The rounds of the scheduling loop of 9router_WatchEdit/core/probe.py over the free slots.
use router_extra.Prelude.{
  ℕ, zero, suc, ◌-◌, ◌≤◌, ◌<◌, String, ◌≡◌, refl, ap, ◌∙◌, Bool, true, false, Option, none, some,
  List, [], arith, length, Bool-cases, inl, inr,
}
use router_extra.Probe.Scheduler.{
  DiscoveredModel, Task, Plan, visit, next_visit, sweep, has_room, next_sweep, schedule,
}
use router_extra.Probe.Scheduler.Invariant.{IsSound, held, tasks_of}
use router_extra.Probe.Scheduler.Launches.{Returns, load}
use router_extra.Probe.Scheduler.Visits.{Visited, VisitedOne, visit-Visited}

-- A sweep over the connections.
record Swept (per n : ℕ) (p q : Plan) (b : Bool) : Type 0 where
  visited : Visited per p q b
  busies : 0 < n → p.tasks ≡ [] → 0 < per → 0 < load q

then_Visited :
    (per : ℕ) (p q r : Plan) (b : Bool)
    → Visited per p q false
    → Visited per q r b
    → Visited per p r b
then_Visited per p q r b h k = record {
  sound = k.sound;
  holds = λ f. k.holds f ∙ h.holds f;
  grows = omega (arith, h.grows, k.grows);
  started = omega (arith, h.started, k.started);
  bounded = λ l. k.bounded (h.bounded l);
}

after_one :
    (per n : ℕ) (p q r : Plan) (b : Bool)
    → VisitedOne per p q false
    → Swept per n q r b
    → Swept per (suc n) p r b
after_one per n p q r b h k = record {
  visited = then_Visited per p q r b h.visited k.visited;
  busies = λ w z l. omega (arith, h.busies z l, k.visited.grows);
}

after_more :
    (per n : ℕ) (p q : Plan) (o : Option (Plan × Bool))
    → VisitedOne per p q false
    → Returns (λ v. Swept per n q v.0 v.1) o
    → Returns (λ v. Swept per (suc n) p v.0 v.1) o
after_more per n p q none h k = k
after_more per n p q (some (r, b)) h k = after_one per n p q r b h k

next_visit-Swept :
    (per n : ℕ) (p : Plan) (more : Plan → Option (Plan × Bool)) (o : Option (Plan × Bool))
    → Returns (λ v. VisitedOne per p v.0 v.1) o
    → ((q : Plan) → VisitedOne per p q false → Returns (λ v. Swept per n q v.0 v.1) (more q))
    → Returns (λ v. Swept per (suc n) p v.0 v.1) (next_visit more o)
unfolding next_visit
next_visit-Swept per n p more none h k = h
next_visit-Swept per n p more (some (q, true)) h k = record {
  visited = h.visited;
  busies = λ w z l. h.busies z l;
}
next_visit-Swept per n p more (some (q, false)) h k = after_more per n p q (more q) h (k q h)

sweep-Swept :
    (now : ℕ) (backoffs : List (String × ℕ)) (per n : ℕ) (p : Plan)
    → IsSound p
    → n ≤ length p.active_conns
    → Returns (λ v. Swept per n p v.0 v.1) (sweep now backoffs per n p)
unfolding sweep
sweep-Swept now backoffs per zero p s h = record {
  visited = record {
    sound = s;
    holds = λ f. refl;
    grows = omega arith;
    started = omega arith;
    bounded = λ l. l;
  };
  busies = λ w z l. absurd (omega arith);
}
sweep-Swept now backoffs per (suc n) p s h =
    next_visit-Swept per n p (sweep now backoffs per n) (visit now backoffs per p)
      (visit-Visited now backoffs per p s (omega arith))
      (λ q v. sweep-Swept now backoffs per n q v.visited.sound (omega (arith, v.shrinks)))

-- What the whole `while` makes of a state: nothing raises, no model is lost, the limits are kept,
-- and nothing is left in a queue where afterwards nothing runs or waits.
pub record Scheduled (global per : ℕ) (p q : Plan) : Type 0 where
  pub sound : IsSound q
  pub holds : (f : DiscoveredModel → ℕ) → held f q ≡ held f p
  pub grows : load p ≤ load q
  pub limited : length p.tasks ≤ global → length q.tasks ≤ global
  pub bounded : ((k : String) → tasks_of k p.tasks ≤ per) → (k : String) → tasks_of k q.tasks ≤ per
  pub drained : p.tasks ≡ [] → 0 < per → 0 < global → load q ≡ 0 → length q.active_conns ≡ 0

full-Scheduled :
    (global per : ℕ) (p : Plan) → IsSound p → has_room global p ≡ false → Scheduled global per p p
unfolding has_room
full-Scheduled global per p s h = record {
  sound = s;
  holds = λ f. refl;
  grows = omega arith;
  limited = λ l. l;
  bounded = λ l. l;
  drained = λ z w g l. let none_runs = ap (λ (ts : List Task). length ts) z in ground arith;
}

module _ (global per n : ℕ) (p q : Plan) (room : has_room global p ≡ true) (some_conn : 0 < n) where
  last_round : Swept per n p q false → Scheduled global per p q
  last_round v = record {
    sound = v.visited.sound;
    holds = v.visited.holds;
    grows = v.visited.grows;
    limited = λ l. omega (arith, v.visited.started);
    bounded = v.visited.bounded;
    drained = λ z w g l. absurd (omega (arith, v.busies some_conn z w));
  }

  later_round :
      (r : Plan) → Swept per n p q true → Scheduled global per q r → Scheduled global per p r
  unfolding has_room
  later_round r v k = record {
    sound = k.sound;
    holds = λ f. k.holds f ∙ v.visited.holds f;
    grows = omega (arith, v.visited.grows, k.grows);
    limited = λ l. k.limited (ground (arith, v.visited.started));
    bounded = λ l. k.bounded (v.visited.bounded l);
    drained = λ z w g l. absurd (omega (arith, v.busies some_conn z w, k.grows));
  }

  later_rounds :
      (o : Option Plan)
      → Swept per n p q true
      → Returns (λ r. Scheduled global per q r) o
      → Returns (λ r. Scheduled global per p r) o
  later_rounds none v h = h
  later_rounds (some r) v h = later_round r v h

room_conns : (global : ℕ) (p : Plan) → has_room global p ≡ true → 0 < length p.active_conns
unfolding has_room
room_conns global p h = ground arith

room_slots : (global : ℕ) (p : Plan) → has_room global p ≡ true → length p.tasks < global
unfolding has_room
room_slots global p h = ground arith

next_sweep-Scheduled :
    (global per n : ℕ) (p : Plan) (more : Plan → Option Plan) (o : Option (Plan × Bool))
    → has_room global p ≡ true
    → 0 < n
    → Returns (λ v. Swept per n p v.0 v.1) o
    → ((q : Plan) → Swept per n p q true → Returns (λ r. Scheduled global per q r) (more q))
    → Returns (λ r. Scheduled global per p r) (next_sweep more o)
unfolding next_sweep
next_sweep-Scheduled global per n p more none room w h k = h
next_sweep-Scheduled global per n p more (some (q, true)) room w h k =
    later_rounds global per n p q room w (more q) h (k q h)
next_sweep-Scheduled global per n p more (some (q, false)) room w h k =
    last_round global per n p q room w h

-- From a sound state the loop over the free slots ends, in at most one round for each free slot and
-- one more, and raises nothing.
pub schedule_ends :
    (fuel now : ℕ) (backoffs : List (String × ℕ)) (global per : ℕ) (p : Plan)
    → IsSound p
    → global - length p.tasks < fuel
    → Returns (λ q. Scheduled global per p q) (schedule fuel now backoffs global per p)
unfolding schedule
schedule_ends zero now backoffs global per p s h = absurd (omega arith)
schedule_ends (suc fuel) now backoffs global per p s h = elim (Bool-cases (has_room global p)) [
  | inl e ↦ rw e (
      next_sweep-Scheduled global per (length p.active_conns) p
        (schedule fuel now backoffs global per) (sweep now backoffs per (length p.active_conns) p) e
        (room_conns global p e)
        (sweep-Swept now backoffs per (length p.active_conns) p s (omega arith))
        (λ q v.
          schedule_ends fuel now backoffs global per q v.visited.sound
            (omega (arith, v.visited.started, room_slots global p e))))
  | inr e ↦ rw e (full-Scheduled global per p s e)
]
