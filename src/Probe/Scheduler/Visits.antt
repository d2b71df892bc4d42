-- ===== src/Probe/Scheduler/Visits.antt =====
-- One round of the scheduling loop of 9router_WatchEdit/core/probe.py: it raises nothing and loses no model.
use router_extra.Prelude.{
  ℕ, zero, suc, ◌+◌, ◌≤◌, ◌<◌, String, ◌≡◌, refl, sym, ap, subst, ◌∙◌, Bool, true, false, Option,
  none, some, List, [], ◌∷◌, arith, eq_refl, ltb, leb, if◌then◌else◌, length, contains, get,
  get-present, Bool-cases, inl, inr,
}
use router_extra.Probe.Scheduler.{
  DiscoveredModel, Delayed, Task, Plan, or_default, launch, put_rest, pop_queue, visit_conn, visit,
  settled, at_index, wrapped,
}
use router_extra.Probe.Scheduler.Invariant.{IsSound, held, tasks_of, Popped, put_rest-Popped}
use router_extra.Probe.Scheduler.Launches.{Returns, load, one, launch-Launched}

-- What a visit, or several, makes of a state.
pub record Visited (per : ℕ) (p q : Plan) (b : Bool) : Type 0 where
  pub sound : IsSound q
  pub holds : (f : DiscoveredModel → ℕ) → held f q ≡ held f p
  pub grows : load p ≤ load q
  pub started : length q.tasks ≡ length p.tasks + one b
  pub bounded : ((k : String) → tasks_of k p.tasks ≤ per) → (k : String) → tasks_of k q.tasks ≤ per

-- One visit removes at most one connection, and makes a model a task or parks one where nothing runs.
pub record VisitedOne (per : ℕ) (p q : Plan) (b : Bool) : Type 0 where
  pub visited : Visited per p q b
  pub shrinks : length p.active_conns ≤ suc (length q.active_conns)
  pub busies : p.tasks ≡ [] → 0 < per → 0 < load q

moved-IsSound : (i : ℕ) (p : Plan) → IsSound p → IsSound (record p { conn_rr_idx = i })
moved-IsSound i p s = record {
  same = s.same;
  distinct = s.distinct;
  filled = s.filled;
  flying = s.flying;
}

skipped : (per i : ℕ) (p : Plan) → IsSound p → Visited per p (record p { conn_rr_idx = i }) false
skipped per i p s = record {
  sound = moved-IsSound i p s;
  holds = λ f. refl;
  grows = omega arith;
  started = omega arith;
  bounded = λ h. h;
}

-- A model popped and then started or parked.
launch-VisitedOne :
    (now : ℕ) (backoffs : List (String × ℕ)) (per : ℕ) (c : String) (m : DiscoveredModel)
    (p q : Plan) (cur : ℕ)
    → Popped m p q
    → cur ≡ tasks_of c q.tasks
    → cur < per
    → VisitedOne per p (launch now backoffs cur c m q).0 (launch now backoffs cur c m q).1
launch-VisitedOne now backoffs per c m p q cur h e l =
    let g = launch-Launched now backoffs per cur c m q h.sound e l in
    let same = ap (λ (ts : List Task). length ts) h.tasks in
    let waits = ap (λ (ds : List Delayed). length ds) h.delayed in
    record {
      visited = record {
        sound = g.sound;
        holds = λ f. omega (arith, g.holds f, h.holds f);
        grows = omega (arith, g.grows, same, waits);
        started = omega (arith, g.started, same);
        bounded = λ b. g.bounded (λ k. subst (λ ts. tasks_of k ts ≤ per) (sym h.tasks) (b k));
      };
      shrinks = omega (arith, h.shrinks, ap (λ (cs : List String). length cs) g.conns);
      busies = λ z w. omega (arith, g.grows);
    }

visit_conn-Visited :
    (now : ℕ) (backoffs : List (String × ℕ)) (per : ℕ) (c : String) (m : DiscoveredModel)
    (ms : List DiscoveredModel) (p : Plan)
    → IsSound p
    → get c p.conn_queues ≡ some (m ∷ ms)
    → Returns (λ v. VisitedOne per p v.0 v.1) (visit_conn now backoffs per (some c) p)
unfolding visit_conn pop_queue
visit_conn-Visited now backoffs per c m ms p s e =
    let next : Plan = record p {
      conn_rr_idx = wrapped (suc p.conn_rr_idx) (length p.active_conns);
    } in
    let cur = or_default 0 (get c p.in_flight) in
    let pops = put_rest-Popped c m ms next (moved-IsSound next.conn_rr_idx p s) e in
    elim (Bool-cases (ltb cur per)) [
      | inl t ↦ rw t (
          subst (λ o. Returns (λ v. VisitedOne per p v.0 v.1) (pop_queue now backoffs cur c o next))
            (sym e)
            (launch-VisitedOne now backoffs per c m p (put_rest c ms next) cur
              (record {
                sound = pops.sound;
                holds = pops.holds;
                tasks = pops.tasks;
                delayed = pops.delayed;
                shrinks = pops.shrinks;
              })
              (s.flying c ∙ ap (tasks_of c) (sym pops.tasks)) (ground arith)))
      | inr t ↦ rw t (record {
        visited = skipped per next.conn_rr_idx p s;
        shrinks = omega arith;
        busies = λ z w. absurd (ground (arith, s.flying c, ap (tasks_of c) z));
      })
    ]

at_index-present :
    (i : ℕ) (conns : List String)
    → i < length conns
    → (c : String) × (at_index i conns ≡ some c) × (contains c conns ≡ true)
unfolding at_index contains
at_index-present i [] h = absurd (omega arith)
at_index-present zero (c ∷ conns) h = (c, refl, ground (arith, eq_refl c))
at_index-present (suc i) (c ∷ conns) h =
    let (d, e, t) = at_index-present i conns (omega arith) in (d, e, ground arith)

-- The queue of a connection that is visited has a model.
visited_queue :
    (c : String) (p : Plan)
    → IsSound p
    → contains c p.active_conns ≡ true
    → (m : DiscoveredModel) × (ms : List DiscoveredModel) × (get c p.conn_queues ≡ some (m ∷ ms))
visited_queue c p s h =
    let (ms, e) = get-present c p.conn_queues (ap (contains c) (sym s.same) ∙ h) in
    first_of ms e (s.filled c ms e)
  where
    first_of :
        (ms : List DiscoveredModel)
        → get c p.conn_queues ≡ some ms
        → 0 < length ms
        → (m : DiscoveredModel) × (rest : List DiscoveredModel) × (get c p.conn_queues
            ≡ some (m ∷ rest))
    first_of [] e h = absurd (omega arith)
    first_of (m ∷ rest) e h = (m, rest, e)

settled-Returns :
    (per i : ℕ) (p : Plan) (o : Option (Plan × Bool))
    → Returns (λ v. VisitedOne per (record p { conn_rr_idx = i }) v.0 v.1) o
    → Returns (λ v. VisitedOne per p v.0 v.1) o
settled-Returns per i p none h = h
settled-Returns per i p (some v) h = record {
  visited = record {
    sound = h.visited.sound;
    holds = h.visited.holds;
    grows = h.visited.grows;
    started = h.visited.started;
    bounded = h.visited.bounded;
  };
  shrinks = h.shrinks;
  busies = h.busies;
}

-- A visit raises nothing where a connection is left.
pub visit-Visited :
    (now : ℕ) (backoffs : List (String × ℕ)) (per : ℕ) (p : Plan)
    → IsSound p
    → 0 < length p.active_conns
    → Returns (λ v. VisitedOne per p v.0 v.1) (visit now backoffs per p)
unfolding visit settled
visit-Visited now backoffs per p s h =
    let i = if leb (length p.active_conns) p.conn_rr_idx then 0 else p.conn_rr_idx in
    let q : Plan = record p { conn_rr_idx = i } in
    let (c, e, t) = at_index-present i p.active_conns (ground arith) in
    let (m, ms, f) = visited_queue c p s t in
    subst (λ o. Returns (λ v. VisitedOne per p v.0 v.1) (visit_conn now backoffs per o q)) (sym e)
      (settled-Returns per i p (visit_conn now backoffs per (some c) q)
        (visit_conn-Visited now backoffs per c m ms q (moved-IsSound i p s) f))
