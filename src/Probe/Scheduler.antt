-- ===== src/Probe/Scheduler.antt =====
-- The scheduling loop of `ScannerWorker._run_async` in 9router_WatchEdit/core/probe.py. A connection's
-- key is its text in lower case, as the code looks it up. The delay heap is its list in the order
-- in which it pops: by resume time, then by sequence number. Times are whole seconds.
pub mod Invariant
pub mod Launches
pub mod Visits
pub mod Rounds
pub mod Scan
pub mod Kept
pub mod Complete
use Prim.Native.Nat.{◌%◌}
use router_extra.Combo.Sequence.{remove_first}
use router_extra.Prelude.{
  ℕ, zero, suc, ◌+◌, ◌-◌, String, Bool, true, false, not, ◌&&◌, ◌||◌, Option, none, some, List, [],
  ◌∷◌, ◌++◌, str_eq, ltb, leb, ◌==◌, max, if◌then◌else◌, length, contains, get, put, delete_all,
  keys,
}

pub record DiscoveredModel : Type 0 where
  pub canonical_id : String
  pub connection : String
  pub provider_prefix : String
  pub model_id : String
  pub is_combo_member : Bool

pub record Delayed : Type 0 where
  pub resume_at : ℕ
  pub seq : ℕ
  pub conn : String
  pub model : DiscoveredModel

-- A running `probe_worker_wrapper`.
pub record Task : Type 0 where
  pub conn : String
  pub model : DiscoveredModel

pub record Plan : Type 0 where
  pub conn_queues : List (String × List DiscoveredModel)
  pub active_conns : List String
  pub conn_rr_idx : ℕ
  pub delayed : List Delayed
  pub delay_seq : ℕ
  pub in_flight : List (String × ℕ)
  pub tasks : List Task

-- `dict.get(key, default)`
unfoldable pub or_default {ℓ} : {A : Type ℓ} → A → Option A → A
or_default a none = a
or_default a (some b) = b

-- `conn_queues.setdefault(key, deque()).append(m)`
unfoldable pub enqueue :
    String
    → DiscoveredModel
    → List (String × List DiscoveredModel)
    → List (String × List DiscoveredModel)
unfolding put get or_default
enqueue c m queues = put c (or_default [] (get c queues) ++ m ∷ []) queues

unfoldable pub queue_all :
    List DiscoveredModel
    → List (String × List DiscoveredModel)
    → List (String × List DiscoveredModel)
unfolding enqueue
queue_all [] queues = queues
queue_all (m ∷ ms) queues = queue_all ms (enqueue m.connection m queues)

-- The state before the loop.
unfoldable pub start : List DiscoveredModel → Plan
unfolding queue_all keys
start models = record {
  conn_queues = queue_all models [];
  active_conns = keys (queue_all models []);
  conn_rr_idx = 0;
  delayed = [];
  delay_seq = 0;
  in_flight = [];
  tasks = [];
}

unfoldable pub pops_before : Delayed → Delayed → Bool
pops_before d e = ltb d.resume_at e.resume_at || d.resume_at == e.resume_at && ltb d.seq e.seq

-- `heapq.heappush`
unfoldable pub heappush : Delayed → List Delayed → List Delayed
unfolding pops_before
heappush d [] = d ∷ []
heappush d (e ∷ heap) =
    let later = heappush d heap in if pops_before d e then d ∷ e ∷ heap else e ∷ later

unfoldable pub provider_resume_at : String → List (String × ℕ) → ℕ
unfolding or_default get
provider_resume_at c backoffs = or_default 0 (get c backoffs)

unfoldable pub park : ℕ → String → DiscoveredModel → Plan → Plan
unfolding heappush
park at c m p = record p {
  delayed = heappush (record { resume_at = at; seq = p.delay_seq; conn = c; model = m }) p.delayed;
  delay_seq = suc p.delay_seq;
}

unfoldable pub park_deferred : ℕ → List (String × ℕ) → String → DiscoveredModel → Plan → Plan
unfolding park provider_resume_at
park_deferred now backoffs c m p = park (max (provider_resume_at c backoffs) now) c m p

-- A model whose connection is ready becomes a task; any other is parked.
unfoldable pub launch : ℕ → List (String × ℕ) → ℕ → String → DiscoveredModel → Plan → Plan × Bool
unfolding provider_resume_at park put
launch now backoffs cur_inflight c m p =
    let at = provider_resume_at c backoffs in
    if leb at now
    then (
      record p {
        in_flight = put c (suc cur_inflight) p.in_flight;
        tasks = p.tasks ++ record { conn = c; model = m } ∷ [];
      },
      true,
    )
    else (park at c m p, false)

unfoldable pub add_conn : String → List String → List String
unfolding contains
add_conn c conns = if contains c conns then conns else conns ++ c ∷ []

-- `_resume_delayed`
unfoldable pub resume_from : ℕ → List Delayed → Plan → Plan
unfolding enqueue add_conn
resume_from now [] p = record p { delayed = [] }
resume_from now (d ∷ heap) p =
    let more = resume_from now heap (record p {
      conn_queues = enqueue d.conn d.model p.conn_queues;
      active_conns = add_conn d.conn p.active_conns;
    }) in
    if leb d.resume_at now then more else record p { delayed = d ∷ heap }

unfoldable pub resume_delayed : ℕ → Plan → Plan
unfolding resume_from
resume_delayed now p = resume_from now p.delayed p

-- `conns[i]`
unfoldable pub at_index : ℕ → List String → Option String
at_index i [] = none
at_index zero (c ∷ conns) = some c
at_index (suc i) (c ∷ conns) = at_index i conns

-- `i % n`, of the places of a list that is not empty.
unfoldable pub wrapped : ℕ → ℕ → ℕ
wrapped i zero = i
wrapped i (suc n) = i % suc n

-- What is left of a connection's queue.
unfoldable pub put_rest : String → List DiscoveredModel → Plan → Plan
unfolding delete_all remove_first wrapped put
put_rest c [] p = record p {
  conn_queues = delete_all (c ∷ []) p.conn_queues;
  active_conns = remove_first c p.active_conns;
  conn_rr_idx = wrapped p.conn_rr_idx (length (remove_first c p.active_conns));
}
put_rest c (m ∷ ms) p = record p { conn_queues = put c (m ∷ ms) p.conn_queues }

-- `popleft`; none where the code would raise.
unfoldable pub pop_queue :
    ℕ → List (String × ℕ) → ℕ → String → Option (List DiscoveredModel) → Plan → Option (Plan × Bool)
unfolding put_rest launch
pop_queue now backoffs cur_inflight c none p = none
pop_queue now backoffs cur_inflight c (some []) p = none
pop_queue now backoffs cur_inflight c (some (m ∷ ms)) p =
    some (launch now backoffs cur_inflight c m (put_rest c ms p))

unfoldable pub visit_conn : ℕ → List (String × ℕ) → ℕ → Option String → Plan → Option (Plan × Bool)
unfolding pop_queue get or_default wrapped
visit_conn now backoffs per none p = none
visit_conn now backoffs per (some c) p =
    let next = record p { conn_rr_idx = wrapped (suc p.conn_rr_idx) (length p.active_conns) } in
    let cur_inflight = or_default 0 (get c p.in_flight) in
    if ltb cur_inflight per
    then pop_queue now backoffs cur_inflight c (get c p.conn_queues) next
    else some (next, false)

-- The index at the start of a visit.
unfoldable pub settled : Plan → Plan
settled p = record p {
  conn_rr_idx = if leb (length p.active_conns) p.conn_rr_idx then 0 else p.conn_rr_idx;
}

-- One round of the `for`: whether a task was started.
unfoldable pub visit : ℕ → List (String × ℕ) → ℕ → Plan → Option (Plan × Bool)
unfolding settled visit_conn at_index
visit now backoffs per p =
    let q = settled p in visit_conn now backoffs per (at_index q.conn_rr_idx q.active_conns) q

unfoldable pub next_visit :
    (Plan → Option (Plan × Bool)) → Option (Plan × Bool) → Option (Plan × Bool)
next_visit more none = none
next_visit more (some (p, true)) = some (p, true)
next_visit more (some (p, false)) = more p

-- `for _ in range(num_conns)`, left by the first task.
unfoldable pub sweep : ℕ → List (String × ℕ) → ℕ → ℕ → Plan → Option (Plan × Bool)
unfolding visit next_visit
sweep now backoffs per zero p = some (p, false)
sweep now backoffs per (suc n) p = next_visit (sweep now backoffs per n) (visit now backoffs per p)

-- `len(active_tasks) < self.global_concurrency and active_conns`
unfoldable pub has_room : ℕ → Plan → Bool
has_room global p = ltb (length p.tasks) global && ltb 0 (length p.active_conns)

unfoldable pub next_sweep : (Plan → Option Plan) → Option (Plan × Bool) → Option Plan
next_sweep more none = none
next_sweep more (some (p, true)) = more p
next_sweep more (some (p, false)) = some p

-- The `while` over the free slots; none where the fuel runs out or the code would raise.
unfoldable pub schedule : ℕ → ℕ → List (String × ℕ) → ℕ → ℕ → Plan → Option Plan
unfolding has_room next_sweep sweep
schedule zero now backoffs global per p = none
schedule (suc fuel) now backoffs global per p =
    if has_room global p
    then next_sweep (schedule fuel now backoffs global per)
        (sweep now backoffs per (length p.active_conns) p)
    else some p

-- A task that ends: `deferred` where its connection went into backoff before it was sent.
unfoldable pub end_task : Bool → ℕ → List (String × ℕ) → Task → List Task → Plan → Plan
unfolding or_default get put park_deferred
end_task deferred now backoffs t rest p =
    let q = record p {
      in_flight = put t.conn (or_default 1 (get t.conn p.in_flight) - 1) p.in_flight;
      tasks = rest;
    } in
    if deferred then park_deferred now backoffs t.conn t.model q else q
