-- ===== src/Probe/Examples.antt =====
-- A scan of two models of two connections, and sessions of the scanner, with the theorems there.
use router_extra.Prelude.{
  ℕ, ◌≤◌, String, ◌≡◌, ◌≢◌, ◌↔◌, refl, Bool, false, Option, none, some, List, [], ◌∷◌, arith,
  length, sum_of, here, get, put, contains, keys, delete_all, keep,
}
use router_extra.Combo.Sequence.{remove_first}
use router_extra.Probe.Scheduler.{
  DiscoveredModel, Task, Plan, start, schedule, resume_delayed, resume_from, has_room, next_sweep,
  sweep, visit, settled, visit_conn, at_index, wrapped, pop_queue, put_rest, launch,
  provider_resume_at, or_default, queue_all, enqueue, next_visit, end_task,
}
use router_extra.Probe.Scheduler.Invariant.{tasks_of, held}
use router_extra.Probe.Scheduler.Scan.{Scan, begin_scan, ScanRun, still, more, rounds, answers}
use router_extra.Probe.Scheduler.Complete.{limits_kept, rounds_end, scan_complete}
use router_extra.Probe.Sessions.{
  boot, release_session, try_claim, is_latest_session, new_execution, create_execution,
  register_execution, register_over, nth, accept_cancel, accept_over, names_other, execution_for,
  entry, without_entry, release_handle, update, release_execution,
}
use router_extra.Probe.Sessions.Calls.{
  Call, claims, creates, registers, releases, call, run_calls, cancel,
}
use router_extra.Probe.Sessions.Ownership.{active_is_latest, released_once}
use router_extra.Probe.Sessions.Isolation.{cancel_isolated}
use router_extra.Probe.Terminal.{
  checkpoints, checkpoint_interval, checkpoint_bound, execute_session, RunEnd, returns, completed,
  completed_iff,
}

abbrev probed_model : String → DiscoveredModel
probed_model c = record {
  canonical_id = c;
  connection = c;
  provider_prefix = c;
  model_id = c;
  is_combo_member = false;
}

abbrev two_models : List DiscoveredModel
two_models = probed_model "a" ∷ probed_model "b" ∷ []

abbrev task_for : String → Task
task_for c = record { conn = c; model = probed_model c }

abbrev idle_plan : List (String × ℕ) → Plan
idle_plan in_flight = record {
  conn_queues = [];
  active_conns = [];
  conn_rr_idx = 0;
  delayed = [];
  delay_seq = 0;
  in_flight = in_flight;
  tasks = [];
}

-- `a` runs and `b` waits for the one slot.
abbrev first_plan : Plan
first_plan = record (idle_plan (("a", 1) ∷ [])) {
  conn_queues = ("b", probed_model "b" ∷ []) ∷ [];
  active_conns = "b" ∷ [];
  tasks = task_for "a" ∷ [];
}

abbrev second_plan : Plan
second_plan = record (idle_plan (("a", 0) ∷ ("b", 1) ∷ [])) { tasks = task_for "b" ∷ [] }

abbrev scan_at : Plan → List DiscoveredModel → Scan
scan_at p probed = record { plan = p; backoffs = []; now = 5; probed = probed }

abbrev after_first : Scan
after_first =
    scan_at (record first_plan { in_flight = ("a", 0) ∷ []; tasks = [] }) (probed_model "a" ∷ [])

abbrev after_both : Scan
after_both =
    scan_at (idle_plan (("a", 0) ∷ ("b", 0) ∷ [])) (probed_model "b" ∷ probed_model "a" ∷ [])

first_round : ScanRun 1 1 (begin_scan two_models 5) (scan_at first_plan [])
unfolding begin_scan start queue_all enqueue get put keys or_default contains schedule
    resume_delayed resume_from has_room next_sweep sweep visit settled visit_conn at_index wrapped
    pop_queue put_rest launch provider_resume_at next_visit delete_all keep remove_first
first_round = more still (rounds (begin_scan two_models 5) first_plan refl)

first_answer : ScanRun 1 1 (begin_scan two_models 5) after_first
unfolding end_task or_default get put
first_answer = more first_round (answers (scan_at first_plan []) (task_for "a") [] here)

second_round : ScanRun 1 1 (begin_scan two_models 5) (scan_at second_plan (probed_model "a" ∷ []))
unfolding begin_scan start queue_all enqueue get put keys or_default contains schedule
    resume_delayed resume_from has_room next_sweep sweep visit settled visit_conn at_index wrapped
    pop_queue put_rest launch provider_resume_at next_visit delete_all keep remove_first
second_round = more first_answer (rounds after_first second_plan refl)

whole_scan : ScanRun 1 1 (begin_scan two_models 5) after_both
unfolding end_task or_default get put
whole_scan =
    more second_round (answers (scan_at second_plan (probed_model "a" ∷ [])) (task_for "b") [] here)

limits_kept_example :
    (length (task_for "b" ∷ []) ≤ 1) × ((k : String) → tasks_of k (task_for "b" ∷ []) ≤ 1)
limits_kept_example = limits_kept 1 1 5 two_models second_round

rounds_end_example :
    (q : Plan) × (schedule 2 5 [] 1 1 (resume_delayed 5 after_first.plan) ≡ some q)
    × ((f : DiscoveredModel → ℕ) → held f q ≡ held f after_first.plan)
rounds_end_example = rounds_end 1 1 5 two_models first_answer

scan_complete_example : sum_of (λ (m : DiscoveredModel). 1) after_both.probed ≡ 2
unfolding schedule has_room resume_delayed resume_from
scan_complete_example =
    scan_complete 1 1 5 two_models (idle_plan (("a", 0) ∷ ("b", 0) ∷ [])) (omega arith)
      (omega arith) whole_scan refl refl refl (λ m. 1)

-- The first session is claimed and its context registered.
abbrev one_session : List Call
one_session = claims ∷ creates 1 ∷ registers 0 ∷ []

active_is_latest_example : is_latest_session (some 2) (run_calls one_session boot) ≡ false
unfolding run_calls call boot try_claim create_execution new_execution register_execution
    register_over nth
active_is_latest_example = active_is_latest one_session 1 2 refl

released_once_example :
    let t =
      run_calls (claims ∷ releases 1 ∷ []) (release_session 1 (run_calls one_session boot)).0 in
    ((release_session 1 t).1 ≡ false) × ((try_claim t).1 ≢ some 1)
unfolding run_calls call boot try_claim create_execution new_execution register_execution
    register_over nth release_session
released_once_example = released_once one_session (claims ∷ releases 1 ∷ []) 1 refl

-- Session 1 ends and session 2 starts before the cancel of session 1 acts.
abbrev handover : List Call
handover = releases 1 ∷ claims ∷ creates 2 ∷ registers 1 ∷ []

cancel_isolated_example :
    nth 1 (cancel (some 1) handover (run_calls one_session boot)).0.contexts
    ≡ some (new_execution 2)
unfolding run_calls call boot try_claim create_execution new_execution register_execution
    register_over nth release_session accept_cancel accept_over names_other execution_for entry
    without_entry release_handle update release_execution cancel keep
cancel_isolated_example =
    cancel_isolated one_session handover (some 1) 1 1 (new_execution 2) refl refl refl
      (λ e. absurd (omega arith))

checkpoint_bound_example : checkpoints (checkpoint_interval 1000) 1000 ≤ 20
checkpoint_bound_example = checkpoint_bound 1000 1000 (omega arith)

completed_iff_example :
    ((execute_session returns false false none (some "disk full")).0 ≡ completed) ↔ (
      ◌≡◌ {A = RunEnd} returns returns
      × ◌≡◌ {A = Bool} false false
      × ◌≡◌ {A = Option String} none none)
completed_iff_example = completed_iff returns false false none (some "disk full")
