-- ===== src/Probe/Sessions/Calls.antt =====
-- The calls of 9router_WatchEdit/core/probe.py's sessions as values, each atomic under its lock, and the
-- methods of `ScannerWorker` with what other threads call between two of theirs.
use router_extra.Prelude.{
  ℕ, Bool, true, false, not, ◌||◌, Option, none, some, List, [], ◌∷◌, ◌==◌, holds_num,
  if◌then◌else◌,
}
use router_extra.Probe.Sessions.{
  SessionTask, Execution, Scanner, nth, cancel_execution, release_execution, try_claim,
  create_execution, register_execution, accept_cancel, bind_thread, release_session, request_cancel,
  is_cancel_requested, names_other, close, change_context,
}

-- `marks`: a cancel reaches a context. `drops`: a context's `release`.
pub data Call : Type 0 where
  claims closes : Call
  creates registers marks drops releases requests binds : ℕ → Call
  accepts : Option ℕ → Call
  loops : ℕ → (running : Bool) → Call
  works : ℕ → List SessionTask → Call

unfoldable pub bind_loop : Bool → Execution → Execution
bind_loop running x = record x { has_loop = running }

unfoldable pub bind_tasks : List SessionTask → Execution → Execution
bind_tasks ts x = record x { tasks = ts }

unfoldable pub call : Call → Scanner → Scanner
unfolding try_claim create_execution register_execution accept_cancel bind_thread release_session
    request_cancel close change_context cancel_execution release_execution bind_loop bind_tasks
call claims s = (try_claim s).0
call closes s = close s
call (creates id) s = (create_execution id s).0
call (registers h) s = (register_execution h s).0
call (marks h) s = change_context h cancel_execution s
call (drops h) s = change_context h release_execution s
call (releases id) s = (release_session id s).0
call (requests id) s = (request_cancel id s).0
call (binds t) s = (bind_thread t s).0
call (accepts request) s = (accept_cancel request s).0
call (loops h running) s = change_context h (bind_loop running) s
call (works h ts) s = change_context h (bind_tasks ts) s

unfoldable pub run_calls : List Call → Scanner → Scanner
unfolding call
run_calls [] s = s
run_calls (c ∷ cs) s = run_calls cs (call c s)

unfoldable pub cancel_found : Option ℕ → Scanner → Scanner
unfolding change_context cancel_execution
cancel_found none s = s
cancel_found (some h) s = change_context h cancel_execution s

-- `ScannerWorker.cancel`: the request is accepted, others go on, then the context is cancelled.
unfoldable pub cancel : Option ℕ → List Call → Scanner → Scanner × Bool
unfolding accept_cancel run_calls cancel_found
cancel request others s =
    let (t, accepted, found) = accept_cancel request s in
    if accepted then (cancel_found found (run_calls others t), true) else (t, false)

unfoldable pub give_back : ℕ → ℕ → Scanner × Bool → Scanner × Option ℕ
unfolding release_session
give_back id h (s, true) = (s, some h)
give_back id h (s, false) = ((release_session id s).0, none)

unfoldable pub claim_over : List Call → Scanner × Option ℕ → Scanner × Option ℕ
unfolding run_calls create_execution register_execution give_back
claim_over others (s, none) = (s, none)
claim_over others (s, some id) =
    let (t, h) = create_execution id (run_calls others s) in give_back id h (register_execution h t)

-- `claim_execution`, with what others call between the claim and the registration.
unfoldable pub claim_execution : List Call → Scanner → Scanner × Option ℕ
unfolding claim_over try_claim
claim_execution others s = claim_over others (try_claim s)

-- `self._execution is lease`
unfoldable pub forget_current : ℕ → Option ℕ → Option ℕ
forget_current h none = none
forget_current h (some current) = if current == h then none else some current

unfoldable pub end_over : ℕ → Option Execution → Scanner → Scanner × Bool
unfolding change_context release_execution forget_current release_session
end_over h none s = (s, false)
end_over h (some x) s =
    if x.released
    then (s, false)
    else release_session x.session_id (record (change_context h release_execution s) {
      last_terminated_cancelled = x.cancelled;
      current = forget_current h s.current;
    })

unfoldable pub end_execution : ℕ → Scanner → Scanner × Bool
unfolding end_over nth
end_execution h s = end_over h (nth h s.contexts) s

unfoldable pub is_session : ℕ → Option Execution → Bool
is_session id none = false
is_session id (some x) = x.session_id == id

unfoldable pub current_context : Scanner → Option ℕ → Option Execution
unfolding nth
current_context s none = none
current_context s (some h) = nth h s.contexts

unfoldable pub abandon_over : Option ℕ → Scanner → Scanner × Bool
unfolding is_session current_context release_session
abandon_over none s = (s, false)
abandon_over (some active) s = release_session active (record s {
  current = if is_session active (current_context s s.current) then none else s.current;
})

unfoldable pub abandon_active_execution : Scanner → Scanner × Bool
unfolding abandon_over
abandon_active_execution s = abandon_over s.active_session s

unfoldable pub start_state : Bool → Execution → Execution
start_state must_cancel x = if must_cancel then record x { cancelled = true } else x

-- `live`: `security.is_live_allowed()`.
unfoldable pub bind_over : Bool → Option ℕ → ℕ → Option Execution → Scanner → Scanner × Bool
unfolding change_context start_state is_cancel_requested names_other
bind_over live request h none s = (s, false)
bind_over live request h (some x) s =
    if names_other request x.session_id || not (holds_num s.active_session x.session_id)
    then (s, false)
    else (
      record (change_context h (start_state (not live || is_cancel_requested x.session_id s)) s) {
        current = some h;
      },
      true,
    )

unfoldable pub bind_claim : Bool → Option ℕ → ℕ → Scanner → Scanner × Bool
unfolding bind_over nth
bind_claim live request h s = bind_over live request h (nth h s.contexts) s

unfoldable pub claim_unless : Option ℕ → Scanner → Scanner × Option ℕ
unfolding try_claim
claim_unless none s = try_claim s
claim_unless (some id) s = (s, some id)

unfoldable pub begin_over : Bool → Scanner × Option ℕ → Scanner × Option ℕ
unfolding create_execution change_context start_state is_cancel_requested register_execution
begin_over live (s, none) = (s, none)
begin_over live (s, some id) =
    let (t, h) = create_execution id s in
    let (u, registered) =
      register_execution h
        (change_context h (start_state (not live || is_cancel_requested id t)) t) in
    if registered then (record u { current = some h }, some h) else (u, none)

-- `_begin_execution`
unfoldable pub begin_execution : Bool → Option ℕ → Scanner → Scanner × Option ℕ
unfolding begin_over claim_unless
begin_execution live id s = begin_over live (claim_unless id s)
