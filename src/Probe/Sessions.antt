-- ===== src/Probe/Sessions.antt =====
-- `ScanSessionExecution` and `ScanSessionController` of 9router_WatchEdit/core/probe.py, and the lifecycle
-- of a session in `ScannerWorker`. The execution contexts are objects that several parties hold:
-- `contexts` is the store of all that were made, a handle is a place in it. A loop is bound and
-- runs or is not bound; what is put on a running loop is done there.
pub mod Calls
pub mod Numbers
pub mod Ownership
pub mod Contexts
pub mod Isolation
use router_extra.Prelude.{
  ℕ, zero, suc, Bool, true, false, not, ◌&&◌, ◌||◌, Option, none, some, List, [], ◌∷◌, ◌++◌, ◌==◌,
  is_none, holds_num, if◌then◌else◌, length, keep,
}

pub record SessionTask : Type 0 where
  pub is_done : Bool
  pub cancelled : Bool

pub record Execution : Type 0 where
  pub session_id : ℕ
  pub cancelled : Bool
  pub has_loop : Bool
  pub tasks : List SessionTask
  pub released : Bool

pub record Scanner : Type 0 where
  pub session_counter : ℕ
  pub active_session : Option ℕ
  pub latest_session : Option ℕ
  pub cancel_requested : Bool
  pub worker_thread : Option ℕ
  pub closing : Bool
  pub executions : List (ℕ × ℕ)
  pub contexts : List Execution
  pub current : Option ℕ
  pub last_terminated_cancelled : Bool

unfoldable pub boot : Scanner
boot = record {
  session_counter = 0;
  active_session = none;
  latest_session = none;
  cancel_requested = false;
  worker_thread = none;
  closing = false;
  executions = [];
  contexts = [];
  current = none;
  last_terminated_cancelled = false;
}

-- `ScanSessionExecution(session_id)`
unfoldable pub new_execution : ℕ → Execution
new_execution id = record {
  session_id = id;
  cancelled = false;
  has_loop = false;
  tasks = [];
  released = false;
}

unfoldable pub cancel_each : List SessionTask → List SessionTask
cancel_each [] = []
cancel_each (t ∷ ts) = (if t.is_done then t else record t { cancelled = true }) ∷ cancel_each ts

-- `request_cancel` and `cancel_tasks`
unfoldable pub cancel_execution : Execution → Execution
unfolding cancel_each
cancel_execution x = record x {
  cancelled = true;
  tasks = if x.has_loop then cancel_each x.tasks else x.tasks;
}

unfoldable pub release_execution : Execution → Execution
release_execution x =
    if x.released then x else record x { released = true; has_loop = false; tasks = [] }

unfoldable pub nth : ℕ → List Execution → Option Execution
nth i [] = none
nth zero (x ∷ xs) = some x
nth (suc i) (x ∷ xs) = nth i xs

unfoldable pub update : ℕ → (Execution → Execution) → List Execution → List Execution
update i f [] = []
update zero f (x ∷ xs) = f x ∷ xs
update (suc i) f (x ∷ xs) = x ∷ update i f xs

unfoldable pub entry : ℕ → List (ℕ × ℕ) → Option ℕ
entry id [] = none
entry id ((held, h) ∷ rest) = let later = entry id rest in if held == id then some h else later

unfoldable pub without_entry : ℕ → List (ℕ × ℕ) → List (ℕ × ℕ)
unfolding keep
without_entry id = keep (λ (e : ℕ × ℕ). not (e.0 == id))

unfoldable pub try_claim : Scanner → Scanner × Option ℕ
try_claim s = if s.closing || not (is_none s.active_session) then (s, none) else (
  record s {
    session_counter = suc s.session_counter;
    active_session = some (suc s.session_counter);
    latest_session = some (suc s.session_counter);
    cancel_requested = false;
  },
  some (suc s.session_counter),
)

unfoldable pub create_execution : ℕ → Scanner → Scanner × ℕ
unfolding new_execution
create_execution id s =
    (record s { contexts = s.contexts ++ new_execution id ∷ [] }, length s.contexts)

unfoldable pub register_over : ℕ → Option Execution → Scanner → Scanner × Bool
unfolding without_entry
register_over h none s = (s, false)
register_over h (some x) s =
    if s.closing || not (holds_num s.active_session x.session_id) then (s, false) else (
      record s { executions = (x.session_id, h) ∷ without_entry x.session_id s.executions },
      true,
    )

unfoldable pub register_execution : ℕ → Scanner → Scanner × Bool
unfolding register_over nth
register_execution h s = register_over h (nth h s.contexts) s

unfoldable pub execution_for : ℕ → Scanner → Option ℕ
unfolding entry
execution_for id s = entry id s.executions

-- `session_id is not None and session_id != active`
unfoldable pub names_other : Option ℕ → ℕ → Bool
names_other none active = false
names_other (some id) active = not (id == active)

unfoldable pub accept_over : Option ℕ → Option ℕ → Scanner → Scanner × Bool × Option ℕ
unfolding names_other execution_for
accept_over none request s = (s, false, none)
accept_over (some active) request s =
    if names_other request active
    then (s, false, none)
    else (record s { cancel_requested = true }, true, execution_for active s)

unfoldable pub accept_cancel : Option ℕ → Scanner → Scanner × Bool × Option ℕ
unfolding accept_over
accept_cancel request s = accept_over s.active_session request s

unfoldable pub bind_thread : ℕ → Scanner → Scanner × Bool
bind_thread t s = if s.closing then (s, false) else (record s { worker_thread = some t }, true)

unfoldable pub release_handle : Option ℕ → List Execution → List Execution
unfolding update release_execution
release_handle none contexts = contexts
release_handle (some h) contexts = update h release_execution contexts

unfoldable pub release_session : ℕ → Scanner → Scanner × Bool
unfolding release_handle execution_for without_entry
release_session id s =
    if holds_num s.active_session id
    then (
      record s {
        active_session = none;
        cancel_requested = false;
        worker_thread = none;
        executions = without_entry id s.executions;
        contexts = release_handle (execution_for id s) s.contexts;
      },
      true,
    )
    else (s, false)

unfoldable pub request_cancel : ℕ → Scanner → Scanner × Bool
request_cancel id s =
    if holds_num s.active_session id
    then (record s { cancel_requested = true }, true)
    else (s, false)

unfoldable pub is_cancel_requested : ℕ → Scanner → Bool
is_cancel_requested id s = holds_num s.active_session id && s.cancel_requested

unfoldable pub close : Scanner → Scanner
close s = record s { closing = true }

unfoldable pub is_latest_session : Option ℕ → Scanner → Bool
is_latest_session none s = false
is_latest_session (some id) s = holds_num s.latest_session id

unfoldable pub change_context : ℕ → (Execution → Execution) → Scanner → Scanner
unfolding update
change_context h f s = record s { contexts = update h f s.contexts }
