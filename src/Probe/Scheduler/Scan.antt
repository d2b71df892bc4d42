-- ===== src/Probe/Scheduler/Scan.antt =====
-- A scan of 9router_WatchEdit/core/probe.py as steps of its event loop: `_run_async` between the checks for
-- cancellation, with no task that raises. A task leaves `active_tasks` when it ends, since the loop
-- removes all that are done before it schedules again.
use router_extra.Prelude.{ℕ, suc, ◌+◌, String, ◌≡◌, true, false, some, List, [], ◌∷◌, put, Pick}
use router_extra.Probe.Scheduler.{
  DiscoveredModel, Task, Plan, start, resume_delayed, schedule, end_task,
}

pub record Scan : Type 0 where
  pub plan : Plan
  pub backoffs : List (String × ℕ)
  pub now : ℕ
  pub probed : List DiscoveredModel

unfoldable pub begin_scan : List DiscoveredModel → ℕ → Scan
unfolding start
begin_scan models now = record { plan = start models; backoffs = []; now = now; probed = [] }

-- `rounds`: the loop resumes and schedules. `answers`: a probe ends with evidence. `defers`: its
-- connection went into backoff while it waited for its slot. `backs_off`: a 429 sets a deadline.
pub data ScanStep (global per : ℕ) : Scan → Scan → Type 0 where
  rounds :
      (s : Scan) (q : Plan)
      → schedule (suc global) s.now s.backoffs global per (resume_delayed s.now s.plan) ≡ some q
      → ScanStep global per s (record s { plan = q })
  answers :
      (s : Scan) (t : Task) (rest : List Task)
      → Pick t s.plan.tasks rest
      → ScanStep global per s (record s {
        plan = end_task false s.now s.backoffs t rest s.plan;
        probed = t.model ∷ s.probed;
      })
  defers :
      (s : Scan) (t : Task) (rest : List Task)
      → Pick t s.plan.tasks rest
      → ScanStep global per s (record s { plan = end_task true s.now s.backoffs t rest s.plan })
  backs_off :
      (s : Scan) (c : String) (until : ℕ)
      → ScanStep global per s (record s { backoffs = put c until s.backoffs })
  passes : (s : Scan) (seconds : ℕ) → ScanStep global per s (record s { now = s.now + seconds })

pub data ScanRun (global per : ℕ) (s : Scan) : Scan → Type 0 where
  still : ScanRun global per s s
  more : {t u : Scan} → ScanRun global per s t → ScanStep global per t u → ScanRun global per s u
