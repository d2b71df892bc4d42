-- ===== src/FreeTail/Staging.antt =====
-- The staged sync of 9router_WatchEdit/core/free_provider_registry.py, which keeps the combo of the
-- engine and the ledger of the registry together, and the flow of `_prepare_saifren_sync` and
-- `_apply_saifren_plan` in 9router_WatchEdit/ui/main_window.py around it. A registry whose save fails is
-- restored, so that it is what its file holds; the flow may stop after each of its steps.
use router_extra.Prelude.{
  String, ◌≡◌, ◌⊎◌, Bool, true, false, Option, none, some, List, [], ◌∷◌, if◌then◌else◌, list_eq,
}
use router_extra.FreeTail.Plan.{Ledger, apply_delta}

-- The staged intent: what the combo was and is to be, and the change of the ledger.
pub record Intent : Type 0 where
  pub old_models : List String
  pub new_models : List String
  pub appended : List String
  pub removed : List String

pub record Registry : Type 0 where
  pub ledger : Ledger
  pub pending_tail_sync : Option Intent

-- `saved` is the result of the registry's `save`.
unfoldable pub stage_over : Bool → Intent → Option Intent → Registry → Registry × Bool
stage_over saved i (some j) r = (r, false)
stage_over true i none r = (record r { pending_tail_sync = some i }, true)
stage_over false i none r = (r, false)

unfoldable pub stage_tail_sync_intent : Bool → Intent → Registry → Registry × Bool
unfolding stage_over
stage_tail_sync_intent saved i r = stage_over saved i r.pending_tail_sync r

unfoldable pub carry_out : Intent → Registry → Registry
unfolding apply_delta
carry_out i r = record {
  ledger = apply_delta i.appended i.removed r.ledger;
  pending_tail_sync = none;
}

unfoldable pub finalize_over : Bool → List String → Option Intent → Registry → Registry × Bool
unfolding list_eq carry_out
finalize_over saved actual none r = (r, false)
finalize_over saved actual (some i) r =
    if list_eq actual i.new_models
    then (if saved then (carry_out i r, true) else (r, false))
    else (r, false)

unfoldable pub finalize_tail_sync_intent : Bool → List String → Registry → Registry × Bool
unfolding finalize_over
finalize_tail_sync_intent saved actual r = finalize_over saved actual r.pending_tail_sync r

pub data Recovery : Type 0 where
  clean completed rolled_back save_failed recovery_required : Recovery

unfoldable pub reconcile_over : Bool → List String → Option Intent → Registry → Registry × Recovery
unfolding list_eq carry_out
reconcile_over saved actual none r = (r, clean)
reconcile_over saved actual (some i) r =
    if list_eq actual i.new_models
    then (if saved then (carry_out i r, completed) else (r, save_failed))
    else (if list_eq actual i.old_models
        then (if saved
            then (record r { pending_tail_sync = none }, rolled_back)
            else (r, save_failed))
        else (r, recovery_required))

unfoldable pub reconcile_pending_tail_sync : Bool → List String → Registry → Registry × Recovery
unfolding reconcile_over
reconcile_pending_tail_sync saved actual r = reconcile_over saved actual r.pending_tail_sync r

-- The engine's combo and the registry.
pub record World : Type 0 where
  pub engine : List String
  pub registry : Registry

-- Nothing else changes the combo. `stages`: a plan for the combo as it was read. `writes`: the
-- engine takes the staged sequence.
-- `commits`: the write was read back. `recovers`: the start of the next sync.
pub data SyncStep : World → World → Type 0 where
  stages :
      (saved : Bool) (i : Intent) (w : World)
      → i.old_models ≡ w.engine
      → SyncStep w (record w { registry = (stage_tail_sync_intent saved i w.registry).0 })
  writes :
      (i : Intent) (w : World)
      → w.registry.pending_tail_sync ≡ some i
      → SyncStep w (record w { engine = i.new_models })
  commits :
      (saved : Bool) (w : World)
      → SyncStep w (record w { registry = (finalize_tail_sync_intent saved w.engine w.registry).0 })
  recovers :
      (saved : Bool) (w : World)
      → SyncStep w
          (record w { registry = (reconcile_pending_tail_sync saved w.engine w.registry).0 })

pub data SyncRun (w : World) : World → Type 0 where
  rest : SyncRun w w
  step : {u v : World} → SyncRun w u → SyncStep u v → SyncRun w v

-- The syncs carried out, the newest first: each began where the one before it ended.
abbrev pub last_models : List Intent → List String → List String
last_models [] e = e
last_models (i ∷ is) e = i.new_models

abbrev pub replay : List Intent → Ledger → Ledger
replay [] l = l
replay (i ∷ is) l = apply_delta i.appended i.removed (replay is l)

abbrev pub Chained : List Intent → List String → Type 0
Chained [] e = Unit {0}
Chained (i ∷ is) e = (i.old_models ≡ last_models is e) × Chained is e

abbrev pub Staged : Option Intent → List String → List String → Type 0
Staged none settled engine = engine ≡ settled
Staged (some i) settled engine =
    (i.old_models ≡ settled) × ((engine ≡ i.old_models) ⊎ (engine ≡ i.new_models))

-- What holds at every point of a run from the world `start`.
pub record IsConsistent (start w : World) : Type 0 where
  pub carried : List Intent
  pub chained : Chained carried start.engine
  pub replayed : w.registry.ledger ≡ replay carried start.registry.ledger
  pub staged : Staged w.registry.pending_tail_sync (last_models carried start.engine) w.engine
