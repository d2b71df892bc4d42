-- ===== src/Lib.antt =====
-- 9router_WatchEdit, a control plane beside a local 9Router engine: it discovers the engine's
-- models, probes their health and edits the combos that the engine routes by. It never routes
-- itself; every change goes through the engine's API and is read back.
--
-- The parts and their files:
-- - Refresh: 9router_WatchEdit/core/refresh_controller.py, `RefreshController`, with the window's
--   generation counter. Each method runs under the controller's lock and is one function on the
--   state. Refresh/Flow has the threads of 9router_WatchEdit/ui/main_window.py around it
--   (`refresh_all_async`, `refresh_all`, `_finalize_pass`, `_background_discovery_task`,
--   `_on_discovery_finished`, `_on_discovery_failed`) as a step relation over any number of
--   threads: between two calls of the controller any other thread may step. Refresh/Ownership has
--   the invariant of the passes, Refresh/Publication that of the accepted inventories.
-- - Combo: 9router_WatchEdit/core/combo_manager.py, `StableCombo`. A method returns the new combo
--   and its result. Python's sets are lists that are read by membership alone; its list operations
--   are in Combo/Sequence with their laws in Combo/Order. Combo/Compare has the three comparisons
--   with an engine read, the descriptions as values without their wording. Combo/Diff has the diff
--   of two sequences and the two edits that read the health cache, Combo/Edits the edits as values.
--   Combo/Activation, Combo/Difference, Combo/Healthy, Combo/Moves, Combo/Moves/Invariant,
--   Combo/Removal and Combo/Server hold the theorems.
-- - Health: 9router_WatchEdit/core/classification.py. Health/Classify is the ladder of rules of
--   `classify_probe_result`. A probe is a record of what the function reads off the texts: the
--   results of its regular expressions and shape tests, at the texts it applies them to, and the
--   numbers and words it extracts. Health/Streaks is about the counters over a history of probes,
--   Health/Verdicts about successes and their cost. Health/Summary is `classify_provider_state`, the
--   health of a provider, and Health/Summary/Usable is about it.
-- - Storage: the JSON values and files of 9router_WatchEdit/core, with the quarantine beside a file and
--   what the operating system may refuse.
-- - Activation: 9router_WatchEdit/core/activation.py, `ComboActivation`, `reconcile` and
--   `ActivationStore`, the reported lines as values without their wording. Activation/Members has the
--   other methods of a record, Activation/Record its JSON form, Activation/Store the store on a
--   disk. Activation/Session is how 9router_WatchEdit/ui/combo_editor_view.py shows and stores a
--   combo with it (`_hydrate_activation`, `_sync_activation_record`). Edits, Reconcile, Invariant,
--   Counting, Loading, Keyed, KeptKeyed, Durable, Reopening and Overwriting hold the theorems.
-- - Presets: `PresetManager` of 9router_WatchEdit/core/combo_manager.py on a disk; Presets/Saving,
--   Presets/Sessions and Presets/Loading are about its failed saves, its sessions and its loads.
-- - FreeTail: 9router_WatchEdit/core/free_evidence.py, the evidence ladder of a model's metadata and
--   the rule for the FREE tail; prices are integers in a smallest unit. FreeTail/Plan is
--   `plan_tail_sync` of 9router_WatchEdit/core/free_saifren_sync.py with what
--   9router_WatchEdit/core/free_provider_registry.py records of a finished sync: the eligible ids are an
--   argument, the registry is its ledger for one combo. FreeTail/Staging has the
--   registry's staged intent and the flow of the window around it as steps. FreeTail/Planning,
--   FreeTail/Sync, FreeTail/Replanning, FreeTail/Idempotence and FreeTail/Recovery hold the theorems.
-- - Providers: 9router_WatchEdit/core/free_provider_registry.py, `FreeProviderRegistry`, its file and the
--   wrapper `_registry_mutation`. Settings has the operator's choices, Scans the results of scans,
--   Sync the ledger and the staged sync of all combos, Schedule when a provider is scanned and
--   what may join the tail. Mutations has the wrapped methods as values; Rollback, Atomicity and
--   Undoing are about what a failed one leaves. Sync/Refinement, Sync/Simulation and
--   Sync/Recovering relate the staged sync to that of FreeTail/Staging.
-- - Failover: 9router_WatchEdit/core/combo_failover.py, `failover_report` on the health cache's records and
--   its summary; Failover/Chain and Failover/Verdicts are about the report.
-- - Probe: 9router_WatchEdit/core/probe.py. Probe/Scheduler is the scheduling loop of
--   `ScannerWorker._run_async` with its delay heap: Invariant, Launches, Visits and Rounds are about
--   one pass of it, Scan has the scan as steps of the event loop, Kept and Complete are about it. Probe/Sessions is
--   `ScanSessionController` with the execution contexts, Calls its calls in any order and the
--   worker's methods with what other threads call in between; Numbers, Ownership, Contexts and
--   Isolation hold the theorems.
--   Probe/Terminal is the end of a session and its checkpoints.
-- - HealthCache: 9router_WatchEdit/core/history.py, `HealthCache` and `ModelHealthRecord`.
--   HealthCache/Policy is `prune_stale_records`, with Deletion, Retention and Pruning about it;
--   Recording is about `record_evidence` and `set_cost_override`. HealthCache/Saving has the savers as
--   steps that share the memory lock, the save lock and the file; Growth, Locking and Durability are
--   about them. The scan hands the classified evidence of Health to `record_evidence`.
--
-- The window feeds the discovered models to the combos, and the scan feeds its probes to the
-- classification; the combos are modelled as one client edits them, since the window's thread is
-- the only one that does.
--
-- Recursion is on lists, but for the scheduling loop, whose fuel is one more than the number of its
-- slots, which `rounds_end` proves to be enough. Numbers are unbounded, as Python's are; list
-- indices are natural numbers, since no caller passes a negative one. Latencies and times are
-- natural numbers where a rule reads them. The texts of reasons, notes and messages are left out,
-- and so are the search patterns themselves. Not modelled: HTTP, SQLite, the bytes of files,
-- threads' scheduling beyond the interleaving, the secret store, the Qt widgets and the
-- repository's tools.

pub mod Prelude
pub mod Probe
pub mod Failover
pub mod Providers
pub mod Storage
pub mod Presets
pub mod Refresh
pub mod Combo
pub mod Health
pub mod Activation
pub mod FreeTail
pub mod HealthCache
