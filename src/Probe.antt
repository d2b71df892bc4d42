-- ===== src/Probe.antt =====
-- 9router_WatchEdit/core/probe.py: the engine that probes the models' health.
pub mod Scheduler
pub mod Sessions
pub mod Terminal
mod Examples
