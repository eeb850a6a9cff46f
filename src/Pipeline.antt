-- ===== src/Pipeline.antt =====
-- What the worker keeps of a capture: app/models/extraction_run.py, app/repositories/extraction_run.py
-- and the sweep of stranded items of app/queue/tasks.py.
pub mod Row
pub mod Runs
pub mod Sweep
pub mod Stranded
pub mod Sweeps
pub mod GivingUp
pub mod Rounds
pub mod Examples
