-- ===== src/Scheduler.antt =====
-- keeper/src/scheduler.ts: the interval of a cron expression (`Scheduler.Cron`), the detection and the
-- catching up of missed runs (`Scheduler.Missed`, `Scheduler.Catchup`), and the execution of a schedule under its lock
-- (`Scheduler.Execute`). Times are milliseconds since the epoch.
pub mod Cron
pub mod Minutes
pub mod Missed
pub mod Catchup
pub mod Execute
mod Examples
