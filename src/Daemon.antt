-- ===== src/Daemon.antt =====
-- daemon/daemon.cpp: the settings, the epoch of the main loop, and its summary line.
pub mod Options
pub mod Epoch
pub mod Trace
pub mod Growth
pub mod Metrics
pub mod Counted
pub mod Main
