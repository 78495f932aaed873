-- ===== src/Workload.antt =====
-- workload/workload.cpp: the generator of memory accesses that the daemon watches, and the file by
-- which it tells the daemon of its state.
pub mod Info
pub mod Phases
pub mod Chase
pub mod Main
