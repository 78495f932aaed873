-- ===== src/Policy.antt =====
-- daemon/policy.h and daemon/policy.cpp: the placement policies.
pub mod Plan
pub mod Baseline
pub mod Scored
pub mod Random
pub mod Addresses
pub mod Capacity
pub mod Growth
pub mod Gathered
pub mod Tracked
pub mod Dispatch
pub mod Sorts
