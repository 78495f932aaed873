-- ===== src/Tests.antt =====
-- Concrete inputs, the code run on them, and the theorems applied to them.
mod Samples
mod Detector
mod Generator
mod Traces
mod Tracking
mod Policies
mod Sampling
mod Rounds
mod Mains
mod Order
mod Capacity
mod Flow
mod Arguments
mod Counted
mod Recorder
mod Whole
