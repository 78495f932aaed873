-- ===== src/Sampler.antt =====
-- daemon/ebpf_sampler.h and daemon/ebpf_sampler.cpp, and the eBPF program daemon/bpf/mem_sampler.bpf.c.
pub mod Regions
pub mod BpfMap
pub mod Program
pub mod Flow
pub mod Epoch
pub mod Recording
pub mod Object
