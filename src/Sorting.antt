-- ===== src/Sorting.antt =====
-- The contract of `std::sort`, which daemon/policy.cpp and daemon/ebpf_sampler.cpp call: for a
-- comparison that is a strict weak order on the elements the result is a sorted permutation.
-- Which of the permutations, where elements tie, is not determined, so a sorter is a parameter.
mod Contract
mod Insertion
mod Sorted
mod Addresses
pub use Contract.*
unfoldable pub use Insertion.{insertion_sorter}
pub use Sorted.*
pub use Addresses.*
