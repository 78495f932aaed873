-- ===== src/Sampler/BpfMap.antt =====
-- The eBPF map `page_counts`, of type BPF_MAP_TYPE_PERCPU_HASH: the kernel implements it, so its
-- operations and what is documented of them are parameters.
use os_research_codebase.Prelude.{
  ℕ, ◌+◌, ◌%◌, ◌^◌, ◌≡◌, Bool, true, false, if◌then◌else◌, ◌==◌, List, [], ◌∷◌, Option, none, some,
}

-- `next_key` is `bpf_map_get_next_key`, of NULL or of a key; `lookup` gives the values of all the
-- CPUs; `add_one` is the atomic increment of a CPU's value; `create` is `bpf_map_update_elem` with
-- BPF_NOEXIST and the value 1 on a CPU, which changes nothing if the map is full.
pub record BpfMap (M : Type 0) : Type 0 where
  pub next_key : M → Option ℕ → Option ℕ
  pub lookup : M → ℕ → Option (List ℕ)
  pub delete : M → ℕ → M
  pub add_one : M → ℕ → ℕ → M
  pub create : M → ℕ → ℕ → M

-- The key behind `k` in a list of keys.
abbrev pub key_after : ℕ → List ℕ → Option ℕ
key_after k [] = none
key_after k (j ∷ []) = none
key_after k (j ∷ i ∷ keys) = if k == j then some i else key_after k (i ∷ keys)

abbrev pub first_key : List ℕ → Option ℕ
first_key [] = none
first_key (k ∷ keys) = some k

abbrev pub is_among : ℕ → List ℕ → Bool
is_among k [] = false
is_among k (j ∷ js) = if k == j then true else is_among k js

-- `keys` is the order in which an iteration visits the map `m`. Of a key that the map does not hold
-- nothing is said: the kernel gives the first key then.
pub record Visits {M : Type 0} (b : BpfMap M) (m : M) (keys : List ℕ) : Type 0 where
  pub first : b.next_key m none ≡ first_key keys
  pub next : (k : ℕ) → is_among k keys ≡ true → b.next_key m (some k) ≡ key_after k keys

-- A deletion removes its key and no other.
pub record Deletes {M : Type 0} (b : BpfMap M) : Type 0 where
  pub lookup-delete :
      (m : M) (k j : ℕ) → b.lookup (b.delete m j) k ≡ (if k == j then none else b.lookup m k)

-- `total += per_cpu_values[i]` for each CPU, on a `uint64_t`.
abbrev pub add_values : ℕ → List ℕ → ℕ
add_values total [] = total
add_values total (v ∷ vs) = add_values ((total + v) % 2 ^ 64) vs

abbrev pub total_of : List ℕ → ℕ
total_of = add_values 0
