-- ===== src/Memtrace.antt =====
-- simulator/traces/memtrace.cpp: the Pin tool that runs a program's references through a hierarchy
-- of caches and traces the addresses that miss in all of them.
pub mod Misses
pub mod Geometry
use os_research_codebase.Prelude.{
  ℕ, Bool, true, false, ◌&&◌, leb, if◌then◌else◌, List, [], ◌∷◌, ◌++◌,
}

pub data AccessType : Type 0 where
  load store : AccessType

-- The caches of pin_cache.H: the cache after an access, and whether it hit.
pub record CacheOps (C : Type 0) : Type 0 where
  pub access : C → ℕ → ℕ → AccessType → C × Bool
  pub access_single_line : C → ℕ → AccessType → C × Bool

-- The tool's global variables: the caches, and the lines of the trace.
pub record Hierarchy (C : Type 0) : Type 0 where
  pub itlb : C
  pub dtlb : C
  pub il1 : C
  pub dl1 : C
  pub ul2 : C
  pub ul3 : C
  pub trace : List ℕ

-- An instruction as it is executed: what Pin's `INS_` functions say of it, the effective addresses,
-- and whether its predicate holds, without which the predicated calls are not made.
pub record Ins : Type 0 where
  pub inst_ptr : ℕ
  pub predicate : Bool
  pub is_memory_read : Bool
  pub is_memory_write : Bool
  pub is_standard_memop : Bool
  pub read_ea : ℕ
  pub read_size : ℕ
  pub write_ea : ℕ
  pub write_size : ℕ

module _ {C : Type 0} (ops : CacheOps C) where
  -- `Ul2Access`
  unfoldable pub ul2_access : ℕ → ℕ → AccessType → Hierarchy C → Hierarchy C
  ul2_access addr size kind s =
      let (ul2, ul2_hit) = ops.access s.ul2 addr size kind in
      let (ul3, ul3_hit) = ops.access s.ul3 addr size kind in
      if ul2_hit
      then record s { ul2 = ul2 }
      else if ul3_hit
      then record s { ul2 = ul2; ul3 = ul3 }
      else record s { ul2 = ul2; ul3 = ul3; trace = s.trace ++ addr ∷ [] }

  -- `InsRef`
  unfoldable pub ins_ref : ℕ → Hierarchy C → Hierarchy C
  unfolding ul2_access
  ins_ref addr s =
      let (il1, il1_hit) = ops.access_single_line s.il1 addr AccessType.load in
      let s' = record s {
        itlb = (ops.access_single_line s.itlb addr AccessType.load).0;
        il1 = il1;
      } in
      if il1_hit then s' else ul2_access addr 1 AccessType.load s'

  -- `MemRefMulti`
  unfoldable pub mem_ref_multi : ℕ → ℕ → AccessType → Hierarchy C → Hierarchy C
  unfolding ul2_access
  mem_ref_multi addr size kind s =
      let (dl1, dl1_hit) = ops.access s.dl1 addr size kind in
      let s' = record s {
        dtlb = (ops.access_single_line s.dtlb addr AccessType.load).0;
        dl1 = dl1;
      } in
      if dl1_hit then s' else ul2_access addr size kind s'

  -- `MemRefSingle`
  unfoldable pub mem_ref_single : ℕ → ℕ → AccessType → Hierarchy C → Hierarchy C
  unfolding ul2_access
  mem_ref_single addr size kind s =
      let (dl1, dl1_hit) = ops.access_single_line s.dl1 addr kind in
      let s' = record s {
        dtlb = (ops.access_single_line s.dtlb addr AccessType.load).0;
        dl1 = dl1;
      } in
      if dl1_hit then s' else ul2_access addr size kind s'

  -- The `countFun` that `Instruction` chooses.
  unfoldable pub mem_ref : ℕ → ℕ → AccessType → Hierarchy C → Hierarchy C
  unfolding mem_ref_single mem_ref_multi
  mem_ref addr size kind s =
      if leb size 4 then mem_ref_single addr size kind s else mem_ref_multi addr size kind s

  -- A call that `Instruction` inserts for an instruction of some kind.
  unfoldable pub predicated : Bool → (Hierarchy C → Hierarchy C) → Hierarchy C → Hierarchy C
  predicated inserted call s = if inserted then call s else s

  -- The calls that `Instruction` inserts before an instruction, as they run.
  unfoldable pub instruction : Ins → Hierarchy C → Hierarchy C
  unfolding predicated
  instruction ins s =
      predicated ((ins.is_memory_write && ins.is_standard_memop) && ins.predicate)
        (mem_ref ins.write_ea ins.write_size AccessType.store)
        (predicated ((ins.is_memory_read && ins.is_standard_memop) && ins.predicate)
          (mem_ref ins.read_ea ins.read_size AccessType.load) (ins_ref ins.inst_ptr s))

  unfoldable pub run_program : List Ins → Hierarchy C → Hierarchy C
  unfolding instruction
  run_program [] s = s
  run_program (ins ∷ program) s = run_program program (instruction ins s)
