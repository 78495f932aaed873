-- ===== src/Memtrace/Misses.antt =====
-- What the trace depends on, and how fast it grows.
use os_research_codebase.Prelude.{
  ℕ, ◌+◌, ◌*◌, ◌≤◌, ◌≡◌, Bool, true, false, ◌&&◌, List, [], ◌∷◌, arith, length, length-append,
}
use os_research_codebase.Memtrace.{
  AccessType, CacheOps, Hierarchy, Ins, ul2_access, ins_ref, mem_ref_multi, mem_ref_single, mem_ref,
  predicated, instruction, run_program,
}

module _ {C : Type 0} (ops : CacheOps C) where
  -- The same but for the two translation buffers.
  abbrev pub SameCaches : Hierarchy C → Hierarchy C → Type 0
  SameCaches s t =
      (s.il1 ≡ t.il1) × (s.dl1 ≡ t.dl1) × (s.ul2 ≡ t.ul2) × (s.ul3 ≡ t.ul3) × (s.trace ≡ t.trace)

  ul2_access-SameCaches :
      (addr size : ℕ) (kind : AccessType) (s t : Hierarchy C)
      → SameCaches s t
      → SameCaches (ul2_access ops addr size kind s) (ul2_access ops addr size kind t)
  unfolding ul2_access
  ul2_access-SameCaches addr size kind s t h = ground arith

  ins_ref-SameCaches :
      (addr : ℕ) (s t : Hierarchy C)
      → SameCaches s t
      → SameCaches (ins_ref ops addr s) (ins_ref ops addr t)
  unfolding ins_ref ul2_access
  ins_ref-SameCaches addr s t h = ground arith

  mem_ref-SameCaches :
      (addr size : ℕ) (kind : AccessType) (s t : Hierarchy C)
      → SameCaches s t
      → SameCaches (mem_ref ops addr size kind s) (mem_ref ops addr size kind t)
  unfolding mem_ref mem_ref_single mem_ref_multi ul2_access
  mem_ref-SameCaches addr size kind s t h = ground arith

  predicated-SameCaches :
      (inserted : Bool) (call : Hierarchy C → Hierarchy C)
      → ((s t : Hierarchy C) → SameCaches s t → SameCaches (call s) (call t))
      → (s t : Hierarchy C) → SameCaches s t
      → SameCaches (predicated ops inserted call s) (predicated ops inserted call t)
  unfolding predicated
  predicated-SameCaches true call h s t k = h s t k
  predicated-SameCaches false call h s t k = k

  instruction-SameCaches :
      (ins : Ins) (s t : Hierarchy C)
      → SameCaches s t
      → SameCaches (instruction ops ins s) (instruction ops ins t)
  unfolding instruction
  instruction-SameCaches ins s t h =
      predicated-SameCaches ((ins.is_memory_write && ins.is_standard_memop) && ins.predicate)
        (mem_ref ops ins.write_ea ins.write_size AccessType.store)
        (mem_ref-SameCaches ins.write_ea ins.write_size AccessType.store) (before s) (before t)
        (predicated-SameCaches ((ins.is_memory_read && ins.is_standard_memop) && ins.predicate)
          (mem_ref ops ins.read_ea ins.read_size AccessType.load)
          (mem_ref-SameCaches ins.read_ea ins.read_size AccessType.load)
          (ins_ref ops ins.inst_ptr s) (ins_ref ops ins.inst_ptr t)
          (ins_ref-SameCaches ins.inst_ptr s t h))
    where
      before : Hierarchy C → Hierarchy C
      before r =
          predicated ops ((ins.is_memory_read && ins.is_standard_memop) && ins.predicate)
            (mem_ref ops ins.read_ea ins.read_size AccessType.load) (ins_ref ops ins.inst_ptr r)

  -- The translation buffers have no part in the trace: from hierarchies that differ in them alone, a
  -- program leads to hierarchies that differ in them alone, with the same trace.
  pub run_program-SameCaches :
      (program : List Ins) (s t : Hierarchy C)
      → SameCaches s t
      → SameCaches (run_program ops program s) (run_program ops program t)
  unfolding run_program
  run_program-SameCaches [] s t h = h
  run_program-SameCaches (ins ∷ program) s t h =
      run_program-SameCaches program (instruction ops ins s) (instruction ops ins t)
        (instruction-SameCaches ins s t h)

  ins_ref-length :
      (addr : ℕ) (s : Hierarchy C) → length (ins_ref ops addr s).trace ≤ length s.trace + 1
  unfolding ins_ref ul2_access
  ins_ref-length addr s = ground (arith, length-append s.trace (addr ∷ []))

  mem_ref-length :
      (addr size : ℕ) (kind : AccessType) (s : Hierarchy C)
      → length (mem_ref ops addr size kind s).trace ≤ length s.trace + 1
  unfolding mem_ref mem_ref_single mem_ref_multi ul2_access
  mem_ref-length addr size kind s = ground (arith, length-append s.trace (addr ∷ []))

  predicated-length :
      (inserted : Bool) (call : Hierarchy C → Hierarchy C)
      → ((s : Hierarchy C) → length (call s).trace ≤ length s.trace + 1)
      → (s : Hierarchy C) → length (predicated ops inserted call s).trace ≤ length s.trace + 1
  unfolding predicated
  predicated-length true call h s = h s
  predicated-length false call h s = omega arith

  instruction-length :
      (ins : Ins) (s : Hierarchy C) → length (instruction ops ins s).trace ≤ length s.trace + 3
  unfolding instruction
  instruction-length ins s = omega (
    arith,
    ins_ref-length ins.inst_ptr s,
    predicated-length ((ins.is_memory_read && ins.is_standard_memop) && ins.predicate)
        (mem_ref ops ins.read_ea ins.read_size AccessType.load)
        (mem_ref-length ins.read_ea ins.read_size AccessType.load) (ins_ref ops ins.inst_ptr s),
    predicated-length ((ins.is_memory_write && ins.is_standard_memop) && ins.predicate)
        (mem_ref ops ins.write_ea ins.write_size AccessType.store)
        (mem_ref-length ins.write_ea ins.write_size AccessType.store)
        (predicated ops ((ins.is_memory_read && ins.is_standard_memop) && ins.predicate)
          (mem_ref ops ins.read_ea ins.read_size AccessType.load) (ins_ref ops ins.inst_ptr s)),
  )

  -- A program leaves at most three lines in the trace for each instruction that it executes.
  pub run_program-length :
      (program : List Ins) (s : Hierarchy C)
      → length (run_program ops program s).trace ≤ length s.trace + 3 * length program
  unfolding run_program
  run_program-length [] s = omega arith
  run_program-length (ins ∷ program) s =
      omega (arith, run_program-length program (instruction ops ins s), instruction-length ins s)
