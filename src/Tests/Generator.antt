-- ===== src/Tests/Generator.antt =====
-- The workload's file and phases, the trace, and the recording of samples.
use os_research_codebase.Prelude.{
  ℕ, ◌+◌, ◌/◌, ◌%◌, ◌≡◌, refl, Bool, true, false, ltb, if◌then◌else◌, List, [], ◌∷◌, Option, none,
  some, ℤ, pos, ltb_ℤ, arith, replicate,
}
use os_research_codebase.Float.Fixed.{fixed}
use os_research_codebase.Config.{total_pages}
use os_research_codebase.Daemon.Epoch.{WorkloadInfo}
use os_research_codebase.Workload.Info.{
  Streams, ReadsBack, update_shared_info, read_workload_info, read_workload_info-update_shared_info,
}
use os_research_codebase.Workload.Phases.{Phase, Draws, run_phase, run_phase-sequential_scan}
use os_research_codebase.Sampler.Recording.{CpuReply}

-- Words that keep what they were printed from, and a stream that is a list of lines.
pub data Word : Type 0 where
  number : ℤ → Word
  pointer : ℕ → Word

pub read_number : List Word → ℤ → ℤ × List Word
read_number (Word.number n ∷ lines) old = (n, lines)
read_number (Word.pointer p ∷ lines) old = (pos 0, Word.pointer p ∷ lines)
read_number [] old = (old, [])

pub read_word : List Word → Word × List Word
read_word [] = (Word.number (pos 0), [])
read_word (w ∷ lines) = (w, lines)

pub empty_word : Word → Bool
empty_word (Word.number n) = true
empty_word (Word.pointer p) = false

pub address_of : Word → Option ℕ
address_of (Word.number n) = none
address_of (Word.pointer p) = some p

abbrev pub by_line : Streams (List Word) Word
by_line = record {
  show_int = Word.number;
  show_pointer = Word.pointer;
  opened = λ lines. lines;
  int = read_number;
  word = read_word;
  is_empty = empty_word;
  stoull = address_of;
}

pub by_line-ReadsBack : ReadsBack by_line
unfolding read_number read_word empty_word address_of
by_line-ReadsBack = record {
  int-show_int = λ n old lines. refl;
  word-show_pointer = λ p lines. refl;
  show_pointer_nonempty = λ p. refl;
  stoull-show_pointer = λ p. refl;
}

abbrev pub running : WorkloadInfo
running = record { pid = pos 7; base_address = 4096; total_pages = pos 2048; current_phase = pos 0 }

abbrev pub unknown : WorkloadInfo
unknown = record { pid = pos 0; base_address = 0; total_pages = pos 0; current_phase = pos 0 }

read_workload_info-update_shared_info_example :
    read_workload_info by_line
      (some (by_line.opened (update_shared_info by_line running (pos 3)).1))
      unknown
    ≡ ((update_shared_info by_line running (pos 3)).0, ltb_ℤ (pos 0) (pos 2048))
read_workload_info-update_shared_info_example =
    read_workload_info-update_shared_info by_line by_line-ReadsBack running unknown (pos 3)

abbrev pub flat_cdf : List ℤ
flat_cdf = replicate 384 (pos 500000)

abbrev pub last_draw : Draws ℤ
last_draw = record { below = λ n. n; unit = pos 900000 }

run_phase-sequential_scan_example :
    run_phase flat_cdf [] Phase.sequential_scan (λ i. last_draw) 5000 0 (λ page. 1) 7
    ≡ (1 + 5000 / total_pages + (if ltb 7 (5000 % total_pages) then 1 else 0)) % 256
run_phase-sequential_scan_example =
    run_phase-sequential_scan flat_cdf [] (λ i. last_draw) 5000 7 (λ page. 1) (omega arith)
      (omega arith)

-- Three CPUs: an event without a link, one that does not open, and one that works.
abbrev three_cpus : List CpuReply
three_cpus =
    record { fd = some 5; link = none }
    ∷ record { fd = none; link = none }
    ∷ record { fd = some 6; link = some 1 }
    ∷ []
