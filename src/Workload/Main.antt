-- ===== src/Workload/Main.antt =====
-- `main` of workload/workload.cpp: the memory, the values it computes before, the phases in turn, and
-- the file as the daemon may find it in between.
pub mod Files
use os_research_codebase.Prelude.{
  ℕ, zero, suc, ◌+◌, ◌≡◌, refl, ap, List, [], ◌∷◌, ◌++◌, Option, none, some, ℤ, pos, negsuc, length,
  ◌==◌, if◌then◌else◌,
}
use os_research_codebase.Float.{Float}
use os_research_codebase.Config.{total_pages, hotspot_pages}
use os_research_codebase.Daemon.Epoch.{WorkloadInfo}
use os_research_codebase.Workload.Info.{Streams, update_shared_info}
use os_research_codebase.Workload.Phases.{
  Phase, Draws, region, Within, touched_page, touched_page-Within, run_phase,
}

module _ {D : Type 0} ⦃f : Float D⦄ (pow : D → D → D) where
  open f use {of_int, decimal, add, div}

  -- `1.0 / pow(i + 1, s)`
  zipf_weight : ℕ → D
  zipf_weight i = div (decimal 10 1) (pow (of_int (pos (i + 1))) (decimal 12 1))

  -- The sum of the weights from `i` on, onto `sum`.
  zipf_sum : ℕ → ℕ → D → D
  zipf_sum zero i sum = sum
  zipf_sum (suc n) i sum = zipf_sum n (suc i) (add sum (zipf_weight i))

  cumulate : D → ℕ → ℕ → D → List D
  cumulate sum zero i cumulative = []
  cumulate sum (suc n) i cumulative =
      let next = add cumulative (div (zipf_weight i) sum) in next ∷ cumulate sum n (suc i) next

  unfoldable pub zipf_cdf : List D
  unfolding zipf_weight zipf_sum cumulate
  zipf_cdf = cumulate (zipf_sum hotspot_pages 0 (of_int (pos 0))) hotspot_pages 0 (of_int (pos 0))

  cumulate-length : (sum : D) (n i : ℕ) (cumulative : D) → length (cumulate sum n i cumulative) ≡ n
  unfolding cumulate
  cumulate-length sum zero i cumulative = refl
  cumulate-length sum (suc n) i cumulative = ap suc (cumulate-length sum n (suc i) _)

  pub length-zipf_cdf : length zipf_cdf ≡ hotspot_pages
  unfolding zipf_cdf
  length-zipf_cdf =
      cumulate-length (zipf_sum hotspot_pages 0 (of_int (pos 0))) hotspot_pages 0 (of_int (pos 0))

  -- With the weights that `main` computes and whatever is drawn, each phase touches only the pages of
  -- its region: the Zipf loop the hotspot and, as the sum of its weights is rounded, maybe the page
  -- behind it, the last phase the new data, and the others the pages allocated.
  pub zipf_cdf-touched_page-Within :
      (chase_indices : List ℕ) (phase : Phase) (g : Draws D) (touches : ℕ)
      → Within (region phase) (touched_page zipf_cdf chase_indices phase g touches)
  zipf_cdf-touched_page-Within chase_indices phase g touches =
      touched_page-Within zipf_cdf chase_indices phase g touches length-zipf_cdf

-- `chase_indices` before the shuffle: `n` numbers from `i` on.
abbrev pub indices : ℕ → ℕ → List ℕ
indices zero i = []
indices (suc n) i = i ∷ indices n (suc i)

-- The first byte of each page of the mapping.
abbrev pub untouched : ℕ → ℕ
untouched page = 0

-- `memory[i * PAGE_SIZE] = 1;` for `n` pages from `i` on.
unfoldable pub touch_every : ℕ → ℕ → (ℕ → ℕ) → ℕ → ℕ
touch_every zero i memory = memory
touch_every (suc n) i memory = touch_every n (suc i) (λ page. if page == i then 1 else memory page)

-- What the process meets: its pid, the address that `mmap` gives, the order into which the indices
-- are shuffled, and for each phase the values drawn and how many rounds the clock lets it run.
pub record Process (D : Type 0) : Type 0 where
  pub pid : ℤ
  pub base_addr : Option ℕ
  pub shuffle : List ℕ → List ℕ
  pub draws : Phase → ℕ → Draws D
  pub rounds : Phase → ℕ

-- The variables of `main`, and what the file held one after the other, `none` when it is removed.
pub record Progress (W : Type 0) : Type 0 where
  pub info : WorkloadInfo
  pub memory : ℕ → ℕ
  pub files : List (Option (List W))

abbrev pub phase_id : Phase → ℕ
phase_id Phase.sequential_scan = 1
phase_id Phase.zipf_loop = 2
phase_id Phase.burst = 3
phase_id Phase.pointer_chase = 4
phase_id Phase.random_uniform = 5
phase_id Phase.new_data = 6

abbrev pub all_phases : List Phase
all_phases =
    Phase.sequential_scan ∷ Phase.zipf_loop ∷ Phase.burst ∷ Phase.pointer_chase
    ∷ Phase.random_uniform ∷ Phase.new_data ∷ []

module _ {S W : Type 0} (io : Streams S W) where
  -- `update_shared_info(info, phase)`, when the file opens.
  unfoldable pub announce : ℤ → Progress W → Progress W
  announce phase s =
      let (info, lines) = update_shared_info io s.info phase in
      record s { info = info; files = s.files ++ some lines ∷ [] }

  module _ {D : Type 0} ⦃f : Float D⦄ (pow : D → D → D) (p : Process D) where
    -- A call of `run_phase`.
    unfoldable pub perform : Phase → Progress W → Progress W
    unfolding announce
    perform phase s =
        let s' = announce (pos (phase_id phase)) s in
        record s' {
          memory =
              run_phase (zipf_cdf pow) (p.shuffle (indices total_pages 0)) phase (p.draws phase)
                (p.rounds phase) 0 s'.memory;
        }

    unfoldable pub perform_all : List Phase → Progress W → Progress W
    unfolding perform
    perform_all [] s = s
    perform_all (phase ∷ phases) s = perform_all phases (perform phase s)

    -- After the last phase; the file is removed.
    unfoldable pub clean_up : Progress W → Progress W
    unfolding announce
    clean_up s = let s' = announce (negsuc 0) s in record s' { files = s'.files ++ none ∷ [] }

    abbrev pub mapped_at : ℕ → Progress W
    mapped_at base = record {
      info = record {
        pid = p.pid;
        base_address = base;
        total_pages = pos total_pages;
        current_phase = pos 0;
      };
      memory = touch_every total_pages 0 untouched;
      files = [];
    }

    -- `main`; `none` if `mmap` fails, for which it returns 1 and does no more.
    unfoldable pub run_workload : Option (Progress W)
    unfolding announce perform_all clean_up
    run_workload = elim p.base_addr [
      | none ↦ none
      | some base ↦ some (clean_up (perform_all all_phases (announce (pos 0) (mapped_at base))))
    ]
