-- ===== src/Sampler/Recording.antt =====
-- `EbpfSampler::start_recording` and the destructor of daemon/ebpf_sampler.cpp: which of the perf
-- events that are opened stay open, and which links.
use os_research_codebase.Prelude.{
  ℕ, ◌+◌, ◌≡◌, refl, Bool, true, false, ltb, ◌==◌, if◌then◌else◌, List, [], ◌∷◌, ◌++◌, Option, none,
  some, arith, length, count, length-append, ap,
}

-- What a CPU's system calls give: the file descriptor, if it opens, and the link, if it attaches.
pub record CpuReply : Type 0 where
  pub fd : Option ℕ
  pub link : Option ℕ

-- `perf_fds` and `links`, and the log of the system calls: the descriptors that were opened, enabled
-- by `ioctl` and closed, and the links that were made and destroyed.
pub record Recording : Type 0 where
  pub perf_fds : List ℕ
  pub links : List ℕ
  pub opened : List ℕ
  pub enabled : List ℕ
  pub attached_links : List ℕ
  pub closed : List ℕ
  pub destroyed : List ℕ

-- The body of the loop over the CPUs.
unfoldable pub attach : CpuReply → Recording → Recording
attach reply s = elim reply.fd [
  | none ↦ s
  | some fd ↦ elim reply.link [
    | none ↦ record s { opened = s.opened ++ fd ∷ []; closed = s.closed ++ fd ∷ [] }
    | some link ↦ record s {
      perf_fds = s.perf_fds ++ fd ∷ [];
      links = s.links ++ link ∷ [];
      opened = s.opened ++ fd ∷ [];
      enabled = s.enabled ++ fd ∷ [];
      attached_links = s.attached_links ++ link ∷ [];
    }
  ]
]

unfoldable pub attach_all : List CpuReply → Recording → Recording
unfolding attach
attach_all [] s = s
attach_all (reply ∷ replies) s = attach_all replies (attach reply s)

-- `start_recording`; `loaded` is whether the skeleton opens and loads.
unfoldable pub start_recording : Bool → List CpuReply → Recording → Recording × Bool
start_recording loaded replies s =
    let last = attach_all replies s in
    if loaded then (last, ltb 0 (length last.perf_fds)) else (s, false)

-- The destructor.
unfoldable pub stop_recording : Recording → Recording
stop_recording s = record s {
  perf_fds = [];
  links = [];
  closed = s.closed ++ s.perf_fds;
  destroyed = s.destroyed ++ s.links;
}

-- Whether a CPU's event has the descriptor `k`; and whether it has a link.
abbrev pub opens : ℕ → CpuReply → Bool
opens k reply = elim reply.fd [ none ↦ false | some fd ↦ fd == k ]

abbrev pub attached : CpuReply → Bool
attached reply = elim reply.fd [
  | none ↦ false
  | some fd ↦ elim reply.link [ none ↦ false | some link ↦ true ]
]

abbrev pub uses : ℕ → List ℕ → ℕ
uses k = count (λ j. j == k)

pub uses-append : (k : ℕ) (xs ys : List ℕ) → uses k (xs ++ ys) ≡ uses k xs + uses k ys
uses-append k [] ys = omega arith
uses-append k (x ∷ xs) ys = ground (arith, uses-append k xs ys)

attach-uses :
    (k : ℕ) (reply : CpuReply) (s : Recording)
    → uses k (attach reply s).closed + uses k (attach reply s).perf_fds
      ≡ uses k s.closed + uses k s.perf_fds + (if opens k reply then 1 else 0)
unfolding attach
attach-uses k reply s = by_fd reply.fd reply.link refl refl
  where
    by_fd :
        (fd link : Option ℕ)
        → reply.fd ≡ fd
        → reply.link ≡ link
        → uses k (attach reply s).closed + uses k (attach reply s).perf_fds
          ≡ uses k s.closed + uses k s.perf_fds + (if opens k reply then 1 else 0)
    by_fd none link e l = rw (e) (omega arith)
    by_fd (some fd) none e l = rw (e, l) (ground (arith, uses-append k s.closed (fd ∷ [])))
    by_fd (some fd) (some j) e l = rw (e, l) (ground (arith, uses-append k s.perf_fds (fd ∷ [])))

attach_all-uses :
    (k : ℕ) (replies : List CpuReply) (s : Recording)
    → uses k (attach_all replies s).closed + uses k (attach_all replies s).perf_fds
      ≡ uses k s.closed + uses k s.perf_fds + count (opens k) replies
unfolding attach_all
attach_all-uses k [] s = omega arith
attach_all-uses k (reply ∷ replies) s =
    ground (arith, attach_all-uses k replies (attach reply s), attach-uses k reply s)

attach-perf_fds :
    (reply : CpuReply) (s : Recording)
    → length (attach reply s).perf_fds ≡ length s.perf_fds + (if attached reply then 1 else 0)
unfolding attach
attach-perf_fds reply s = by_fd reply.fd reply.link refl refl
  where
    by_fd :
        (fd link : Option ℕ)
        → reply.fd ≡ fd
        → reply.link ≡ link
        → length (attach reply s).perf_fds ≡ length s.perf_fds + (if attached reply then 1 else 0)
    by_fd none link e l = rw (e) (omega arith)
    by_fd (some fd) none e l = rw (e, l) (omega arith)
    by_fd (some fd) (some j) e l = rw (e, l) (omega (arith, length-append s.perf_fds (fd ∷ [])))

attach_all-perf_fds :
    (replies : List CpuReply) (s : Recording)
    → length (attach_all replies s).perf_fds ≡ length s.perf_fds + count attached replies
unfolding attach_all
attach_all-perf_fds [] s = omega arith
attach_all-perf_fds (reply ∷ replies) s =
    ground (arith, attach_all-perf_fds replies (attach reply s), attach-perf_fds reply s)

abbrev pub nothing_open : Recording
nothing_open = record {
  perf_fds = [];
  links = [];
  opened = [];
  enabled = [];
  attached_links = [];
  closed = [];
  destroyed = [];
}

-- From nothing open, recording starts exactly if a CPU's event opens and gets its link; and whether
-- it does or not, the destructor has each descriptor closed as often as it was opened.
pub start_recording_lem :
    (replies : List CpuReply) (k : ℕ)
    → ((start_recording true replies nothing_open).1 ≡ ltb 0 (count attached replies))
      × (uses k (stop_recording (start_recording true replies nothing_open).0).closed
          ≡ count (opens k) replies)
unfolding start_recording stop_recording
start_recording_lem replies k = (
  ap (ltb 0) (omega (arith, attach_all-perf_fds replies nothing_open)),
  omega (arith, uses-append k last.closed last.perf_fds, attach_all-uses k replies nothing_open),
)
  where
    last : Recording
    last = attach_all replies nothing_open
