-- ===== src/Sampler/Object/Accounts.antt =====
-- What `EbpfSampler::start_recording` of daemon/ebpf_sampler.cpp holds of the kernel's descriptors
-- and links, and the system calls that it made.
use os_research_codebase.Prelude.{
  ℕ, ◌+◌, ◌≡◌, refl, ap, List, [], ◌∷◌, ◌++◌, Option, none, some, arith,
}
use os_research_codebase.Sampler.Recording.{
  CpuReply, Recording, attach, attach_all, uses, uses-append,
}

-- What is open is what was opened and not closed, for events and for links, and the events that are
-- open are the enabled ones.
pub record Accounted (r : Recording) : Type 0 where
  pub fds : (k : ℕ) → uses k r.opened ≡ uses k r.closed + uses k r.perf_fds
  pub held : (k : ℕ) → uses k r.attached_links ≡ uses k r.destroyed + uses k r.links
  pub enabled : r.enabled ≡ r.perf_fds

attach-Accounted : (reply : CpuReply) (r : Recording) → Accounted r → Accounted (attach reply r)
unfolding attach
attach-Accounted reply r a = by_fd reply.fd reply.link refl refl
  where
    by_fd : (fd link : Option ℕ) → reply.fd ≡ fd → reply.link ≡ link → Accounted (attach reply r)
    by_fd none link e l = rw e a
    by_fd (some fd) none e l =
        rw (e, l)
          (record {
            fds = λ k. omega (
              arith,
              a.fds k,
              uses-append k r.opened (fd ∷ []),
              uses-append k r.closed (fd ∷ []),
            );
            held = a.held;
            enabled = a.enabled;
          })
    by_fd (some fd) (some j) e l =
        rw (e, l)
          (record {
            fds = λ k. omega (
              arith,
              a.fds k,
              uses-append k r.opened (fd ∷ []),
              uses-append k r.perf_fds (fd ∷ []),
            );
            held = λ k. omega (
              arith,
              a.held k,
              uses-append k r.attached_links (j ∷ []),
              uses-append k r.links (j ∷ []),
            );
            enabled = ap (λ fds. fds ++ fd ∷ []) a.enabled;
          })

pub attach_all-Accounted :
    (replies : List CpuReply) (r : Recording) → Accounted r → Accounted (attach_all replies r)
unfolding attach_all
attach_all-Accounted [] r a = a
attach_all-Accounted (reply ∷ replies) r a =
    attach_all-Accounted replies (attach reply r) (attach-Accounted reply r a)
