-- ===== src/Tests/Recorder.antt =====
-- An `EbpfSampler` on two CPUs, the second of which takes no event.
use os_research_codebase.Prelude.{
  List, ◌≡◌, ◌+◌, refl, [], ◌∷◌, none, some, ℤ, pos, if◌then◌else◌, ◌==◌,
}
use os_research_codebase.Float.Fixed.{fixed}
use os_research_codebase.Sampler.Recording.{attach_all, attach, start_recording}
use os_research_codebase.Sampler.Object.{
  EbpfSampler, PerfCalls, new_sampler, sampler_start, cpu_replies,
}
use os_research_codebase.Tests.Flow.{Tally, at_start, three_events}
use os_research_codebase.Tests.Sampling.{two_regions}
use os_research_codebase.Daemon.Main.Counted.{Fed}
use os_research_codebase.Tests.Generator.{Word}
use os_research_codebase.Tests.Rounds.{unheard}

abbrev one_cpu_refuses : PerfCalls Tally
one_cpu_refuses = record {
  open_and_load = some at_start;
  num_possible_cpus = pos 2;
  perf_event_open = λ attr cpu. some (5 + cpu);
  attach_perf_event = λ fd. if fd == 6 then none else some 9;
}

abbrev started : EbpfSampler Tally ℤ
started = (sampler_start one_cpu_refuses (new_sampler (pos 7))).0

started_recording : started.recording ≡ record {
  perf_fds = 5 ∷ [];
  links = 9 ∷ [];
  opened = 5 ∷ 6 ∷ [];
  enabled = 5 ∷ [];
  attached_links = 9 ∷ [];
  closed = 6 ∷ [];
  destroyed = [];
}
unfolding sampler_start new_sampler cpu_replies start_recording attach_all attach
started_recording = refl

abbrev recording_seven : EbpfSampler Tally ℤ
recording_seven = record {
  target_pid = pos 7;
  skel = some at_start;
  recording = started.recording;
  vma_regions = two_regions;
  page_samples = [];
  last_parse_duration_ms = pos 0;
}

-- An epoch with samples and one without.
abbrev pub two_epochs : List (Fed ℤ (List Word))
two_epochs =
    record { round = unheard; events = three_events; keys = 4096 ∷ [] }
    ∷ record { round = unheard; events = []; keys = [] }
    ∷ []
