-- ===== src/Page.antt =====
-- daemon/tier_manager.h: the record that the daemon keeps for each page; and from
-- daemon/tier_manager.cpp what the loops of `detect_accesses` do to one page.
use os_research_codebase.Prelude.{ℕ, suc, ◌-◌, Bool, true, false, ◌&&◌, if◌then◌else◌, ℤ, pos, ◌+ℤ◌}
use os_research_codebase.Config.{Config, slow_latency_ns, fast_latency_ns}
use os_research_codebase.Float.{Float}

-- `current_node` is the NUMA node: 0 is the fast tier.
pub record PageMetadata (D : Type 0) : Type 0 where
  pub page_va : ℕ
  pub current_node : ℤ
  pub last_access_time : ℤ
  pub access_count : ℤ
  pub smooth_frequency : D
  pub migration_history : ℕ
  pub accessed_this_epoch : Bool
  pub prev_smooth_frequency : D
  pub momentum : D
  pub epochs_since_access : ℕ
  pub consecutive_hot_epochs : ℕ
  pub hot_ratio : D
  pub access_frequency_ratio : D
  pub avg_latency_cycles : D
  pub aci : D

-- daemon/ebpf_sampler.h: what an epoch's sampling gives for a page.
pub record PageSample (D : Type 0) : Type 0 where
  pub sample_count : ℤ
  pub total_latency_cycles : D

module _ {D : Type 0} ⦃f : Float D⦄ where
  open f use {of_int, decimal, add, sub, mul, div, lt}

  -- `PageMetadata{}`: value initialisation.
  unfoldable pub zero_page : PageMetadata D
  zero_page = record {
    page_va = 0;
    current_node = pos 0;
    last_access_time = pos 0;
    access_count = pos 0;
    smooth_frequency = f.of_int (pos 0);
    migration_history = 0;
    accessed_this_epoch = false;
    prev_smooth_frequency = f.of_int (pos 0);
    momentum = f.of_int (pos 0);
    epochs_since_access = 0;
    consecutive_hot_epochs = 0;
    hot_ratio = f.of_int (pos 0);
    access_frequency_ratio = f.of_int (pos 0);
    avg_latency_cycles = f.of_int (pos 0);
    aci = f.of_int (pos 0);
  }

  -- The first loop of `detect_accesses`.
  unfoldable pub start_epoch : PageMetadata D → PageMetadata D
  start_epoch m = record m {
    prev_smooth_frequency = m.smooth_frequency;
    accessed_this_epoch = false;
  }

  -- The metadata of a page that is seen for the first time.
  unfoldable pub discovered : Config → ℕ → PageMetadata D
  unfolding zero_page
  discovered cfg va = record zero_page { page_va = va; current_node = cfg.slow_node }

  -- The updates of one page by its sample.
  unfoldable pub touch : ℤ → PageSample D → PageMetadata D → PageMetadata D
  touch now s m = record m {
    accessed_this_epoch = true;
    last_access_time = now;
    access_count = m.access_count +ℤ s.sample_count;
    smooth_frequency = add (mul (decimal 5 1) m.smooth_frequency) (of_int s.sample_count);
    epochs_since_access = 0;
    consecutive_hot_epochs = suc m.consecutive_hot_epochs;
    avg_latency_cycles = div s.total_latency_cycles (of_int s.sample_count);
  }

  -- The loop that decays the pages not accessed and computes the momentum of all.
  unfoldable pub decay : PageMetadata D → PageMetadata D
  decay m =
      let m' =
        (if m.accessed_this_epoch then m else record m {
          smooth_frequency = mul m.smooth_frequency (decimal 95 2);
          epochs_since_access = suc m.epochs_since_access;
          consecutive_hot_epochs = 0;
        }) in
      record m' { momentum = sub m'.smooth_frequency m'.prev_smooth_frequency }

  unfoldable pub rate_hot : D → PageMetadata D → PageMetadata D
  rate_hot epoch_mean m = record m {
    hot_ratio =
        (if m.accessed_this_epoch && lt (decimal 1 10) epoch_mean
          then div m.smooth_frequency epoch_mean
          else of_int (pos 0));
  }

  unfoldable pub rate_frequency : D → PageMetadata D → PageMetadata D
  rate_frequency max_sf m = record m {
    access_frequency_ratio =
        (if lt (decimal 1 10) max_sf then div m.smooth_frequency max_sf else of_int (pos 0));
  }

  unfoldable pub rate_aci : D → PageMetadata D → PageMetadata D
  rate_aci density m = record m { aci = mul (mul m.smooth_frequency (sub_latency)) density }
    where
      sub_latency : D
      sub_latency = of_int (pos (slow_latency_ns - fast_latency_ns))
