-- ===== src/Daemon/Options/Margins.antt =====
-- The two overrides of the margins among the options of daemon/daemon.cpp.
use os_research_codebase.Prelude.{
  ◌≡◌, refl, ◌∙◌, ap, Bool, true, false, if◌then◌else◌, List, [], ◌∷◌, ◌⊎◌, inl, inr, some, ℤ, pos,
  All, arith,
}
use Prim.Native.String.{String}
use os_research_codebase.Float.{Float}
use os_research_codebase.Policy.Dispatch.{Policy, get_policy, set_policy_fill_threshold}
use os_research_codebase.Daemon.Options.{
  Readers, Options, default_options, ready, configured, start,
}
use os_research_codebase.Daemon.Options.Choices.{
  Choice, trace, trace_dir, slow_node, fast_tier_capacity, max_promotions, max_demotions,
  abs_thresh, demote_margin, fill_threshold, epoch_ms, other, Reads, all_arguments, choose,
  choose_all, start-all_arguments,
}

module _ {D : Type 0} where
  abbrev pub is_abs_thresh : Choice D → Bool
  is_abs_thresh (abs_thresh text x) = true
  is_abs_thresh c = false

  abbrev pub is_demote_margin : Choice D → Bool
  is_demote_margin (demote_margin text x) = true
  is_demote_margin c = false

  abbrev pub HasNo : (Choice D → Bool) → List (Choice D) → Type 0
  HasNo p = All (λ c. p c ≡ false)

  -- A choice changes a margin only by that margin's option.
  choose_margins :
      (c : Choice D) (o : Options D)
      → ((choose c o).abs_thresh
          ≡ (if is_abs_thresh c then (choose c o).abs_thresh else o.abs_thresh))
        × ((choose c o).demote_margin
            ≡ (if is_demote_margin c then (choose c o).demote_margin else o.demote_margin))
  choose_margins trace o = (refl, refl)
  choose_margins (trace_dir text) o = (refl, refl)
  choose_margins (slow_node text v) o = (refl, refl)
  choose_margins (fast_tier_capacity text v) o = (refl, refl)
  choose_margins (max_promotions text v) o = (refl, refl)
  choose_margins (max_demotions text v) o = (refl, refl)
  choose_margins (abs_thresh text v) o = (refl, refl)
  choose_margins (demote_margin text v) o = (refl, refl)
  choose_margins (fill_threshold text v) o = (refl, refl)
  choose_margins (epoch_ms text v) o = (refl, refl)
  choose_margins (other text) o = (refl, refl)

  choose_all-abs_thresh :
      (cs : List (Choice D)) (o : Options D)
      → HasNo is_abs_thresh cs
      → (choose_all cs o).abs_thresh ≡ o.abs_thresh
  choose_all-abs_thresh [] o h = refl
  choose_all-abs_thresh (c ∷ cs) o (h, hs) =
      choose_all-abs_thresh cs (choose c o) hs
      ∙ (choose_margins c o).0
      ∙ ap (λ b. if b then (choose c o).abs_thresh else o.abs_thresh) h

  choose_all-demote_margin :
      (cs : List (Choice D)) (o : Options D)
      → HasNo is_demote_margin cs
      → (choose_all cs o).demote_margin ≡ o.demote_margin
  choose_all-demote_margin [] o h = refl
  choose_all-demote_margin (c ∷ cs) o (h, hs) =
      choose_all-demote_margin cs (choose c o) hs
      ∙ (choose_margins c o).1
      ∙ ap (λ b. if b then (choose c o).demote_margin else o.demote_margin) h

module _ {D : Type 0} ⦃f : Float D⦄ (readers : Readers D) where
  -- With a negative value for one of both margins, only the fill threshold is set.
  configured_one :
      (o : Options D) (policy : Policy D)
      → (f.le (f.of_int (pos 0)) o.abs_thresh ≡ false)
        ⊎ (f.le (f.of_int (pos 0)) o.demote_margin ≡ false)
      → configured readers o policy ≡ set_policy_fill_threshold o.fill_threshold policy
  unfolding configured
  configured_one o policy (inl h) = rw h
  configured_one o policy (inr h) = ground (arith, h)

  -- Where the default of the margins is negative, a command line that reads as it should and gives
  -- one of the options for the margins without the other, or none, leaves both as they are: the
  -- policy gets the fill threshold only, whatever value the one option has.
  pub start_one_margin :
      (name pid_text : String) (pid : ℤ) (policy : Policy D) (cs : List (Choice D))
      → f.le (f.of_int (pos 0)) (f.neg (f.decimal 10 1)) ≡ false
      → readers.stoi pid_text ≡ some pid
      → get_policy name ≡ some policy
      → All (Reads readers) cs
      → HasNo is_abs_thresh cs ⊎ HasNo is_demote_margin cs
      → start readers (name ∷ "--pid" ∷ pid_text ∷ all_arguments cs)
        ≡ ready pid
            (choose_all cs default_options)
            (set_policy_fill_threshold (choose_all cs default_options).fill_threshold policy)
  unfolding default_options
  start_one_margin name pid_text pid policy cs below p n h one =
      start-all_arguments readers name pid_text pid policy cs p n h
      ∙ ap (ready pid (choose_all cs default_options))
          (configured_one (choose_all cs default_options) policy (negative one))
    where
      negative :
          HasNo is_abs_thresh cs ⊎ HasNo is_demote_margin cs
          → (f.le (f.of_int (pos 0)) (choose_all cs default_options).abs_thresh ≡ false)
            ⊎ (f.le (f.of_int (pos 0)) (choose_all cs default_options).demote_margin ≡ false)
      negative (inl a) =
          inl (ap (f.le (f.of_int (pos 0))) (choose_all-abs_thresh cs default_options a) ∙ below)
      negative (inr a) =
          inr (ap (f.le (f.of_int (pos 0))) (choose_all-demote_margin cs default_options a) ∙ below)
