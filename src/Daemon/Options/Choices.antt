-- ===== src/Daemon/Options/Choices.antt =====
-- The command line of daemon/daemon.cpp against the settings that its user chooses.
use mathlib.Core.List.{append_assoc, append-nil}
use os_research_codebase.Prelude.{
  ◌≡◌, refl, sym, ◌∙◌, ap, Bool, true, false, ◌||◌, List, [], ◌∷◌, ◌++◌, none, some, ℤ, All, arith,
  ◌⊎◌, inl, inr,
}
use Prim.Native.String.{String}
use text.Mathlib.Text.{◌==◌ as str_eq}
use os_research_codebase.Float.{Float}
use os_research_codebase.Policy.Dispatch.{Policy, get_policy}
use os_research_codebase.Daemon.Options.{
  Readers, Options, no_option, default_options, valued_option, parse_options, uncaught, ready,
  configured, start, with_pid, with_policy,
}

-- A setting as the user gives it: the text of a number stands before the number. `other` is an
-- argument that is no option.
pub data Choice (D : Type 0) : Type 0 where
  trace : Choice D
  trace_dir : String → Choice D
  slow_node fast_tier_capacity max_promotions max_demotions : String → ℤ → Choice D
  abs_thresh demote_margin fill_threshold epoch_ms : String → D → Choice D
  other : String → Choice D

abbrev pub OneOf : String → List String → Type 0
OneOf text [] = ⊥
OneOf text (flag ∷ flags) = (text ≡ flag) ⊎ OneOf text flags

abbrev valued_flags : List String
valued_flags =
    "--trace-dir" ∷ "--slow-node" ∷ "--fast-tier-capacity" ∷ "--max-promotions" ∷ "--max-demotions"
    ∷ "--abs-thresh" ∷ "--demote-margin" ∷ "--fill-threshold" ∷ "--epoch-ms" ∷ []

abbrev pub integer_flags : List String
integer_flags = "--slow-node" ∷ "--fast-tier-capacity" ∷ "--max-promotions" ∷ "--max-demotions" ∷ []

abbrev pub real_flags : List String
real_flags = "--abs-thresh" ∷ "--demote-margin" ∷ "--fill-threshold" ∷ "--epoch-ms" ∷ []

-- Whether the text is one of the flags.
abbrev pub names : String → List String → Bool
names text [] = false
names text (flag ∷ flags) = str_eq text flag || names text flags

module _ {D : Type 0} where
  abbrev pub arguments : Choice D → List String
  arguments trace = "--trace" ∷ []
  arguments (trace_dir text) = "--trace-dir" ∷ text ∷ []
  arguments (slow_node text n) = "--slow-node" ∷ text ∷ []
  arguments (fast_tier_capacity text n) = "--fast-tier-capacity" ∷ text ∷ []
  arguments (max_promotions text n) = "--max-promotions" ∷ text ∷ []
  arguments (max_demotions text n) = "--max-demotions" ∷ text ∷ []
  arguments (abs_thresh text x) = "--abs-thresh" ∷ text ∷ []
  arguments (demote_margin text x) = "--demote-margin" ∷ text ∷ []
  arguments (fill_threshold text x) = "--fill-threshold" ∷ text ∷ []
  arguments (epoch_ms text x) = "--epoch-ms" ∷ text ∷ []
  arguments (other text) = text ∷ []

  abbrev pub all_arguments : List (Choice D) → List String
  all_arguments [] = []
  all_arguments (c ∷ cs) = arguments c ++ all_arguments cs

  -- The settings with the choice made.
  abbrev pub choose : Choice D → Options D → Options D
  choose trace o = record o { trace_mode = true }
  choose (trace_dir text) o = record o { trace_dir = text }
  choose (slow_node text n) o = record o { config = record o.config { slow_node = n } }
  choose (fast_tier_capacity text n) o = record o {
    config = record o.config { fast_tier_capacity = n };
  }
  choose (max_promotions text n) o = record o { config = record o.config { max_promotions = n } }
  choose (max_demotions text n) o = record o { config = record o.config { max_demotions = n } }
  choose (abs_thresh text x) o = record o { abs_thresh = x }
  choose (demote_margin text x) o = record o { demote_margin = x }
  choose (fill_threshold text x) o = record o { fill_threshold = x }
  choose (epoch_ms text x) o = record o { epoch_interval_ms = x }
  choose (other text) o = o

  abbrev pub choose_all : List (Choice D) → Options D → Options D
  choose_all [] o = o
  choose_all (c ∷ cs) o = choose_all cs (choose c o)

module _ {D : Type 0} (readers : Readers D) where
  -- The text reads as the number, and an argument that is no option has no option's name.
  abbrev pub Reads : Choice D → Type 0
  Reads trace = Unit {0}
  Reads (trace_dir text) = Unit {0}
  Reads (slow_node text n) = readers.stoi text ≡ some n
  Reads (fast_tier_capacity text n) = readers.stoi text ≡ some n
  Reads (max_promotions text n) = readers.stoi text ≡ some n
  Reads (max_demotions text n) = readers.stoi text ≡ some n
  Reads (abs_thresh text x) = readers.stod text ≡ some x
  Reads (demote_margin text x) = readers.stod text ≡ some x
  Reads (fill_threshold text x) = readers.stod text ≡ some x
  Reads (epoch_ms text x) = readers.stod text ≡ some x
  Reads (other text) = names text ("--trace" ∷ valued_flags) ≡ false

  passed_over :
      (text value : String) (o : Options D)
      → names text ("--trace" ∷ valued_flags) ≡ false
      → (str_eq text "--trace" ≡ false) × (valued_option readers text value o ≡ no_option)
  unfolding valued_option
  passed_over text value o h = ground (arith, h)

  parse_choice :
      (c : Choice D) (rest : List String) (o : Options D)
      → Reads c
      → parse_options readers (arguments c ++ rest) o ≡ parse_options readers rest (choose c o)
  unfolding parse_options valued_option
  parse_choice trace [] o h = refl
  parse_choice trace (value ∷ rest) o h = refl
  parse_choice (trace_dir text) rest o h = refl
  parse_choice (slow_node text n) rest o h = rw h
  parse_choice (fast_tier_capacity text n) rest o h = rw h
  parse_choice (max_promotions text n) rest o h = rw h
  parse_choice (max_demotions text n) rest o h = rw h
  parse_choice (abs_thresh text x) rest o h = rw h
  parse_choice (demote_margin text x) rest o h = rw h
  parse_choice (fill_threshold text x) rest o h = rw h
  parse_choice (epoch_ms text x) rest o h = rw h
  parse_choice (other text) [] o h = ap some (ground (arith, h))
  parse_choice (other text) (value ∷ rest) o h =
      let (not_trace, no_value) = passed_over text value o h in rw (not_trace, no_value)

  -- Any settings, given as arguments in any order and number, are made one after the other, before the
  -- arguments behind them are looked at.
  pub parse_options-all_arguments :
      (cs : List (Choice D)) (rest : List String) (o : Options D)
      → All Reads cs
      → parse_options readers (all_arguments cs ++ rest) o
        ≡ parse_options readers rest (choose_all cs o)
  parse_options-all_arguments [] rest o h = refl
  parse_options-all_arguments (c ∷ cs) rest o (h, hs) =
      ap (λ args. parse_options readers args o) (append_assoc (arguments c) (all_arguments cs) rest)
      ∙ parse_choice c (all_arguments cs ++ rest) o h
      ∙ parse_options-all_arguments cs rest (choose c o) hs

  -- The flag wants a number, and the text is none.
  abbrev pub IsMalformed : String → String → Type 0
  IsMalformed flag text =
      (OneOf flag integer_flags × (readers.stoi text ≡ none))
      ⊎ (OneOf flag real_flags × (readers.stod text ≡ none))

  malformed_option :
      (flag text : String) (rest : List String) (o : Options D)
      → IsMalformed flag text
      → parse_options readers (flag ∷ text ∷ rest) o ≡ none
  unfolding parse_options valued_option
  malformed_option flag text rest o (inl (inl q, e)) = rw q (rw e)
  malformed_option flag text rest o (inl (inr (inl q), e)) = rw q (rw e)
  malformed_option flag text rest o (inl (inr (inr (inl q)), e)) = rw q (rw e)
  malformed_option flag text rest o (inl (inr (inr (inr (inl q))), e)) = rw q (rw e)
  malformed_option flag text rest o (inl (inr (inr (inr (inr x))), e)) = absurd x
  malformed_option flag text rest o (inr (inl q, e)) = rw q (rw e)
  malformed_option flag text rest o (inr (inr (inl q), e)) = rw q (rw e)
  malformed_option flag text rest o (inr (inr (inr (inl q)), e)) = rw q (rw e)
  malformed_option flag text rest o (inr (inr (inr (inr (inl q))), e)) = rw q (rw e)
  malformed_option flag text rest o (inr (inr (inr (inr (inr x))), e)) = absurd x

module _ {D : Type 0} ⦃f : Float D⦄ (readers : Readers D) where
  -- If the arguments give a pid that reads as a number, the name of a policy, and any
  -- settings in any order, each with a text that reads as its value, with arguments among them
  -- that are no option, then `main` starts with that pid, the default settings changed by these
  -- one after the other, and that policy, set up by them.
  pub start-all_arguments :
      (name pid_text : String) (pid : ℤ) (policy : Policy D) (cs : List (Choice D))
      → readers.stoi pid_text ≡ some pid
      → get_policy name ≡ some policy
      → All (Reads readers) cs
      → start readers (name ∷ "--pid" ∷ pid_text ∷ all_arguments cs)
        ≡ ready pid
            (choose_all cs default_options)
            (configured readers (choose_all cs default_options) policy)
  unfolding start with_pid with_policy parse_options
  start-all_arguments name pid_text pid policy cs p n h =
      rw p (ap (with_policy readers pid name) settled ∙ rw (n, with_policy))
    where
      settled :
          parse_options readers (all_arguments cs) default_options
          ≡ some (choose_all cs default_options)
      settled =
          ap (λ args. parse_options readers args default_options)
            (sym (append-nil (all_arguments cs)))
          ∙ parse_options-all_arguments readers cs [] default_options h

  -- An option whose number does not read ends the program by an exception, whatever settings that
  -- read as they should stand before it, whatever stands behind it, and whatever the policy's name is.
  pub start_malformed :
      (name pid_text : String) (pid : ℤ) (cs : List (Choice D)) (flag text : String)
      (rest : List String)
      → readers.stoi pid_text ≡ some pid
      → All (Reads readers) cs
      → IsMalformed readers flag text
      → start readers (name ∷ "--pid" ∷ pid_text ∷ all_arguments cs ++ flag ∷ text ∷ rest)
        ≡ uncaught
  unfolding start with_pid with_policy parse_options
  start_malformed name pid_text pid cs flag text rest p h m =
      rw p (ap (with_policy readers pid name) thrown)
    where
      thrown : parse_options readers (all_arguments cs ++ flag ∷ text ∷ rest) default_options ≡ none
      thrown =
          parse_options-all_arguments readers cs (flag ∷ text ∷ rest) default_options h
          ∙ malformed_option readers flag text rest (choose_all cs default_options) m
