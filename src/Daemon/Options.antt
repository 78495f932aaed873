-- ===== src/Daemon/Options.antt =====
-- The command line of daemon/daemon.cpp.
pub mod Choices
pub mod Margins
use os_research_codebase.Prelude.{
  Bool, true, false, if◌then◌else◌, List, [], ◌∷◌, Option, none, some, ℤ, pos, ◌&&◌,
}
use Prim.Native.String.{String}
use text.Mathlib.Text.{◌==◌ as str_eq}
use os_research_codebase.Float.{Float}
use os_research_codebase.Policy.Dispatch.{
  Policy, get_policy, set_policy_margins, set_policy_fill_threshold,
}
use os_research_codebase.Config.{Config, default_config}

-- `stoi` and `stod`: `none` is the exception that ends the program.
pub record Readers (D : Type 0) : Type 0 where
  pub stoi : String → Option ℤ
  pub stod : String → Option D

-- The local variables of `main` that the options set, and the global settings.
pub record Options (D : Type 0) : Type 0 where
  pub trace_mode : Bool
  pub trace_dir : String
  pub abs_thresh : D
  pub demote_margin : D
  pub fill_threshold : D
  pub epoch_interval_ms : D
  pub config : Config

module _ {D : Type 0} ⦃f : Float D⦄ where
  unfoldable pub default_options : Options D
  default_options = record {
    trace_mode = false;
    trace_dir = "/tmp";
    abs_thresh = f.neg (f.decimal 10 1);
    demote_margin = f.neg (f.decimal 10 1);
    fill_threshold = f.decimal 370 3;
    epoch_interval_ms = f.decimal 1000 1;
    config = default_config;
  }

-- What an argument with the one behind it is: no option that takes a value, one whose value makes
-- `stoi` or `stod` throw, or a change of the settings.
pub data Setting (D : Type 0) : Type 0 where
  no_option malformed : Setting D
  set : Options D → Setting D

module _ {D : Type 0} where
  abbrev set_by : {A : Type 0} → (A → Options D) → Option A → Setting D
  set_by g none = malformed
  set_by g (some a) = set (g a)

module _ {D : Type 0} (readers : Readers D) where
  open readers use {stoi, stod}

  -- The `else if` chain for the options with a value.
  unfoldable pub valued_option : String → String → Options D → Setting D
  valued_option flag value o =
      let c = o.config in
      if str_eq flag "--trace-dir"
      then set (record o { trace_dir = value })
      else if str_eq flag "--slow-node"
      then set_by (λ n. record o { config = record c { slow_node = n } }) (stoi value)
      else if str_eq flag "--fast-tier-capacity"
      then set_by (λ n. record o { config = record c { fast_tier_capacity = n } }) (stoi value)
      else if str_eq flag "--max-promotions"
      then set_by (λ n. record o { config = record c { max_promotions = n } }) (stoi value)
      else if str_eq flag "--max-demotions"
      then set_by (λ n. record o { config = record c { max_demotions = n } }) (stoi value)
      else if str_eq flag "--abs-thresh"
      then set_by (λ x. record o { abs_thresh = x }) (stod value)
      else if str_eq flag "--demote-margin"
      then set_by (λ x. record o { demote_margin = x }) (stod value)
      else if str_eq flag "--fill-threshold"
      then set_by (λ x. record o { fill_threshold = x }) (stod value)
      else if str_eq flag "--epoch-ms"
      then set_by (λ x. record o { epoch_interval_ms = x }) (stod value)
      else no_option

  -- The loop over `argv` from its fourth entry; `none` is an exception. An option that wants a
  -- value and stands last is passed over, as any other argument is.
  unfoldable pub parse_options : List String → Options D → Option (Options D)
  parse_options [] o = some o
  parse_options (flag ∷ []) o =
      some (if str_eq flag "--trace" then record o { trace_mode = true } else o)
  parse_options (flag ∷ value ∷ rest) o =
      let traced = parse_options (value ∷ rest) (record o { trace_mode = true }) in
      let passed = parse_options (value ∷ rest) o in
      if str_eq flag "--trace" then traced else elim (valued_option flag value o) [
        | no_option ↦ passed
        | malformed ↦ none
        | set o' ↦ parse_options rest o'
      ]

-- How far `main` comes with its arguments, before it looks at its user and at the workload.
pub data Start (D : Type 0) : Type 0 where
  usage uncaught unknown_policy : Start D
  ready : ℤ → Options D → Policy D → Start D

module _ {D : Type 0} ⦃f : Float D⦄ (readers : Readers D) where
  -- `set_fill_threshold`, and `set_margins` if both overrides are given.
  unfoldable pub configured : Options D → Policy D → Policy D
  configured o policy =
      let filled = set_policy_fill_threshold o.fill_threshold policy in
      if f.le (f.of_int (pos 0)) o.abs_thresh && f.le (f.of_int (pos 0)) o.demote_margin
      then set_policy_margins o.abs_thresh o.demote_margin filled
      else filled

  -- What follows the loop over the options.
  with_policy : ℤ → String → Option (Options D) → Start D
  unfolding configured
  with_policy pid name none = uncaught
  with_policy pid name (some o) = elim (get_policy name) [
    | none ↦ unknown_policy
    | some policy ↦ ready pid o (configured o policy)
  ]

  with_pid : String → Option ℤ → List String → Start D
  unfolding with_policy parse_options
  with_pid name none args = uncaught
  with_pid name (some pid) args = with_policy pid name (parse_options readers args default_options)

  -- `main` on `argv` less the program's name.
  unfoldable pub start : List String → Start D
  unfolding with_pid
  start (name ∷ flag ∷ pid ∷ args) =
      if str_eq flag "--pid" then with_pid name (readers.stoi pid) args else usage
  start _ = usage
