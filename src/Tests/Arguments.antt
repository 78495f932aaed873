-- ===== src/Tests/Arguments.antt =====
-- Command lines of the daemon.
use os_research_codebase.Prelude.{
  ◌≡◌, refl, if◌then◌else◌, List, [], ◌∷◌, ◌++◌, Option, none, some, ℤ, pos, inl, inr,
}
use Prim.Native.String.{String}
use text.Mathlib.Text.{◌==◌ as str_eq}
use os_research_codebase.Float.Fixed.{fixed}
use os_research_codebase.Cusum.{new_detector}
use os_research_codebase.Policy.Dispatch.{Policy, get_policy, set_policy_fill_threshold}
use os_research_codebase.Daemon.Options.{
  Readers, default_options, ready, uncaught, configured, start,
}
use os_research_codebase.Daemon.Options.Choices.{
  Choice, all_arguments, choose_all, start-all_arguments, start_malformed,
}
use os_research_codebase.Daemon.Options.Margins.{start_one_margin}

abbrev read_number : String → Option ℤ
read_number text =
    if str_eq text "12" then some (pos 12) else if str_eq text "4711" then some (pos 4711) else none

abbrev reads : Readers ℤ
reads = record { stoi = read_number; stod = read_number }

-- An argument that is no option, and a setting given twice.
abbrev chosen : List (Choice ℤ)
chosen =
    Choice.other "verbose"
    ∷ Choice.slow_node "4711" (pos 4711)
    ∷ Choice.trace
    ∷ Choice.slow_node "12" (pos 12)
    ∷ Choice.trace_dir "--epoch-ms"
    ∷ []

start-all_arguments_example :
    start reads ("lru" ∷ "--pid" ∷ "4711" ∷ all_arguments chosen)
    ≡ ready
        (pos 4711)
        (choose_all chosen default_options)
        (configured reads (choose_all chosen default_options) Policy.lru)
unfolding get_policy
start-all_arguments_example =
    start-all_arguments reads "lru" "4711" (pos 4711) Policy.lru chosen refl refl
      (refl, (refl, (tt, (refl, (tt, tt)))))

start_malformed_example :
    start reads (
      "lru" ∷ "--pid" ∷ "4711" ∷ all_arguments chosen
      ++ "--max-promotions" ∷ "many" ∷ "--trace" ∷ [])
    ≡ uncaught
start_malformed_example =
    start_malformed reads "lru" "4711" (pos 4711) chosen "--max-promotions" "many" ("--trace" ∷ [])
      refl (refl, (refl, (tt, (refl, (tt, tt))))) (inl (inr (inr (inl refl)), refl))

-- The threshold without the margin.
abbrev one_margin : List (Choice ℤ)
one_margin = Choice.abs_thresh "12" (pos 12) ∷ Choice.fill_threshold "4711" (pos 4711) ∷ []

start_one_margin_example :
    start reads ("ml" ∷ "--pid" ∷ "4711" ∷ all_arguments one_margin)
    ≡ ready (pos 4711) (choose_all one_margin default_options) (
        set_policy_fill_threshold
          (choose_all one_margin default_options).fill_threshold
          (Policy.ml (record { fill_threshold = fixed.decimal 300 3; cusum = new_detector })))
unfolding get_policy fixed
start_one_margin_example =
    start_one_margin reads "ml" "4711" (pos 4711) _ one_margin refl refl refl (refl, (refl, tt))
      (inr (refl, (refl, tt)))
