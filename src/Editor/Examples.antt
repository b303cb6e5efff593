-- ===== src/Editor/Examples.antt =====
-- Instances of the theorems on the modes and the gate.
use gitglasses.Editor.Modes.{
  status_bar_text, switch_all-restores, initial_mode_state, switch_all, FeatureStates, normal, zen,
  review,
}
use gitglasses.Base.{codes, Option, refl, [], ◌∷◌, true, false, none, some, ◌≡◌}
use gitglasses.Editor.Gate.{is_method_available-restricted, EngineCapabilities, is_method_available}

abbrev mixed : FeatureStates
mixed = record { line_blame = true; file_annotations = false; code_lens = true }

switch_all-restores_example :
    (switch_all (zen ∷ review ∷ normal ∷ []) initial_mode_state mixed).1 ≡ mixed
switch_all-restores_example = switch_all-restores (zen ∷ review ∷ []) mixed

abbrev without_cli : Option EngineCapabilities
without_cli = some (record { git_cli = some false; restricted = none })

is_method_available-restricted_example : is_method_available without_cli (codes "blame/file") ≡ true
unfolding is_method_available
is_method_available-restricted_example =
    is_method_available-restricted (codes "blame/file") none without_cli refl

status_bar_text_run : status_bar_text normal ≡ none
unfolding status_bar_text
status_bar_text_run = refl
