-- ===== src/Plugin/Witnesses.antt =====
-- The theorem on selection at a concrete input: three tests and two steps.
use pytest_hardware_template.Prelude.{List, [], ◌∷◌, ◌≡◌, refl}
use pytest_hardware_template.Plugin.{Item, apply_marker_sequence}
use pytest_hardware_template.Plugin.Selection.{
  by_step, filtered, has_none, NoneEmpty, apply_marker_sequence-by_step,
}

abbrev soak : Item
soak = record { nodeid = "test_soak"; path_parts = "tests" ∷ []; markers = "soak" ∷ [] }

abbrev boot : Item
boot = record { nodeid = "test_boot"; path_parts = "tests" ∷ []; markers = "smoke" ∷ [] }

abbrev unit : Item
unit = record { nodeid = "test_unit"; path_parts = "tests" ∷ []; markers = [] }

abbrev items : List Item
items = soak ∷ unit ∷ boot ∷ []

apply_marker_sequence-by_step_example :
    (boot ∷ soak ∷ [] ≡ by_step ("smoke" ∷ "soak" ∷ []) items)
    × (unit ∷ [] ≡ filtered (has_none ("smoke" ∷ "soak" ∷ [])) items)
    × NoneEmpty ("smoke" ∷ "soak" ∷ []) items
unfolding apply_marker_sequence
apply_marker_sequence-by_step_example =
    apply_marker_sequence-by_step ("smoke" ∷ "soak" ∷ []) items (boot ∷ soak ∷ []) (unit ∷ []) refl
