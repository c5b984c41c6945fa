-- ===== src/Mimic/Layout/Spans/Examples.antt =====
-- Concrete inputs for the theorems of Spans.
use cobol_java_migrator_v.Mimic.Layout.{packed, Picture, Item, build_layout}
use cobol_java_migrator_v.Mimic.Layout.Spans.{IsContiguous, build_layout-IsContiguous}
use cobol_java_migrator_v.Prelude.{ℕ, ◌≡◌, true, false, none, some, List, [], ◌∷◌, map}

abbrev numeric : ℕ → Picture
numeric n = record {
  starts_x = false;
  has_nine = true;
  x_count = 0;
  whole_digits = n;
  frac_digits = 2;
  is_signed = true;
}

abbrev items : List Item
items =
    record { simple_name = "ACCT-ID"; picture = numeric 9; usage = none; occurs = none }
    ∷ record { simple_name = "ACCT-BAL"; picture = numeric 10; usage = some packed; occurs = none }
    ∷ []

build_layout-IsContiguous_example :
    IsContiguous 0 (build_layout items)
    × (map (λ f. f.name) (build_layout items) ≡ map (λ i. i.simple_name) items)
build_layout-IsContiguous_example = build_layout-IsContiguous items
