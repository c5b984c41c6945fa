-- ===== src/Mimic/Layout/WriteBack/Examples.antt =====
-- Concrete inputs for the theorems of WriteBack.
use cobol_java_migrator_v.Mimic.Layout.{
  packed, Picture, Field, Item, build_layout, check_names, encode,
}
use cobol_java_migrator_v.Mimic.Layout.WriteBack.{render, encode-render}
use cobol_java_migrator_v.Prelude.{
  ℕ, String, ◌≡◌, true, false, none, some, List, [], ◌∷◌, Result, ok, ◌>>◌,
}
use cobol_java_migrator_v.Prelude.Dict.{Dict}

abbrev numeric : ℕ → Picture
numeric n = record {
  starts_x = false;
  has_nine = true;
  x_count = 0;
  whole_digits = n;
  frac_digits = 2;
  is_signed = true;
}

abbrev items : List Item
items =
    record { simple_name = "ACCT-ID"; picture = numeric 9; usage = none; occurs = none }
    ∷ record { simple_name = "ACCT-BAL"; picture = numeric 10; usage = some packed; occurs = none }
    ∷ []

abbrev cell_bytes : Field → List ℕ → Result String (List ℕ)
cell_bytes f bytes = ok bytes

abbrev refused : String → String
refused name = name

abbrev given_values : Dict String (List ℕ)
given_values = ("ACCT-ID", 49 ∷ 50 ∷ []) ∷ []

encode-render_example : encode cell_bytes refused (build_layout items) given_values ≡ (
    check_names cell_bytes refused (build_layout items) given_values
    >> render cell_bytes refused (build_layout items) given_values)
encode-render_example = encode-render cell_bytes refused items given_values
