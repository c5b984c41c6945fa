-- ===== src/Equivalence/RecordLayout.antt =====
-- The byte spans of a record (src/cobol_modernizer/equivalence/record_layout.py). A picture is given
-- by what the code counts in it: its digit and character positions, and its scale.
mod Sizes
use cobol_java_migrator_v.Prelude.{
  ℕ, ◌+◌, ◌/◌, String, List, [], ◌∷◌, nat_eq, string_eq, pair_eq, option_eq, length,
}

pub record Picture : Type 0 where
  pub digit_count : ℕ
  pub pic_scale : ℕ

pub data Usage : Type 0 where
  comp3 : Usage
  other_usage : Usage

pub pic_size : Picture → Usage → ℕ
pic_size p comp3 = (p.digit_count + 1) / 2 + 1
pic_size p other_usage = p.digit_count

pub record Spec : Type 0 where
  pub name : String
  pub picture : Picture
  pub usage : Usage

pub record Field : Type 0 where
  pub name : String
  pub picture : Picture
  pub usage : Usage
  pub offset : ℕ
  pub length : ℕ
  pub scale : ℕ

unfoldable pub field_at : ℕ → Spec → Field
field_at offset f = record {
  name = f.name;
  picture = f.picture;
  usage = f.usage;
  offset = offset;
  length = pic_size f.picture f.usage;
  scale = f.picture.pic_scale;
}

unfoldable pub layout_from : ℕ → List Spec → List Field
layout_from offset [] = []
layout_from offset (f ∷ fs) =
    field_at offset f ∷ layout_from (offset + pic_size f.picture f.usage) fs

unfoldable pub build_layout : List Spec → List Field
build_layout fields = layout_from 0 fields

-- Layout.length
unfoldable layout_length : List Field → ℕ
layout_length [] = 0
layout_length (f ∷ fs) = f.length + layout_length fs
