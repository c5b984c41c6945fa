-- ===== src/Mimic/Layout.antt =====
-- The fixed-width layout of a copybook record and the write-back
-- (src/cobol_modernizer/mimic/layout.py and writeback.py). A picture is given by what the code's
-- regular expressions count in it.
mod Spans
mod WriteBack
use cobol_java_migrator_v.Prelude.{
  ℕ, ◌+◌, ◌-◌, ◌*◌, ◌/◌, String, Bool, true, false, not, ◌&&◌, Option, none, some, List, [], ◌∷◌,
  ◌++◌, eqb, if◌then◌else◌, or_else, Result, ok, err, ◌>>◌, ◌==◌, nat_eq, string_eq, pair_eq,
  option_eq, length, take, drop, replicate, any,
}
use cobol_java_migrator_v.Prelude.Dict.{Dict, get, put, values}
use mathlib.Core.Option

-- usage: "COMP-3" or "PACKED-DECIMAL", another text that starts with "COMP", or anything else.
pub data Usage : Type 0 where
  packed : Usage
  other_comp : Usage
  display : Usage

-- starts_x and has_nine: `pic.startswith("X")` and `"9" in pic`; the counts of _PIC_X in it and of
-- _PIC_NUM before and behind the first V; is_signed: `pic.startswith("S")`.
pub record Picture : Type 0 where
  pub starts_x : Bool
  pub has_nine : Bool
  pub x_count : ℕ
  pub whole_digits : ℕ
  pub frac_digits : ℕ
  pub is_signed : Bool

pub record Field : Type 0 where
  pub name : String
  pub offset : ℕ
  pub length : ℕ
  pub picture : Picture
  pub usage : Usage
  pub scale : ℕ
  pub signed : Bool

-- A DataItem of the graph: none for a missing OCCURS or USAGE.
pub record Item : Type 0 where
  pub simple_name : String
  pub picture : Picture
  pub usage : Option Usage
  pub occurs : Option ℕ

unfoldable pub digits_and_scale : Picture → ℕ × ℕ
digits_and_scale p = (p.whole_digits + p.frac_digits, p.frac_digits)

unfoldable pub is_packed_width : Option Usage → Bool
is_packed_width (some packed) = true
is_packed_width _ = false

unfoldable pub pic_width : Picture → Option Usage → ℕ
pic_width p usage =
    if p.starts_x && not p.has_nine
    then p.x_count
    else if is_packed_width usage
    then ((digits_and_scale p).0 + 2) / 2
    else (digits_and_scale p).0

-- `occurs or 1`
unfoldable repeats : Option ℕ → ℕ
repeats none = 1
repeats (some n) = if eqb n 0 then 1 else n

pub field_of : ℕ → Item → Field
field_of offset it = record {
  name = it.simple_name;
  offset = offset;
  length = pic_width it.picture (some (or_else it.usage display)) * repeats it.occurs;
  picture = it.picture;
  usage = or_else it.usage display;
  scale = if it.picture.has_nine then (digits_and_scale it.picture).1 else 0;
  signed = it.picture.is_signed;
}

pub build_from : ℕ → List Item → List Field
build_from offset [] = []
build_from offset (it ∷ items) =
    let f = field_of offset it in f ∷ build_from (offset + f.length) items

unfoldable pub build_layout : List Item → List Field
build_layout items = build_from 0 items

-- LegacyMimicWriter._reclen
pub reclen : List Field → ℕ
reclen [] = 0
reclen (f ∷ fs) = f.length + reclen fs

unfoldable pub is_packed : Field → Bool
is_packed f = elim f.usage [ display ↦ false | _ ↦ true ]

unfoldable pub digits : Field → ℕ
digits f = if is_packed f then f.length * 2 - 1 else f.length

-- buf[offset:offset + len(cell)] = cell, within the buffer.
pub overwrite : ℕ → List ℕ → List ℕ → List ℕ
overwrite offset cell buf = take offset buf ++ cell ++ drop (offset + length cell) buf

-- cell.ljust(n, fill)[:n]
pub fitted : ℕ → ℕ → List ℕ → List ℕ
fitted n fill cell = take n (cell ++ replicate (n - length cell) fill)

unfoldable pub fill_of : Field → ℕ
fill_of f = if is_packed f then 0 else 32

-- The value written into a field: none for FILLER and for a name without a value.
unfoldable pub value_of : {V : Type 0} → Field → Dict String V → Option V
value_of f values = if f.name == "FILLER" then none else get f.name values

-- The bytes that _encode_field gives for a value are an argument; it may raise.
module _ {V E : Type 0} (encode_field : Field → V → Result E (List ℕ)) (unknown : String → E) where
  -- The KeyError for a name that no field has.
  unfoldable pub check_names : List Field → Dict String V → Result E (Unit {0})
  check_names layout [] = ok tt
  check_names layout ((name, v) ∷ rest) =
      if any (λ f. f.name == name) layout then check_names layout rest else err (unknown name)

  pub write_fields : List Field → Dict String V → List ℕ → Result E (List ℕ)
  write_fields [] values buf = ok buf
  write_fields (f ∷ fs) values buf = elim (value_of f values) [
    | none ↦ write_fields fs values buf
    | some v ↦ elim (encode_field f v) [
      | err e ↦ err e
      | ok cell ↦ write_fields fs values (overwrite f.offset (fitted f.length (fill_of f) cell) buf)
    ]
  ]

  pub encode : List Field → Dict String V → Result E (List ℕ)
  encode layout values =
      check_names layout values >> write_fields layout values (replicate (reclen layout) 32)

-- The raw bytes of a field, record[f.offset:f.offset + f.length].
unfoldable raw_of : Field → List ℕ → List ℕ
raw_of f record_bytes = take f.length (drop f.offset record_bytes)

-- _decode_field is an argument; a later field of one name replaces an earlier one.
module _ {V E : Type 0} (decode_field : Field → List ℕ → Result E V) where
  unfoldable decode_from : List Field → List ℕ → Dict String V → Result E (Dict String V)
  decode_from [] bytes out = ok out
  decode_from (f ∷ fs) bytes out =
      if f.name == "FILLER"
      then decode_from fs bytes out
      else elim (decode_field f (raw_of f bytes)) [
        | err e ↦ err e
        | ok v ↦ decode_from fs bytes (put f.name v out)
      ]

  decode : List Field → List ℕ → Result E (Dict String V)
  unfolding decode_from raw_of
  decode layout bytes = decode_from layout bytes []
