-- ===== src/Mimic/Layout/Spans.antt =====
-- The spans of a layout.
mod Examples
use cobol_java_migrator_v.Prelude.{
  ℕ, ◌+◌, ◌≡◌, refl, ap, List, [], ◌∷◌, map, nat_eq, string_eq, pair_eq, option_eq, length,
}
use cobol_java_migrator_v.Mimic.Layout.{Field, Item, field_of, build_from, build_layout}

-- Each field begins where the one before it ends, the first at the given offset.
unfoldable pub IsContiguous : ℕ → List Field → Type 0
IsContiguous offset [] = Unit
IsContiguous offset (f ∷ fs) = (f.offset ≡ offset) × IsContiguous (offset + f.length) fs

build_from-IsContiguous :
    (offset : ℕ) (items : List Item) → IsContiguous offset (build_from offset items)
unfolding build_from IsContiguous field_of
build_from-IsContiguous offset [] = tt
build_from-IsContiguous offset (it ∷ items) =
    (refl, build_from-IsContiguous (offset + (field_of offset it).length) items)

names_kept :
    (offset : ℕ) (items : List Item)
    → map (λ f. f.name) (build_from offset items) ≡ map (λ i. i.simple_name) items
unfolding build_from field_of
names_kept offset [] = refl
names_kept offset (it ∷ items) =
    ap (λ l. it.simple_name ∷ l) (names_kept (offset + (field_of offset it).length) items)

-- A layout has one field to an item, in the items' order and under their names, and its fields tile
-- the record from offset 0 without a gap or an overlap.
pub build_layout-IsContiguous :
    (items : List Item)
    → IsContiguous 0 (build_layout items)
      × (map (λ f. f.name) (build_layout items) ≡ map (λ i. i.simple_name) items)
unfolding build_layout
build_layout-IsContiguous items = (build_from-IsContiguous 0 items, names_kept 0 items)
