-- ===== src/Equivalence/RecordLayout/Sizes.antt =====
-- The size of a packed field, here and in the write-back's layout.
use cobol_java_migrator_v.Prelude.{
  ◌+◌, ◌%◌, ◌≡◌, false, some, arith, nat_eq, string_eq, pair_eq, option_eq,
}
use cobol_java_migrator_v.Equivalence.RecordLayout.{Picture, comp3, pic_size}
use cobol_java_migrator_v.Mimic.Layout as Mimic

-- The two modules size a packed field of one digit count alike where the count is even; where it is
-- odd, the equivalence layout reserves one byte more than the write-back writes, and more than the
-- (digits + 1) / 2 bytes, rounded up, that its own comment gives.
pic_size-pic_width :
    (p : Picture) (q : Mimic.Picture)
    → q.whole_digits + q.frac_digits ≡ p.digit_count
    → q.starts_x ≡ false
    → (p.digit_count % 2 ≡ 0 → pic_size p comp3 ≡ Mimic.pic_width q (some Mimic.packed))
      × (p.digit_count % 2 ≡ 1 → pic_size p comp3 ≡ Mimic.pic_width q (some Mimic.packed) + 1)
unfolding pic_size Mimic.pic_width Mimic.is_packed_width Mimic.digits_and_scale
pic_size-pic_width p q same numeric = ground arith
