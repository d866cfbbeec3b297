-- ===== src/Strings/Tests.antt =====
-- memmove of overlapping objects, and ltostr of 105.
use fos_simple_os.Prelude.{ℕ, ◌+◌, ◌≡◌, refl, inl, arith}
use fos_simple_os.Strings.{memmove, ltostr}
use fos_simple_os.Strings.Move.{memmove-copies}
use fos_simple_os.Strings.Print.{ltostr-loses_digits}

abbrev counting : ℕ → ℕ
counting p = p + 30

memmove-copies_example : (memmove counting 12 10 5 14 ≡ 42) × (memmove counting 12 10 5 11 ≡ 41)
memmove-copies_example = memmove-copies counting 12 10 5 2 11 (omega arith) (inl (omega arith))

ltostr-loses_digits_example : (ltostr counting 105 0 0 ≡ 53) × (ltostr counting 105 0 1 ≡ 0)
ltostr-loses_digits_example = ltostr-loses_digits counting 105 0 (omega arith) refl
