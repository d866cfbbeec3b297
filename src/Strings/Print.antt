-- ===== src/Strings/Print.antt =====
-- ltostr stops at a zero digit.
use fos_simple_os.Prelude.{ℕ, suc, ◌+◌, ◌/◌, ◌%◌, ◌^◌, ◌<◌, ◌≡◌, refl, ap, ◌∙◌, false, leb, arith}
use fos_simple_os.Strings.{store, put_digits, swap_ends, ltostr}

one_digit :
    (k value str s : ℕ) (m : ℕ → ℕ)
    → value / 10 % 10 ≡ 0
    → put_digits (suc k) value str s m ≡ (store m (str + s) (value % 10 + 48), s + 1)
unfolding put_digits
one_digit k value str s m h = rw h refl

swap_none : (k str s : ℕ) (m : ℕ → ℕ) → swap_ends (suc k) str s s m ≡ m
unfolding swap_ends
swap_none k str s m = ground arith

leb-small : (value : ℕ) → value < 2 ^ 31 → leb (2 ^ 31) value ≡ false
leb-small value h = ground arith

one_digit-ltostr :
    (m : ℕ → ℕ) (value str : ℕ)
    → value < 2 ^ 31
    → value / 10 % 10 ≡ 0
    → ltostr m value str ≡ store (store m (str + 0) (value % 10 + 48)) (str + 1) 0
unfolding ltostr
one_digit-ltostr m value str b h =
    rw
      (
        leb-small value b,
        one_digit 9 value str 0 m h,
        swap_none 9 str 0 (store m (str + 0) (value % 10 + 48)),
      )
      refl

-- ltostr of a number that is not negative and whose tens digit is 0 writes its last digit and the
-- end of the string behind it, whatever the digits before are.
pub ltostr-loses_digits :
    (m : ℕ → ℕ) (value str : ℕ)
    → value < 2 ^ 31
    → value / 10 % 10 ≡ 0
    → (ltostr m value str str ≡ value % 10 + 48) × (ltostr m value str (str + 1) ≡ 0)
ltostr-loses_digits m value str b h =
    let q = one_digit-ltostr m value str b h in
    (ap (λ f. f str) q ∙ ground arith, ap (λ f. f (str + 1)) q ∙ ground arith)
