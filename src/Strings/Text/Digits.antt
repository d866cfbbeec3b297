-- ===== src/Strings/Text/Digits.antt =====
-- What strtol reads from decimal digits.
use fos_simple_os.Prelude.{ℕ, ◌+◌, ◌*◌, ◌<◌, ◌≡◌, refl, List, [], ◌∷◌, some, arith, u32, sub32}
use fos_simple_os.Strings.Text.{digit_value, read_digits, strtol}

digit_value-digit : (d : ℕ) → d < 10 → digit_value (d + 48) ≡ some d
unfolding digit_value
digit_value-digit d h = ground arith

pub read_digits-digit :
    (val d : ℕ) (s : List ℕ)
    → d < 10
    → read_digits 10 val ((d + 48) ∷ s) ≡ read_digits 10 (u32 (val * 10 + d)) s
unfolding read_digits
read_digits-digit val d s h = rw (read_digits, digit_value-digit d h) (ground arith)

pub read_digits-end : (val : ℕ) → read_digits 10 val [] ≡ (val, [])
unfolding read_digits
read_digits-end val = refl

-- A number that starts with a digit has no sign and, in base 10, no prefix.
pub strtol-digit :
    (d : ℕ) (s : List ℕ) → d < 10 → strtol ((d + 48) ∷ s) 10 ≡ read_digits 10 0 ((d + 48) ∷ s)
unfolding strtol
strtol-digit d [] h = ground arith
strtol-digit d (c ∷ s) h = ground arith

pub strtol-minus :
    (d : ℕ) (s : List ℕ)
    → d < 10
    → strtol (b'-' ∷ (d + 48) ∷ s) 10
      ≡ (sub32 0 (read_digits 10 0 ((d + 48) ∷ s)).0, (read_digits 10 0 ((d + 48) ∷ s)).1)
unfolding strtol
strtol-minus d [] h = refl
strtol-minus d (c ∷ s) h = refl
