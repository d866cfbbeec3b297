-- ===== src/Printing/Numbers.antt =====
-- The digits that printnum prints, read by strtol.
use fos_simple_os.Prelude.{
  ℕ, zero, suc, ◌+◌, ◌-◌, ◌/◌, ◌%◌, ◌^◌, ◌<◌, ◌≤◌, ◌≡◌, ap, ap₂, sym, ◌∙◌, true, false, List, [],
  ◌∷◌, ◌++◌, append_assoc, append-nil, if◌then◌else◌, arith, u32, ltb, leb, sub32, Bool-cases, ◌⊎◌,
  inl, inr, codes,
}
use native.Mathlib.Nat.{two-pow-succ}
use fos_simple_os.Strings.Text.{read_digits, strtol}
use fos_simple_os.Strings.Text.Digits.{
  read_digits-digit, read_digits-end, strtol-digit, strtol-minus,
}
use fos_simple_os.Printing.{
  digit, printnum, decimal, no_flags, number, chars, int, escape, switch, printfmt,
}

digit-small : (d : ℕ) → d < 10 → digit d ≡ d + 48
digit-small d h = ground arith

halves : (num fuel : ℕ) → num < 2 ^ suc fuel → num / 10 < 2 ^ fuel
halves num fuel h = omega (arith, two-pow-succ fuel)

-- One step of printnum without a width.
printnum-step :
    (fuel num : ℕ)
    → printnum (suc fuel) num 10 0 b' '
      ≡ (if leb 10 num then printnum fuel (num / 10) 10 0 b' ' else []) ++ (num % 10 + 48) ∷ []
unfolding printnum
printnum-step fuel num =
    ap (λ c. (if leb 10 num then printnum fuel (num / 10) 10 0 b' ' else []) ++ c ∷ [])
      (digit-small (num % 10) (omega arith))

printnum-small : (fuel num : ℕ) → num < 10 → printnum (suc fuel) num 10 0 b' ' ≡ (num + 48) ∷ []
printnum-small fuel num h =
    let test : leb 10 num ≡ false = ground arith in
    let last : num % 10 + 48 ≡ num + 48 = omega arith in
    printnum-step fuel num
    ∙ ap₂ (λ b c. (if b then printnum fuel (num / 10) 10 0 b' ' else []) ++ c ∷ []) test last

printnum-large :
    (fuel num : ℕ)
    → 10 ≤ num
    → printnum (suc fuel) num 10 0 b' ' ≡ printnum fuel (num / 10) 10 0 b' ' ++ (num % 10 + 48) ∷ []
printnum-large fuel num h =
    let test : leb 10 num ≡ true = ground arith in
    printnum-step fuel num
    ∙ ap (λ b. (if b then printnum fuel (num / 10) 10 0 b' ' else []) ++ (num % 10 + 48) ∷ []) test

lt_or_le : (a b : ℕ) → (a < b) ⊎ (b ≤ a)
lt_or_le a b = ground arith

pub printnum-read :
    (fuel num : ℕ) (s : List ℕ)
    → num < 2 ^ fuel
    → num < 2 ^ 32
    → read_digits 10 0 (printnum fuel num 10 0 b' ' ++ s) ≡ read_digits 10 num s
unfolding printnum
printnum-read zero num s h k = ap (λ n. read_digits 10 n s) (omega arith)
printnum-read (suc fuel) num s h k = elim (lt_or_le num 10) [
  | inl small ↦
      ap (λ l. read_digits 10 0 (l ++ s)) (printnum-small fuel num small)
      ∙ read_digits-digit 0 num s small
      ∙ ap (λ n. read_digits 10 n s) (omega arith)
  | inr large ↦
      ap (λ l. read_digits 10 0 (l ++ s)) (printnum-large fuel num large)
      ∙ ap (read_digits 10 0) (append_assoc (printnum fuel (num / 10) 10 0 b' ') _ s)
      ∙ printnum-read fuel (num / 10) ((num % 10 + 48) ∷ s) (halves num fuel h) (omega arith)
      ∙ read_digits-digit (num / 10) (num % 10) s (omega arith)
      ∙ ap (λ n. read_digits 10 n s) (omega arith)
]

-- A digit stands first.
abbrev Digital : List ℕ → Type 0
Digital l = (d : ℕ) × (tail : List ℕ) × (d < 10) × (l ≡ (d + 48) ∷ tail)

printnum-Digital : (fuel num : ℕ) → num < 2 ^ fuel → Digital (printnum (suc fuel) num 10 0 b' ')
printnum-Digital zero num h = (num, [], omega arith, printnum-small zero num (omega arith))
printnum-Digital (suc fuel) num h = elim (lt_or_le num 10) [
  | inl small ↦ (num, [], small, printnum-small (suc fuel) num small)
  | inr large ↦
      let (d, tail, lt, e) = printnum-Digital fuel (num / 10) (halves num fuel h) in
      (
        d,
        tail ++ (num % 10 + 48) ∷ [],
        lt,
        printnum-large (suc fuel) num large ∙ ap (λ l. l ++ (num % 10 + 48) ∷ []) e,
      )
]

-- strtol of a number printed without a sign, and with a '-'.
number-strtol : (num : ℕ) → num < 2 ^ 32 → strtol (number no_flags num 10) 10 ≡ (num, [])
number-strtol num h =
    let (d, tail, lt, e) = printnum-Digital 63 num (omega arith) in
    ap (λ l. strtol l 10) e
    ∙ strtol-digit d tail lt
    ∙ ap (read_digits 10 0) (sym e ∙ sym (append-nil _))
    ∙ printnum-read 64 num [] (omega arith) h
    ∙ read_digits-end num

minus-strtol :
    (num : ℕ) → num < 2 ^ 32 → strtol (b'-' ∷ number no_flags num 10) 10 ≡ (sub32 0 num, [])
minus-strtol num h =
    let (d, tail, lt, e) = printnum-Digital 63 num (omega arith) in
    let read : read_digits 10 0 ((d + 48) ∷ tail) ≡ (num, []) =
      ap (read_digits 10 0) (sym e ∙ sym (append-nil _))
      ∙ printnum-read 64 num [] (omega arith) h
      ∙ read_digits-end num in
    ap (λ l. strtol (b'-' ∷ l) 10) e ∙ strtol-minus d tail lt ∙ ap (λ r. (sub32 0 r.0, r.1)) read

-- What "%d" prints of an int, strtol reads in base 10 as the same int, to the end of the text.
pub decimal-strtol : (n : ℕ) → strtol (decimal no_flags n) 10 ≡ (u32 n, [])
unfolding decimal
decimal-strtol n = elim (Bool-cases (ltb (u32 n) (2 ^ 31))) [
  | inl plain ↦ rw plain (number-strtol (u32 n) (omega arith))
  | inr negative ↦
      rw negative (
        minus-strtol (2 ^ 32 - u32 n) (large (u32 n) negative)
        ∙ ap (λ k. (k, [])) (back n negative))
]
  where
    large : (k : ℕ) → ltb k (2 ^ 31) ≡ false → 2 ^ 32 - k < 2 ^ 32
    large k h = ground arith

    back : (k : ℕ) → ltb (u32 k) (2 ^ 31) ≡ false → sub32 0 (2 ^ 32 - u32 k) ≡ u32 k
    back k h = ground arith

printfmt-decimal : (n : ℕ) → printfmt (codes "%d") (int n ∷ []) ≡ chars (decimal no_flags n)
unfolding printfmt escape switch
printfmt-decimal n = ap chars (append-nil (decimal no_flags n))

-- printfmt prints an int with "%d" as a text that strtol reads in base 10 as the same word, up to the
-- end of the text.
pub printfmt-strtol :
    (n : ℕ)
    → (l : List ℕ) × (printfmt (codes "%d") (int n ∷ []) ≡ chars l) × (strtol l 10 ≡ (u32 n, []))
printfmt-strtol n = (decimal no_flags n, printfmt-decimal n, decimal-strtol n)
