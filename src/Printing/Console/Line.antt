-- ===== src/Printing/Console/Line.antt =====
-- What readline writes.
use fos_simple_os.Prelude.{
  ℕ, ◌+◌, ◌-◌, ◌%◌, ◌^◌, ◌<◌, ◌≡◌, refl, ◌∙◌, List, [], ◌∷◌, Bool, true, false, ◌&&◌, ◌||◌, ◌==◌,
  ltb, leb, arith, inl, inr,
}
use fos_simple_os.Strings.{store}
use fos_simple_os.Strings.Text.Copy.{Only, Outside, Only-Outside, store_ne}
use fos_simple_os.Printing.Console.{Read, line, stopped, waiting, readline}

abbrev pub memory_of : Read → ℕ → ℕ
memory_of (line m) = m
memory_of (stopped m) = m
memory_of (waiting m i) = m

-- One store within the buffer.
within :
    (m m' : ℕ → ℕ) (buf i v : ℕ)
    → i < 1024
    → Only (store m (buf + i) v) m' buf 1024
    → Only m m' buf 1024
within m m' buf i v lt h q (inl a) = h q (inl a) ∙ store_ne m (buf + i) v q (inl (omega arith))
within m m' buf i v lt h q (inr a) = h q (inr a) ∙ store_ne m (buf + i) v q (inr (omega arith))

-- Both branches have the property.
branches :
    (P : Read → Type 0) (b : Bool) {x y : Read}
    → (b ≡ true → P x)
    → (b ≡ false → P y)
    → P (elim b [ true ↦ x | false ↦ y ])
branches P true h k = h refl
branches P false h k = k refl

inside : (c i : ℕ) → (leb b' ' c && ltb i (1024 - 1)) ≡ true → i + 1 < 1024
inside c i h = ground arith

readline-Only :
    (m : ℕ → ℕ) (buf i : ℕ) (input : List ℕ)
    → i < 1024
    → Only m (memory_of (readline m buf i input)) buf 1024
unfolding readline
readline-Only m buf i [] lt = λ q h. refl
readline-Only m buf i (c ∷ input) lt =
    let P : Read → Type 0 = λ r. Only m (memory_of r) buf 1024 in
    branches P (leb (2 ^ 31) c) (λ a q h. refl)
      (λ a.
        branches P (leb b' ' c && ltb i (1024 - 1))
          (λ b.
            within m (memory_of (readline (store m (buf + i) (c % 256)) buf (i + 1) input)) buf i
              (c % 256) lt
              (readline-Only (store m (buf + i) (c % 256)) buf (i + 1) input (inside c i b)))
          (λ b.
            branches P (c == 8 && ltb 0 i) (λ d. readline-Only m buf (i - 1) input (omega arith))
              (λ d.
                branches P (c == 10 || c == 13)
                  (λ e. within m (store m (buf + i) 0) buf i 0 lt (λ q h. refl))
                  (λ e. readline-Only m buf i input lt))))

-- readline writes nothing outside of the 1024 bytes of its buffer, whatever characters it gets.
pub readline-bounds :
    (m : ℕ → ℕ) (buf : ℕ) (input : List ℕ) → Outside m (memory_of (readline m buf 0 input)) buf 1024
readline-bounds m buf input = Only-Outside m _ buf 1024 (readline-Only m buf 0 input (omega arith))
