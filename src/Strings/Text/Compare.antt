-- ===== src/Strings/Text/Compare.antt =====
-- What the comparisons and the searches find.
use fos_simple_os.Prelude.{
  ℕ, zero, suc, ◌<◌, ◌≡◌, ◌≢◌, ◌↔◌, inl, inr, refl, ap, sym, ◌∙◌, List, [], ◌∷◌, All, take, arith,
  eq_or_ne, ==_refl, ==_ne, sub32,
}
use fos_simple_os.Strings.Text.{strcmp, strncmp}

-- The characters of a string are bytes other than the NUL.
abbrev pub IsText : List ℕ → Type 0
IsText = All (λ c. (c ≢ 0) × (c < 256))

sub32-eq : (c d : ℕ) → c < 256 → d < 256 → sub32 c d ≡ 0 → c ≡ d
sub32-eq c d h k e = omega arith

pub strcmp-same : (s : List ℕ) → strcmp s s ≡ 0
unfolding strcmp
strcmp-same [] = refl
strcmp-same (c ∷ s) = rw (==_refl c) (strcmp-same s)

strcmp-zero : (p q : List ℕ) → IsText p → IsText q → strcmp p q ≡ 0 → p ≡ q
unfolding strcmp
strcmp-zero [] [] hp hq e = refl
strcmp-zero [] (d ∷ q) hp hq e = absurd (omega arith)
strcmp-zero (c ∷ p) [] hp hq e = absurd (hp.0.0 e)
strcmp-zero (c ∷ p) (d ∷ q) hp hq e = elim (eq_or_ne c d) [
  | inl eq ↦
      ap (λ x. x ∷ p) eq ∙ ap (λ l. d ∷ l) (strcmp-zero p q hp.1 hq.1 (rw (eq, ==_refl d) at e))
  | inr ne ↦ absurd (ne (sub32-eq c d hp.0.1 hq.0.1 (rw (==_ne c d ne) at e)))
]

-- strcmp gives 0 for two strings exactly when they are the same.
pub strcmp-equal : (p q : List ℕ) → IsText p → IsText q → (strcmp p q ≡ 0) ↔ (p ≡ q)
strcmp-equal p q hp hq = (strcmp-zero p q hp hq, λ e. ap (λ l. strcmp p l) (sym e) ∙ strcmp-same p)

-- strncmp is strcmp of what the first `n` characters of the strings are.
pub strncmp-take : (p q : List ℕ) (n : ℕ) → strncmp p q n ≡ strcmp (take n p) (take n q)
unfolding strncmp strcmp
strncmp-take p q zero = refl
strncmp-take [] [] (suc n) = refl
strncmp-take [] (d ∷ q) (suc n) = refl
strncmp-take (c ∷ p) [] (suc n) = refl
strncmp-take (c ∷ p) (d ∷ q) (suc n) = rw (strncmp-take p q n) refl
