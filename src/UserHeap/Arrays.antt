-- ===== src/UserHeap/Arrays.antt =====
-- Sums over the entries of `spaces`, and the entries that its loops find.
use fos_simple_os.Prelude.{
  ℕ, suc, zero, ◌+◌, ◌≡◌, refl, List, [], ◌∷◌, ◌++◌, Bool, true, false, arith, none, some,
  get_elem?, set, All, Bool-cases, ◌⊎◌, inl, inr,
}
use native.Mathlib.Numerals.{add-one}
use fos_simple_os.UserHeap.{Space, find}

-- The sum of a weight over all entries.
unfoldable pub total : (Space → ℕ) → List Space → ℕ
total w [] = 0
total w (sp ∷ l) = w sp + total w l

pub total-append : (w : Space → ℕ) (l r : List Space) → total w (l ++ r) ≡ total w l + total w r
unfolding total
total-append w [] r = omega arith
total-append w (sp ∷ l) r = omega (arith, total-append w l r)

pub total-set :
    (w : Space → ℕ) (l : List Space) (i : ℕ) (old new : Space)
    → get_elem? l i ≡ some old
    → total w (set l i new) + w old ≡ total w l + w new
unfolding total
total-set w [] i old new e = absurd (cc)
total-set w (sp ∷ l) zero old new e = ground arith
total-set w (sp ∷ l) (suc i) old new e = omega (arith, total-set w l i old new e)

pub All-set :
    (P : Space → Type 0) (l : List Space) (i : ℕ) (new : Space)
    → All P l
    → P new
    → All P (set l i new)
All-set P [] i new h p = h
All-set P (sp ∷ l) zero new h p = (p, h.1)
All-set P (sp ∷ l) (suc i) new h p = (h.0, All-set P l i new h.1 p)

-- A search loop either passes over the whole array, or stops at an entry with the property.
abbrev pub Found : (Space → Bool) → List Space → Type 0
Found p l =
    ((find p l ≡ none) × All (λ sp. p sp ≡ false) l)
    ⊎ ((i : ℕ) × (sp : Space) × (find p l ≡ some (i, sp))
        × (get_elem? l i ≡ some sp)
        × (p sp ≡ true))

find-later :
    (p : Space → Bool) (x : Space) (l : List Space) → p x ≡ false → Found p l → Found p (x ∷ l)
unfolding find
find-later p x l f (inl (e, a)) = inl (rw (f, e), (f, a))
find-later p x l f (inr (i, sp, e, g, t)) = inr (i + 1, sp, rw (f, e), rw add-one g, t)

pub find-cases : (p : Space → Bool) (l : List Space) → Found p l
unfolding find
find-cases p [] = inl (refl, tt)
find-cases p (x ∷ l) = elim (Bool-cases (p x)) [
  | inl t ↦ inr (0, x, rw t, refl, t)
  | inr f ↦ find-later p x l f (find-cases p l)
]
