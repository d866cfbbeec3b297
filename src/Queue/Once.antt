-- ===== src/Queue/Once.antt =====
-- Lists that repeat nothing, taken apart and put together.
use fos_simple_os.Prelude.{
  ℕ, ◌≡◌, refl, sym, ap, ◌⊎◌, inl, inr, List, [], ◌∷◌, ◌++◌, All, All-append, append-All, NotIn,
  Distinct, ◌≢◌,
}

-- No node of the first list stands in the second.
abbrev pub Apart : List ℕ → List ℕ → Type 0
Apart l r = All (λ a. NotIn a r) l

pub Apart-nil : (l : List ℕ) → Apart l []
Apart-nil [] = tt
Apart-nil (x ∷ l) = (tt, Apart-nil l)

pub Apart-cons : (l : List ℕ) (y : ℕ) (r : List ℕ) → NotIn y l → Apart l r → Apart l (y ∷ r)
Apart-cons [] y r h k = tt
Apart-cons (x ∷ l) y r h k = ((λ e. h.0 (sym e), k.0), Apart-cons l y r h.1 k.1)

-- The second list's first node stands nowhere in the first list.
pub Apart-head : (l : List ℕ) (y : ℕ) (r : List ℕ) → Apart l (y ∷ r) → NotIn y l × Apart l r
Apart-head [] y r h = (tt, tt)
Apart-head (x ∷ l) y r h =
    let ih = Apart-head l y r h.1 in ((λ e. h.0.0 (sym e), ih.0), (h.0.1, ih.1))

pub Distinct-append : (l r : List ℕ) → Distinct l → Distinct r → Apart l r → Distinct (l ++ r)
Distinct-append [] r h k a = k
Distinct-append (x ∷ l) r h k a =
    (All-append (λ y. y ≢ x) l r h.0 a.0, Distinct-append l r h.1 k a.1)

pub append-Distinct : (l r : List ℕ) → Distinct (l ++ r) → Distinct l × Distinct r × Apart l r
append-Distinct [] r h = (tt, h, tt)
append-Distinct (x ∷ l) r h =
    let ih = append-Distinct l r h.1 in
    let n = append-All (λ y. y ≢ x) l r h.0 in ((n.0, ih.0), ih.1, (n.1, ih.2))

pub Distinct-snoc : (l : List ℕ) (x : ℕ) → Distinct l → NotIn x l → Distinct (l ++ x ∷ [])
Distinct-snoc l x h n = Distinct-append l (x ∷ []) h (tt, tt) (Apart-cons l x [] n (Apart-nil l))

pub snoc-Distinct : (l : List ℕ) (x : ℕ) → Distinct (l ++ x ∷ []) → NotIn x l
snoc-Distinct l x h = (Apart-head l x [] (append-Distinct l (x ∷ []) h).2).0

-- A list is empty or has a last node.
pub snoc-cases : (l : List ℕ) → (l ≡ []) ⊎ ((r : List ℕ) × (x : ℕ) × (l ≡ r ++ x ∷ []))
snoc-cases [] = inl refl
snoc-cases (y ∷ l) = elim (snoc-cases l) [
  | inl e ↦ inr ([], y, ap (λ t. y ∷ t) e)
  | inr (r, x, e) ↦ inr (y ∷ r, x, ap (λ t. y ∷ t) e)
]

pub last-Apart : (r : List ℕ) (w : ℕ) (t : List ℕ) → Apart (r ++ w ∷ []) t → NotIn w t
last-Apart r w t h = (append-All (λ a. NotIn a t) r (w ∷ []) h).1.0
