-- ===== src/PageFault/Lru.antt =====
-- Least recently used replacement on a stack of pages, and what taking elements from the lists does
-- to the pages that they hold.
use fos_simple_os.Prelude.{
  ℕ, suc, ◌<◌, ◌≡◌, refl, ap, List, [], ◌∷◌, ◌++◌, Bool, true, false, if◌then◌else◌, ◌==◌, none,
  some, length, arith, ◌⊎◌, inl, inr, eq_or_ne, ==_ne, ==_refl,
}
use fos_simple_os.PageFault.{WorkingSetElement, take_last, take_page}

-- The pages of a list of elements.
unfoldable pub pages_of : List WorkingSetElement → List ℕ
pages_of [] = []
pages_of (x ∷ l) = x.virtual_address ∷ pages_of l

-- A stack without the first `va`, and whether it has one.
unfoldable pub without : ℕ → List ℕ → List ℕ
without va [] = []
without va (x ∷ l) = if x == va then l else x ∷ without va l

unfoldable pub has : ℕ → List ℕ → Bool
has va [] = false
has va (x ∷ l) = if x == va then true else has va l

unfoldable pub but_last : List ℕ → List ℕ
but_last [] = []
but_last (x ∷ []) = []
but_last (x ∷ y ∷ l) = x ∷ but_last (y ∷ l)

-- A use of page `va` with `capacity` places: it comes first, and the last page goes if there is no
-- place left.
unfoldable pub lru : ℕ → ℕ → List ℕ → List ℕ
lru capacity va stack =
    if has va stack
    then va ∷ without va stack
    else va ∷ (if length stack == capacity then but_last stack else stack)

pub pages_of-append : (l r : List WorkingSetElement) → pages_of (l ++ r) ≡ pages_of l ++ pages_of r
unfolding pages_of
pages_of-append [] r = refl
pages_of-append (x ∷ l) r = ap (λ t. x.virtual_address ∷ t) (pages_of-append l r)

pub length-pages_of : (l : List WorkingSetElement) → length (pages_of l) ≡ length l
unfolding pages_of
length-pages_of [] = refl
length-pages_of (x ∷ l) = omega (arith, length-pages_of l)

pub take_last-snoc {ℓ} :
    {A : Type ℓ} (l : List A)
    → 0 < length l
    → (rest : List A) × (y : A) × (take_last l ≡ some (rest, y)) × (l ≡ rest ++ y ∷ [])
unfolding take_last
take_last-snoc [] h = absurd (omega arith)
take_last-snoc (x ∷ []) h = ([], x, refl, refl)
take_last-snoc (x ∷ z ∷ l) h =
    let (rest, y, q, p) = take_last-snoc (z ∷ l) (omega arith) in
    (x ∷ rest, y, rw q refl, ap (λ t. x ∷ t) p)

-- The walk over the second list finds the element of the page, or there is none.
pub take_page-cases :
    (va : ℕ) (l : List WorkingSetElement)
    → ((take_page va l ≡ none) × (has va (pages_of l) ≡ false))
      ⊎ ((rest : List WorkingSetElement) × (x : WorkingSetElement) × (take_page va l
            ≡ some (rest, x))
          × (x.virtual_address ≡ va)
          × (has va (pages_of l) ≡ true)
          × (pages_of rest ≡ without va (pages_of l))
          × (length l ≡ suc (length rest)))
unfolding take_page has pages_of without
take_page-cases va [] = inl (refl, refl)
take_page-cases va (x ∷ l) = elim (eq_or_ne x.virtual_address va) [
  | inl e ↦
      inr (l, x, rw (e, ==_refl va) refl, e, rw (e, ==_refl va) refl, rw (e, ==_refl va) refl, refl)
  | inr n ↦ elim (take_page-cases va l) [
    | inl (q, h) ↦ inl (rw (==_ne _ va n, q) refl, rw (==_ne _ va n) h)
    | inr (rest, y, q, e, h, w, len) ↦ inr (
      x ∷ rest,
      y,
      rw (==_ne x.virtual_address va n, q) refl,
      e,
      rw (==_ne x.virtual_address va n) h,
      rw (==_ne x.virtual_address va n) (ap (λ t. x.virtual_address ∷ t) w),
      ap suc len,
    )
  ]
]

pub has-append-false : (va : ℕ) (l r : List ℕ) → has va l ≡ false → has va (l ++ r) ≡ has va r
unfolding has
has-append-false va [] r h = refl
has-append-false va (x ∷ l) r h = ground (arith, has-append-false va l r)

pub without-append-false :
    (va : ℕ) (l r : List ℕ) → has va l ≡ false → without va (l ++ r) ≡ l ++ without va r
unfolding has without
without-append-false va [] r h = refl
without-append-false va (x ∷ l) r h = ground (arith, without-append-false va l r)

pub but_last-snoc : (l : List ℕ) (x : ℕ) → but_last (l ++ x ∷ []) ≡ l
unfolding but_last
but_last-snoc [] x = refl
but_last-snoc (y ∷ []) x = refl
but_last-snoc (y ∷ z ∷ l) x = ap (λ t. y ∷ t) (but_last-snoc (z ∷ l) x)
