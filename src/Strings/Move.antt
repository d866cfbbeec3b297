-- ===== src/Strings/Move.antt =====
-- memmove copies, also where the objects overlap.
use fos_simple_os.Prelude.{
  ℕ, zero, suc, ◌+◌, ◌≤◌, ◌<◌, ◌≡◌, ◌≢◌, refl, ap, ◌∙◌, false, ltb, arith, ◌⊎◌, inl, inr, eq_or_ne,
  ==_ne, Bool-cases, ltb→lt,
}
use fos_simple_os.Strings.{store, copy_up, copy_down, memmove}

-- A byte that a loop does not write.
copy_up-outside : (n d s p : ℕ) (m : ℕ → ℕ) → (p < d) ⊎ (d + n ≤ p) → copy_up n d s m p ≡ m p
unfolding copy_up
copy_up-outside zero d s p m h = refl
copy_up-outside (suc n) d s p m h =
    let away : (p < d + 1) ⊎ (d + 1 + n ≤ p) = elim h [
      | inl a ↦ inl (omega arith)
      | inr b ↦ inr (omega arith)
    ] in
    let other : d ≢ p =
      λ e. elim h [ inl a ↦ absurd (omega arith) | inr b ↦ absurd (omega arith) ] in
    copy_up-outside n (d + 1) (s + 1) p (store m d (m s)) away ∙ rw (==_ne d p other) refl

copy_down-outside : (n d s p : ℕ) (m : ℕ → ℕ) → (p < d) ⊎ (d + n ≤ p) → copy_down n d s m p ≡ m p
unfolding copy_down
copy_down-outside zero d s p m h = refl
copy_down-outside (suc n) d s p m h =
    let away : (p < d) ⊎ (d + n ≤ p) = elim h [ inl a ↦ inl a | inr b ↦ inr (omega arith) ] in
    let other : d + n ≢ p =
      λ e. elim h [ inl a ↦ absurd (omega arith) | inr b ↦ absurd (omega arith) ] in
    copy_down-outside n d s p (store m (d + n) (m (s + n))) away ∙ rw (==_ne (d + n) p other) refl

-- Upwards is right when the source does not lie below the target within reach.
copy_up-inside :
    (n d s i : ℕ) (m : ℕ → ℕ) → (d ≤ s) ⊎ (s + n ≤ d) → i < n → copy_up n d s m (d + i) ≡ m (s + i)
unfolding copy_up
copy_up-inside zero d s i m h l = absurd (omega arith)
copy_up-inside (suc n) d s zero m h l =
    copy_up-outside n (d + 1) (s + 1) (d + 0) (store m d (m s)) (inl (omega arith)) ∙ ground arith
copy_up-inside (suc n) d s (suc i) m h l =
    let at : d + suc i ≡ d + 1 + i = omega arith in
    let from : s + 1 + i ≡ s + suc i = omega arith in
    let far : (d + 1 ≤ s + 1) ⊎ (s + 1 + n ≤ d + 1) = elim h [
      | inl a ↦ inl (omega arith)
      | inr b ↦ inr (omega arith)
    ] in
    let other : d ≢ s + 1 + i =
      λ e. elim h [ inl a ↦ absurd (omega arith) | inr b ↦ absurd (omega arith) ] in
    ap (copy_up n (d + 1) (s + 1) (store m d (m s))) at
    ∙ copy_up-inside n (d + 1) (s + 1) i (store m d (m s)) far (omega arith)
    ∙ rw (==_ne d (s + 1 + i) other) (ap m from)

copy_down-inside : (n d s i : ℕ) (m : ℕ → ℕ) → s < d → i < n → copy_down n d s m (d + i) ≡ m (s + i)
unfolding copy_down
copy_down-inside zero d s i m h l = absurd (omega arith)
copy_down-inside (suc n) d s i m h l = elim (eq_or_ne i n) [
  | inl e ↦
      copy_down-outside n d s (d + i) (store m (d + n) (m (s + n))) (inr (omega arith))
      ∙ ground arith
  | inr ne ↦
      copy_down-inside n d s i (store m (d + n) (m (s + n))) h (omega arith)
      ∙ rw (==_ne (d + n) (s + i) (λ w. absurd (omega arith))) refl
]

ltb-false : (a b : ℕ) → ltb a b ≡ false → b ≤ a
ltb-false a b h = ground arith

-- The direction that memmove takes, and why it is safe.
direction :
    (m : ℕ → ℕ) (dst src n : ℕ)
    → ((memmove m dst src n ≡ copy_down n dst src m) × (src < dst))
      ⊎ ((memmove m dst src n ≡ copy_up n dst src m) × ((dst ≤ src) ⊎ (src + n ≤ dst)))
unfolding memmove
direction m dst src n = elim (Bool-cases (ltb src dst)) [
  | inr f ↦ inr (rw f refl, inl (ltb-false src dst f))
  | inl t ↦ elim (Bool-cases (ltb dst (src + n))) [
    | inl u ↦ inl (rw (t, u) refl, ltb→lt src dst t)
    | inr g ↦ inr (rw (t, g) refl, inr (ltb-false dst (src + n) g))
  ]
]

-- memmove sets each byte of the target to what the source held there before, whether they overlap
-- or not, and changes no byte outside the target.
pub memmove-copies :
    (m : ℕ → ℕ) (dst src n i p : ℕ)
    → i < n
    → (p < dst) ⊎ (dst + n ≤ p)
    → (memmove m dst src n (dst + i) ≡ m (src + i)) × (memmove m dst src n p ≡ m p)
memmove-copies m dst src n i p l out = elim (direction m dst src n) [
  | inl (q, below) ↦ (
    ap (λ f. f (dst + i)) q ∙ copy_down-inside n dst src i m below l,
    ap (λ f. f p) q ∙ copy_down-outside n dst src p m out,
  )
  | inr (q, safe) ↦ (
    ap (λ f. f (dst + i)) q ∙ copy_up-inside n dst src i m safe l,
    ap (λ f. f p) q ∙ copy_up-outside n dst src p m out,
  )
]
