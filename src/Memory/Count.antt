-- ===== src/Memory/Count.antt =====
-- How many pages of the address space hold a frame, and what a change of one entry does to that.
use fos_simple_os.Prelude.{
  ℕ, zero, suc, ◌+◌, ◌/◌, ◌≤◌, ◌<◌, ◌≡◌, ◌≢◌, refl, ap, Bool, ◌&&◌, if◌then◌else◌, ◌==◌, arith, inl,
  inr, eq_or_ne,
}
use fos_simple_os.Memory.{Mem, Entry, is_used}

-- Whether the table of page `p` is there and its entry holds frame `f`: 1 or 0.
abbrev pub entry_holds : Bool → Entry → ℕ → ℕ
entry_holds there e f = if there && (is_used e && (e.frame == f)) then 1 else 0

abbrev pub holds : Mem → ℕ → ℕ → ℕ
holds m p f = entry_holds (m.tables (p / 1024)) (m.pages p) f

-- The pages below `n` that hold frame `f`.
pub mapped : ℕ → Mem → ℕ → ℕ
mapped zero m f = 0
mapped (suc n) m f = holds m n f + mapped n m f

zero_least : (n : ℕ) → n ≤ 0 → n ≡ 0
zero_least n h = omega arith

pub mapped_mono : (n k : ℕ) (m : Mem) (f : ℕ) → n ≤ k → mapped n m f ≤ mapped k m f
unfolding mapped
mapped_mono n zero m f h = rw (zero_least n h) (omega arith)
mapped_mono n (suc k) m f h = elim (eq_or_ne n (suc k)) [
  | inl e ↦ rw (e, mapped) (omega arith)
  | inr ne ↦ omega (arith, mapped_mono n k m f (omega arith))
]

-- Memories that agree on the entries below `n` of the tables there agree on the count.
pub mapped-agree :
    (n : ℕ) (m m' : Mem) (f : ℕ)
    → ((p : ℕ) → p < n → holds m' p f ≤ holds m p f)
    → mapped n m' f ≤ mapped n m f
unfolding mapped
mapped-agree zero m m' f h = omega arith
mapped-agree (suc n) m m' f h =
    omega (arith, h n (omega arith), mapped-agree n m m' f (λ p l. h p (omega arith)))

-- A change at one page below `n`.
pub mapped-change :
    (n k : ℕ) (m m' : Mem) (f : ℕ)
    → k < n
    → ((p : ℕ) → p ≢ k → holds m' p f ≤ holds m p f)
    → mapped n m' f + holds m k f ≤ mapped n m f + holds m' k f
unfolding mapped
mapped-change zero k m m' f l h = absurd (omega arith)
mapped-change (suc n) k m m' f l h = elim (eq_or_ne n k) [
  | inl e ↦ omega (
    arith,
    ap (λ p. holds m p f) e,
    ap (λ p. holds m' p f) e,
    mapped-agree n m m' f (λ p below. h p (λ at. absurd (omega arith))),
  )
  | inr ne ↦ omega (arith, h n ne, mapped-change n k m m' f (omega arith) h)
]

-- A page that holds the frame is counted.
pub holds-le-mapped : (p : ℕ) (m : Mem) (f : ℕ) → holds m p f ≤ mapped (suc p) m f
unfolding mapped
holds-le-mapped p m f = omega arith

pub mapped-none : (n : ℕ) (m : Mem) (f : ℕ) → ((p : ℕ) → holds m p f ≡ 0) → mapped n m f ≡ 0
unfolding mapped
mapped-none zero m f h = refl
mapped-none (suc n) m f h = omega (arith, h n, mapped-none n m f h)
