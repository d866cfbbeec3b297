-- ===== src/PageFault/Sound.antt =====
-- What page_fault_handler asks for and keeps, and what moving elements does to the resident pages.
use fos_simple_os.Prelude.{
  ℕ, ◌+◌, ◌≤◌, ◌<◌, ◌≡◌, ◌≢◌, refl, ap, ap₂, sym, subst, ◌∙◌, List, [], ◌∷◌, ◌++◌, true, false,
  length, arith, ◌⊎◌, ==_ne, ==_refl, All, append-All, append_assoc, length-append,
}
use fos_simple_os.Memory.{Mem, pdx}
use fos_simple_os.Memory.PageFile.{kernel_base}
use fos_simple_os.PageFault.{Env, WorkingSetElement}
use fos_simple_os.PageFault.Steps.{IsLoadable}
use fos_simple_os.PageFault.Lru.{
  pages_of, without, has, but_last, lru, pages_of-append, length-pages_of, has-append-false,
}

-- The resident pages, the last used first.
abbrev pub resident : Env → List ℕ
resident e = pages_of e.active ++ pages_of e.second

-- The lists have all the elements there are, and the second list is used when the active is full.
pub record IsSound (e : Env) : Type 0 where
  pub sizes : length e.active + length e.second + length e.page_list ≡ e.active_size + e.second_size
  pub bounded : length e.active ≤ e.active_size
  pub filled : (e.second ≡ []) ⊎ (length e.active ≡ e.active_size)
  pub room : 0 < e.active_size

-- The page table of a page is there.
pub record IsBacked (m : Mem) (va : ℕ) : Type 0 where
  pub table : m.tables (pdx va) ≡ true
  pub low : va < kernel_base

-- A fault at page `va` that the handler can serve: the page is not active.
pub record IsReady (e : Env) (va : ℕ) : Type 0 where
  pub loadable : IsLoadable e.mem va
  pub frames : 2 ≤ length e.mem.free_frames
  pub absent : has va (pages_of e.active) ≡ false
  pub active_backed : All (λ x. IsBacked e.mem x.virtual_address) e.active
  pub second_backed : All (λ x. IsBacked e.mem x.virtual_address) e.second

pub record IsServed (e : Env) (va : ℕ) (e' : Env) : Type 0 where
  pub stack : resident e' ≡ lru (e.active_size + e.second_size) va (resident e)
  pub sound : IsSound e'

pub lru-hit : (n va : ℕ) (s : List ℕ) → has va s ≡ true → lru n va s ≡ va ∷ without va s
unfolding lru
lru-hit n va s h = rw h refl

pub lru-room : (n va : ℕ) (s : List ℕ) → has va s ≡ false → length s ≢ n → lru n va s ≡ va ∷ s
unfolding lru
lru-room n va s h l = rw (h, ==_ne (length s) n l) refl

pub lru-full :
    (n va : ℕ) (s : List ℕ) → has va s ≡ false → length s ≡ n → lru n va s ≡ va ∷ but_last s
unfolding lru
lru-full n va s h l = rw (h, l, ==_refl n) refl

pub length-resident : (e : Env) → length (resident e) ≡ length e.active + length e.second
length-resident e = omega (
  arith,
  length-append (pages_of e.active) (pages_of e.second),
  length-pages_of e.active,
  length-pages_of e.second,
)

-- The tail of a list before the pages of another one.
pub shift :
    {l : List WorkingSetElement} (r : List WorkingSetElement) (t : WorkingSetElement) (s : List ℕ)
    → l ≡ r ++ t ∷ []
    → pages_of l ++ s ≡ pages_of r ++ t.virtual_address ∷ s
unfolding pages_of
shift {l} r t s q =
    ap (λ k. pages_of k ++ s) q
    ∙ ap (λ k. k ++ s) (pages_of-append r (t ∷ []))
    ∙ append_assoc (pages_of r) (t.virtual_address ∷ []) s

pub length-snoc :
    {l : List WorkingSetElement} (r : List WorkingSetElement) (t : WorkingSetElement)
    → l ≡ r ++ t ∷ []
    → length l ≡ length r + 1
length-snoc r t q = ap length q ∙ length-append r (t ∷ [])

pub tail-IsBacked :
    {m : Mem} {l : List WorkingSetElement} (r : List WorkingSetElement) (t : WorkingSetElement)
    → l ≡ r ++ t ∷ []
    → All (λ x. IsBacked m x.virtual_address) l
    → IsBacked m t.virtual_address
tail-IsBacked {m} r t q a =
    (append-All (λ x. IsBacked m x.virtual_address) r (t ∷ [])
      (subst (All (λ x. IsBacked m x.virtual_address)) q a)).1.0

pub length-zero : {A : Type 0} (l : List A) → length l ≡ 0 → l ≡ []
length-zero [] h = refl
length-zero (x ∷ l) h = absurd (omega arith)

-- The new page before the active ones, whose last has gone to the head of the second list.
pub moved_up :
    (e : Env) (va : ℕ) (front : List WorkingSetElement) (tail fault : WorkingSetElement)
    (rest : List WorkingSetElement)
    → fault.virtual_address ≡ va
    → e.active ≡ front ++ tail ∷ []
    → pages_of (fault ∷ front) ++ pages_of (tail ∷ rest) ≡ va ∷ (pages_of e.active ++ pages_of rest)
unfolding pages_of
moved_up e va front tail fault rest at p =
    ap₂ (λ x k. x ∷ k) at (sym (shift front tail (pages_of rest) p))

pub absent_everywhere :
    (e : Env) (va : ℕ)
    → IsReady e va
    → has va (pages_of e.second) ≡ false
    → has va (resident e) ≡ false
absent_everywhere e va r h =
    has-append-false va (pages_of e.active) (pages_of e.second) r.absent ∙ h
