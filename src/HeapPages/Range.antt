-- ===== src/HeapPages/Range.antt =====
-- freeMem returns, and no page of the range is left in the working set.
use fos_simple_os.Prelude.{
  ℕ, zero, suc, ◌+◌, ◌*◌, ◌/◌, ◌%◌, ◌^◌, ◌<◌, ◌≡◌, ◌≢◌, refl, ap, sym, subst, ◌∙◌, List, [], ◌++◌,
  append-nil, false, ◌&&◌, leb, ltb, All, All-map, arith, Option, some, add32, round_up, Bool-cases,
  inl, inr,
}
use fos_simple_os.Memory.{Mem, pdx, page, is_used}
use fos_simple_os.Memory.PageFile.{pf_remove_env_page}
use fos_simple_os.PageFault.{Env, WorkingSetElement}
use fos_simple_os.HeapPages.{free_page, free_pages, free_mem, remove_pages}
use fos_simple_os.HeapPages.Steps.{IsHeld, Differs, AreHeld, All-both}
use fos_simple_os.HeapPages.Freed.{Left, Gone, walk_active-Walked, walk_second-Gone}

free_page-Gone :
    (e : Env) (va : ℕ)
    → AreHeld e.mem (e.active ++ e.second)
    → Gone va (e.active ++ e.second) (free_page e va)
unfolding free_page
free_page-Gone e va h =
    let (e1, q, left, d) = walk_active-Walked va e.second e.active [] e h tt in
    let none_before : (e1.active ++ []) ++ e1.second ≡ e1.active ++ e1.second =
      ap (λ l. l ++ e1.second) (append-nil e1.active) in
    let (e2, r, left2, gone) =
      walk_second-Gone va e1.second [] e1 (subst (AreHeld e1.mem) (sym none_before) left.0)
        (subst (All (Differs va)) (sym (append-nil e1.active)) d) in
    (
      e2,
      rw q r,
      (left2.0, λ a k. left2.1 a (subst (All (Differs a)) (sym none_before) (left.1 a k))),
      gone,
    )

-- The element's page does not lie in the range.
abbrev pub Beyond : ℕ → ℕ → WorkingSetElement → Type 0
Beyond va size x = (leb va x.virtual_address && ltb x.virtual_address (va + size)) ≡ false

-- What is left when the pages of a range are freed.
abbrev pub Freed : ℕ → ℕ → Option Env → Type 0
Freed va size o =
    (e' : Env) × (o ≡ some e')
    × AreHeld e'.mem (e'.active ++ e'.second)
    × All (Beyond va size) (e'.active ++ e'.second)

-- An element that differs from the first page and lies beyond the others.
Beyond-first :
    (m : Mem) (va n : ℕ) (x : WorkingSetElement)
    → va % 4096 ≡ 0
    → IsHeld m x
    → Differs va x × Beyond (va + 4096) (n * 4096) x
    → Beyond va (suc n * 4096) x
Beyond-first m va n x z h d = outside x.virtual_address h.0 d.0 d.1
  where
    outside :
        (a : ℕ)
        → a % 4096 ≡ 0
        → a ≢ va
        → (leb (va + 4096) a && ltb a (va + 4096 + n * 4096)) ≡ false
        → (leb va a && ltb a (va + suc n * 4096)) ≡ false
    outside a p ne q = ground arith

abbrev Cleared : ℕ → ℕ → List WorkingSetElement → Option Env → Type 0
Cleared va size l o =
    (e' : Env) × (o ≡ some e')
    × Left l e'.mem (e'.active ++ e'.second)
    × All (Beyond va size) (e'.active ++ e'.second)

free_pages-Cleared :
    (n : ℕ) (e : Env) (va : ℕ)
    → AreHeld e.mem (e.active ++ e.second)
    → va % 4096 ≡ 0
    → va + n * 4096 < 2 ^ 32
    → Cleared va (n * 4096) (e.active ++ e.second) (free_pages n e va)
unfolding free_pages
free_pages-Cleared zero e va h z b = (
  e,
  refl,
  (h, λ a k. k),
  All-map (IsHeld e.mem) (Beyond va 0) _ (λ x g. empty va x.virtual_address) h.0,
)
  where
    empty : (a b : ℕ) → (leb a b && ltb b (a + 0)) ≡ false
    empty a b = ground arith
free_pages-Cleared (suc n) e va h z b =
    let (e1, q, left1, gone) = free_page-Gone e va h in
    let next : add32 va 4096 ≡ va + 4096 = omega arith in
    let (e2, r, left2, beyond) =
      free_pages-Cleared n e1 (va + 4096) left1.0 (omega arith) (omega arith) in
    (
      e2,
      rw q (ap (free_pages n e1) next ∙ r),
      (left2.0, λ a k. left2.1 a (left1.1 a k)),
      All-both (IsHeld e2.mem) (λ x. Differs va x × Beyond (va + 4096) (n * 4096) x)
          (Beyond va (suc n * 4096)) (e2.active ++ e2.second)
          (λ x g d. Beyond-first e2.mem va n x z g d) left2.0.0
          (All-both (Differs va) (Beyond (va + 4096) (n * 4096)) _ (e2.active ++ e2.second)
            (λ x d c. (d, c)) (left2.1 va gone) beyond),
    )

remove-fields :
    (m : Mem) (va : ℕ)
    → ((pf_remove_env_page m va).tables ≡ m.tables) × ((pf_remove_env_page m va).pages ≡ m.pages)
unfolding pf_remove_env_page
remove-fields m va = elim (Bool-cases (m.disk_directory && m.disk_tables (pdx va))) [
  | inl a ↦ rw a (refl, refl)
  | inr a ↦ rw a (refl, refl)
]

remove_pages-fields :
    (n : ℕ) (m : Mem) (va : ℕ)
    → ((remove_pages n m va).tables ≡ m.tables) × ((remove_pages n m va).pages ≡ m.pages)
unfolding remove_pages
remove_pages-fields zero m va = (refl, refl)
remove_pages-fields (suc n) m va =
    let (t, p) = remove_pages-fields n (pf_remove_env_page m va) (add32 va 4096) in
    let (u, q) = remove-fields m va in (t ∙ u, p ∙ q)

remove_pages-IsHeld :
    (n : ℕ) (m : Mem) (va : ℕ) (x : WorkingSetElement) → IsHeld m x → IsHeld (remove_pages n m va) x
remove_pages-IsHeld n m va x h =
    let (t, p) = remove_pages-fields n m va in
    (
      h.0,
      ap (λ g. g (pdx x.virtual_address)) t ∙ h.1,
      ap (λ g. is_used (g (page x.virtual_address))) p ∙ h.2,
    )

-- freeMem returns when the elements of both lists are at different page starts whose pages are in use
-- and the range starts a page and ends below 2 ^ 32. No element of the range is then left in either
-- list, and the elements that are left are still at pages in use.
pub free_mem-Freed :
    (e : Env) (va size : ℕ)
    → AreHeld e.mem (e.active ++ e.second)
    → va % 4096 ≡ 0
    → va + round_up size 4096 < 2 ^ 32
    → Freed va (round_up size 4096) (free_mem e va size)
unfolding free_mem
free_mem-Freed e va size h z b =
    let n : ℕ = round_up size 4096 / 4096 in
    let whole : n * 4096 ≡ round_up size 4096 = omega arith in
    let m : Mem = remove_pages n e.mem va in
    let (e', q, left, beyond) =
      free_pages-Cleared n (record e { mem = m }) va
        (
          All-map (IsHeld e.mem) (IsHeld m) (e.active ++ e.second)
              (λ x g. remove_pages-IsHeld n e.mem va x g) h.0,
          h.1,
        )
        z (omega arith) in
    (e', q, left.0, subst (λ s. All (Beyond va s) (e'.active ++ e'.second)) whole beyond)
