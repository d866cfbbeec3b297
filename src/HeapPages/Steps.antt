-- ===== src/HeapPages/Steps.antt =====
-- The steps of freeMem for an element of the working set return, and keep the other elements.
use fos_simple_os.Prelude.{
  ℕ, zero, suc, ◌+◌, ◌*◌, ◌%◌, ◌<◌, ◌≡◌, ◌≢◌, refl, ap, sym, ◌∙◌, List, [], ◌∷◌, ◌++◌, Bool, true,
  false, not, ◌&&◌, ◌==◌, All, arith, some, eq_or_ne, Bool-cases, inl, inr, option_cases, sub32,
}
use fos_simple_os.Memory.{
  Mem, Entry, Perm, no_perm, user_page, put, page, pdx, is_used, zero_entry, change_perm,
  get_frame_info, decrement_references, unmap_frame, pt_clear_page_table_entry,
  pt_set_page_permissions,
}
use fos_simple_os.Memory.Safe.{put_at, put_away}
use fos_simple_os.PageFault.{WorkingSetElement}
use fos_simple_os.HeapPages.{no_entries, release_table, unload}

-- The address of an element starts a page, and its page is in use.
abbrev pub IsHeld : Mem → WorkingSetElement → Type 0
IsHeld m x =
    (x.virtual_address % 4096 ≡ 0)
    × (m.tables (pdx x.virtual_address) ≡ true)
    × (is_used (m.pages (page x.virtual_address)) ≡ true)

-- An element has another address than `a`.
abbrev pub Differs : ℕ → WorkingSetElement → Type 0
Differs a x = x.virtual_address ≢ a

abbrev pub Apart : List WorkingSetElement → Type 0
Apart [] = Unit
Apart (x ∷ l) = All (Differs x.virtual_address) l × Apart l

abbrev pub AreHeld : Mem → List WorkingSetElement → Type 0
AreHeld m l = All (IsHeld m) l × Apart l

pub All-drop {ℓ κ} :
    {A : Type ℓ} (P : A → Type κ) (b : List A) (x : A) (t : List A)
    → All P (b ++ x ∷ t)
    → P x × All P (b ++ t)
All-drop P [] x t h = h
All-drop P (y ∷ b) x t h = let (p, r) = All-drop P b x t h.1 in (p, (h.0, r))

pub Apart-drop :
    (b : List WorkingSetElement) (x : WorkingSetElement) (t : List WorkingSetElement)
    → Apart (b ++ x ∷ t)
    → All (Differs x.virtual_address) (b ++ t) × Apart (b ++ t)
Apart-drop [] x t h = h
Apart-drop (y ∷ b) x t h =
    let (d, r) = Apart-drop b x t h.1 in
    let (p, q) = All-drop (Differs y.virtual_address) b x t h.0 in (((λ e. p (sym e)), d), (q, r))

pub All-both {ℓ κ μ ν} :
    {A : Type ℓ} (P : A → Type κ) (Q : A → Type μ) (R : A → Type ν) (l : List A)
    → ((a : A) → P a → Q a → R a)
    → All P l
    → All Q l
    → All R l
All-both P Q R [] f p q = tt
All-both P Q R (x ∷ l) f p q = (f x p.0 q.0, All-both P Q R l f p.1 q.1)

decrement-fields :
    (m : Mem) (f : ℕ)
    → ((decrement_references m f).tables ≡ m.tables) × ((decrement_references m f).pages ≡ m.pages)
unfolding decrement_references
decrement-fields m f = elim (Bool-cases (sub32 (m.references f) 1 == 0)) [
  | inl a ↦ rw a (refl, refl)
  | inr a ↦ rw a (refl, refl)
]

unmap-tables : (m : Mem) (va : ℕ) → (unmap_frame m va).tables ≡ m.tables
unfolding unmap_frame
unmap-tables m va = elim (option_cases (get_frame_info m va)) [
  | inl e ↦ rw (unmap_frame, e) refl
  | inr (f, e) ↦ rw (unmap_frame, e) (decrement-fields m f).0
]

unmap-pages : (m : Mem) (va p : ℕ) → page va ≢ p → (unmap_frame m va).pages p ≡ m.pages p
unfolding unmap_frame
unmap-pages m va p n = elim (option_cases (get_frame_info m va)) [
  | inl e ↦ rw (unmap_frame, e) refl
  | inr (f, e) ↦
      rw (unmap_frame, e)
        (put_away (decrement_references m f).pages (page va) zero_entry p n
          ∙ ap (λ g. g p) (decrement-fields m f).1)
]

pub unload-other :
    (m : Mem) (va : ℕ)
    → m.tables (pdx va) ≡ true
    → (m1 : Mem) × (unload m va ≡ some m1)
      × (m1.tables ≡ m.tables)
      × ((p : ℕ) → page va ≢ p → m1.pages p ≡ m.pages p)
unfolding unload pt_clear_page_table_entry
unload-other m va t =
    let m1 : Mem = unmap_frame m va in
    let there : m1.tables (pdx va) ≡ true = ap (λ g. g (pdx va)) (unmap-tables m va) ∙ t in
    (
      record m1 { pages = put m1.pages (page va) zero_entry },
      rw there refl,
      unmap-tables m va,
      λ p n. put_away m1.pages (page va) zero_entry p n ∙ unmap-pages m va p n,
    )

apart_pages : (a b : ℕ) → a % 4096 ≡ 0 → b % 4096 ≡ 0 → a ≢ b → page b ≢ page a
apart_pages a b p q n e = n (omega arith)

no_entries-step :
    (m : Mem) (d n : ℕ)
    → no_entries m d (suc n) ≡ true
    → (is_used (m.pages (d * 1024 + n)) ≡ false) × (no_entries m d n ≡ true)
unfolding no_entries
no_entries-step m d n h = split (is_used (m.pages (d * 1024 + n))) (no_entries m d n) h
  where
    split : (a b : Bool) → (not a && b) ≡ true → (a ≡ false) × (b ≡ true)
    split a b h = ground arith

no_entries-unused :
    (m : Mem) (d n i : ℕ)
    → no_entries m d n ≡ true
    → i < n
    → is_used (m.pages (d * 1024 + i)) ≡ false
no_entries-unused m d zero i h lt = absurd (omega arith)
no_entries-unused m d (suc n) i h lt = elim (eq_or_ne i n) [
  | inl e ↦ ap (λ k. is_used (m.pages (d * 1024 + k))) e ∙ (no_entries-step m d n h).0
  | inr ne ↦ no_entries-unused m d n i (no_entries-step m d n h).1 (omega arith)
]

-- The three steps on an element that is held.
pub unload-step :
    (m : Mem) (va : ℕ) (x : WorkingSetElement)
    → va % 4096 ≡ 0
    → Differs va x
    → (m1 : Mem) → (m1.tables ≡ m.tables)
    → ((p : ℕ) → page va ≢ p → m1.pages p ≡ m.pages p)
    → IsHeld m x
    → IsHeld m1 x
unload-step m va x z n m1 tables pages h =
    let (aligned, table, used) = h in
    (
      aligned,
      ap (λ g. g (pdx x.virtual_address)) tables ∙ table,
      ap is_used (pages (page x.virtual_address) (apart_pages x.virtual_address va aligned z n))
          ∙ used,
    )

pub release_table-IsHeld :
    (m : Mem) (va : ℕ) (x : WorkingSetElement) → IsHeld m x → IsHeld (release_table m va) x
unfolding release_table
release_table-IsHeld m va x h =
    elim (Bool-cases (m.tables (pdx va) && no_entries m (pdx va) 1024)) [
      | inr a ↦ rw a h
      | inl a ↦ elim (eq_or_ne (pdx va) (pdx x.virtual_address)) [
        | inl e ↦ absurd (in_table (pdx va) e (right _ _ a))
        | inr n ↦ rw a (h.0, put_away m.tables (pdx va) false (pdx x.virtual_address) n ∙ h.1, h.2)
      ]
    ]
  where
    right : (a b : Bool) → (a && b) ≡ true → b ≡ true
    right a b q = ground arith

    in_table : (d : ℕ) → d ≡ pdx x.virtual_address → no_entries m d 1024 ≡ true → ⊥
    in_table d e q =
        let i : ℕ = page x.virtual_address % 1024 in
        let at : d * 1024 + i ≡ page x.virtual_address = omega arith in
        let unused : is_used (m.pages (page x.virtual_address)) ≡ false =
          ap (λ k. is_used (m.pages k)) (sym at) ∙ no_entries-unused m d 1024 i q (omega arith) in
        let clash : true ≡ false = sym h.2 ∙ unused in cc

pub pt_set-IsHeld :
    (m : Mem) (s : WorkingSetElement)
    → IsHeld m s
    → (m2 : Mem) × (pt_set_page_permissions m s.virtual_address user_page no_perm ≡ some m2)
      × ((x : WorkingSetElement) → IsHeld m x → IsHeld m2 x)
unfolding pt_set_page_permissions
pt_set-IsHeld m s h =
    let k : ℕ = page s.virtual_address in
    let e : Entry = record (m.pages k) { perm = change_perm (m.pages k).perm user_page no_perm } in
    let used : is_used e ≡ true = present (m.pages k).perm (m.pages k).frame in
    (
      record m { pages = put m.pages k e },
      rw h.1 refl,
      λ x g. (
        g.0,
        g.1,
        elim (eq_or_ne k (page x.virtual_address)) [
          | inl q ↦ ap is_used (put_at m.pages k e (page x.virtual_address) q) ∙ used
          | inr q ↦ ap is_used (put_away m.pages k e (page x.virtual_address) q) ∙ g.2
        ],
      ),
    )
  where
    present :
        (p : Perm) (f : ℕ)
        → is_used (record { frame = f; perm = change_perm p user_page no_perm }) ≡ true
    present p f = ground arith
