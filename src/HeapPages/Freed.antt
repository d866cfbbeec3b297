-- ===== src/HeapPages/Freed.antt =====
-- What freeMem leaves in the active and the second list.
use fos_simple_os.Prelude.{
  ℕ, ◌%◌, ◌≡◌, refl, ap, sym, subst, ◌∙◌, List, [], ◌∷◌, ◌++◌, append_assoc, append-nil, true, ◌==◌,
  All, All-map, append-All, All-append, Option, some, eq_or_ne, ==_refl, ==_ne, inl, inr,
}
use fos_simple_os.Memory.{Mem, user_page, no_perm, pdx, pt_set_page_permissions}
use fos_simple_os.PageFault.{Env, WorkingSetElement}
use fos_simple_os.HeapPages.{release_table, unload, walk_active, walk_second}
use fos_simple_os.HeapPages.Steps.{
  IsHeld, Differs, AreHeld, All-drop, Apart-drop, All-both, unload-other, unload-step,
  release_table-IsHeld, pt_set-IsHeld,
}

-- The element at a page is unloaded, and the others are held.
unload-AreHeld :
    (m : Mem) (b : List WorkingSetElement) (x : WorkingSetElement) (t : List WorkingSetElement)
    (va : ℕ)
    → x.virtual_address ≡ va
    → AreHeld m (b ++ x ∷ t)
    → (m1 : Mem) × (unload m va ≡ some m1) × AreHeld m1 (b ++ t) × All (Differs va) (b ++ t)
unload-AreHeld m b x t va e h =
    let (own, others) = All-drop (IsHeld m) b x t h.0 in
    let (d, apart) = Apart-drop b x t h.1 in
    let differ : All (Differs va) (b ++ t) = subst (λ a. All (Differs a) (b ++ t)) e d in
    let (m1, q, tables, pages) = unload-other m va (subst (λ a. m.tables (pdx a) ≡ true) e own.1) in
    (
      m1,
      q,
      (
        All-both (IsHeld m) (Differs va) (IsHeld m1) (b ++ t)
            (λ y g n. unload-step m va y (subst (λ a. a % 4096 ≡ 0) e own.0) n m1 tables pages g)
            others differ,
        apart,
      ),
      differ,
    )

release-AreHeld :
    (m : Mem) (va : ℕ) (l : List WorkingSetElement) → AreHeld m l → AreHeld (release_table m va) l
release-AreHeld m va l h = (
  All-map (IsHeld m) (IsHeld (release_table m va)) l (λ x g. release_table-IsHeld m va x g) h.0,
  h.1,
)

-- The lists after a walk: held, with no element more than before.
abbrev pub Left : List WorkingSetElement → Mem → List WorkingSetElement → Type 0
Left l m l' = AreHeld m l' × ((a : ℕ) → All (Differs a) l → All (Differs a) l')

Left-drop :
    (b : List WorkingSetElement) (x : WorkingSetElement) (t : List WorkingSetElement) (m : Mem)
    (l' : List WorkingSetElement)
    → Left (b ++ t) m l'
    → Left (b ++ x ∷ t) m l'
Left-drop b x t m l' h = (h.0, λ a d. h.1 a (All-drop (Differs a) b x t d).1)

-- What a walk over the second list comes to.
abbrev pub Walked : ℕ → List WorkingSetElement → Option Env → Type 0
Walked va l o =
    (e' : Env) × (o ≡ some e') × Left l e'.mem (e'.active ++ e'.second) × All (Differs va) e'.active

abbrev pub Gone : ℕ → List WorkingSetElement → Option Env → Type 0
Gone va l o =
    (e' : Env) × (o ≡ some e')
    × Left l e'.mem (e'.active ++ e'.second)
    × All (Differs va) (e'.active ++ e'.second)

walk_second-pass :
    (va : ℕ) (x : WorkingSetElement) (rest before : List WorkingSetElement) (e : Env)
    → Differs va x
    → walk_second va (x ∷ rest) before e ≡ walk_second va rest (before ++ x ∷ []) e
unfolding walk_second
walk_second-pass va x rest before e n = rw (walk_second, ==_ne x.virtual_address va n) refl

-- An element that is put back in PageWorkingSetList.
abbrev put_back : Env → Mem → WorkingSetElement → Env
put_back e m x = record e { mem = m; page_list = record x { empty = true } ∷ e.page_list }

is_at : (x : WorkingSetElement) (va : ℕ) → x.virtual_address ≡ va → (x.virtual_address == va) ≡ true
is_at x va q = ap (λ a. a == va) q ∙ ==_refl va

walk_second-hit :
    (va : ℕ) (x : WorkingSetElement) (rest before : List WorkingSetElement) (e : Env) (m1 : Mem)
    → x.virtual_address ≡ va
    → unload e.mem va ≡ some m1
    → walk_second va (x ∷ rest) before e
      ≡ walk_second va rest before (put_back e (release_table m1 va) x)
unfolding walk_second
walk_second-hit va x rest before e m1 q u = rw (walk_second, is_at x va q, u) refl

move_over :
    (a b : List WorkingSetElement) (x : WorkingSetElement) (t : List WorkingSetElement)
    → (a ++ (b ++ x ∷ [])) ++ t ≡ (a ++ b) ++ x ∷ t
move_over a b x t =
    ap (λ l. l ++ t) (sym (append_assoc a b (x ∷ []))) ∙ append_assoc (a ++ b) (x ∷ []) t

-- Transport along the list before, and from a smaller list.
Gone-more :
    (va : ℕ) (b : List WorkingSetElement) (x : WorkingSetElement) (t : List WorkingSetElement)
    (o o' : Option Env)
    → o ≡ o'
    → Gone va (b ++ t) o'
    → Gone va (b ++ x ∷ t) o
Gone-more va b x t o o' q (e', r, left, gone) =
    (e', q ∙ r, Left-drop b x t e'.mem (e'.active ++ e'.second) left, gone)

pub walk_second-Gone :
    (va : ℕ) (rest before : List WorkingSetElement) (e : Env)
    → AreHeld e.mem ((e.active ++ before) ++ rest)
    → All (Differs va) (e.active ++ before)
    → Gone va ((e.active ++ before) ++ rest) (walk_second va rest before e)
unfolding walk_second
walk_second-Gone va [] before e h d = (
  record e { second = before },
  refl,
  (
    subst (AreHeld e.mem) (append-nil (e.active ++ before)) h,
    λ a k. subst (All (Differs a)) (append-nil (e.active ++ before)) k,
  ),
  d,
)
walk_second-Gone va (x ∷ rest) before e h d = elim (eq_or_ne x.virtual_address va) [
  | inr n ↦
      subst (Gone va ((e.active ++ before) ++ x ∷ rest))
        (sym (walk_second-pass va x rest before e n))
        (subst (λ l. Gone va l (walk_second va rest (before ++ x ∷ []) e))
          (move_over e.active before x rest)
          (walk_second-Gone va rest (before ++ x ∷ []) e
            (subst (AreHeld e.mem) (sym (move_over e.active before x rest)) h)
            (subst (All (Differs va)) (append_assoc e.active before (x ∷ []))
              (All-append (Differs va) (e.active ++ before) (x ∷ []) d (n, tt)))))
  | inl q ↦
      let (m1, u, held, others) = unload-AreHeld e.mem (e.active ++ before) x rest va q h in
      Gone-more va (e.active ++ before) x rest _ _ (walk_second-hit va x rest before e m1 q u) (
        walk_second-Gone va rest before (put_back e (release_table m1 va) x)
          (release-AreHeld m1 va ((e.active ++ before) ++ rest) held) d)
]

-- The same for the walk over the active list.
walk_active-pass :
    (va : ℕ) (second : List WorkingSetElement) (x : WorkingSetElement)
    (rest before : List WorkingSetElement) (e : Env)
    → Differs va x
    → walk_active va second (x ∷ rest) before e ≡ walk_active va second rest (before ++ x ∷ []) e
unfolding walk_active
walk_active-pass va [] x rest before e n = rw (walk_active, ==_ne x.virtual_address va n) refl
walk_active-pass va (s ∷ second) x [] before e n =
    rw (walk_active, ==_ne x.virtual_address va n) refl
walk_active-pass va (s ∷ second) x (y ∷ rest) before e n =
    rw (walk_active, ==_ne x.virtual_address va n) refl

walk_active-hit :
    (va : ℕ) (x : WorkingSetElement) (rest before : List WorkingSetElement) (e : Env) (m1 : Mem)
    → x.virtual_address ≡ va
    → unload e.mem va ≡ some m1
    → walk_active va [] (x ∷ rest) before e
      ≡ walk_active va [] rest before (put_back e (release_table m1 va) x)
unfolding walk_active
walk_active-hit va x rest before e m1 q u = rw (walk_active, is_at x va q, u) refl

walk_active-hit_last :
    (va : ℕ) (s : WorkingSetElement) (second : List WorkingSetElement) (x : WorkingSetElement)
    (before : List WorkingSetElement) (e : Env) (m1 m2 : Mem)
    → x.virtual_address ≡ va
    → unload e.mem va ≡ some m1
    → pt_set_page_permissions m1 s.virtual_address user_page no_perm ≡ some m2
    → walk_active va (s ∷ second) (x ∷ []) before e
      ≡ some (record (put_back e (release_table m2 va) x) {
        active = before ++ s ∷ [];
        second = second;
      })
unfolding walk_active
walk_active-hit_last va s second x before e m1 m2 q u p = rw (walk_active, is_at x va q, u, p) refl

walk_active-hit_more :
    (va : ℕ) (s : WorkingSetElement) (second : List WorkingSetElement) (x y : WorkingSetElement)
    (rest before : List WorkingSetElement) (e : Env) (m1 m2 : Mem)
    → x.virtual_address ≡ va
    → unload e.mem va ≡ some m1
    → pt_set_page_permissions m1 s.virtual_address user_page no_perm ≡ some m2
    → walk_active va (s ∷ second) (x ∷ y ∷ rest) before e
      ≡ walk_active va second (y ∷ rest ++ s ∷ []) before (put_back e (release_table m2 va) x)
unfolding walk_active
walk_active-hit_more va s second x y rest before e m1 m2 q u p =
    rw (walk_active, is_at x va q, u, p) refl

Walked-more :
    (va : ℕ) (b : List WorkingSetElement) (x : WorkingSetElement) (t : List WorkingSetElement)
    (o o' : Option Env)
    → o ≡ o'
    → Walked va (b ++ t) o'
    → Walked va (b ++ x ∷ t) o
Walked-more va b x t o o' q (e', r, left, gone) =
    (e', q ∙ r, Left-drop b x t e'.mem (e'.active ++ e'.second) left, gone)

Walked-pass :
    (va : ℕ) (second : List WorkingSetElement) (x : WorkingSetElement)
    (rest before : List WorkingSetElement) (e : Env)
    → Differs va x
    → Walked va
        ((before ++ x ∷ []) ++ (rest ++ second))
        (walk_active va second rest (before ++ x ∷ []) e)
    → Walked va (before ++ (x ∷ rest ++ second)) (walk_active va second (x ∷ rest) before e)
Walked-pass va second x rest before e n w =
    subst (Walked va (before ++ (x ∷ rest ++ second)))
      (sym (walk_active-pass va second x rest before e n))
      (subst (λ l. Walked va l (walk_active va second rest (before ++ x ∷ []) e))
        (append_assoc before (x ∷ []) (rest ++ second)) w)

-- The head of the second list becomes present and the table is released.
refill-AreHeld :
    (m1 : Mem) (va : ℕ) (b : List WorkingSetElement) (s : WorkingSetElement)
    (t : List WorkingSetElement)
    → AreHeld m1 (b ++ s ∷ t)
    → (m2 : Mem) × (pt_set_page_permissions m1 s.virtual_address user_page no_perm ≡ some m2)
      × AreHeld (release_table m2 va) (b ++ s ∷ t)
refill-AreHeld m1 va b s t h =
    let (m2, p, keep) = pt_set-IsHeld m1 s (All-drop (IsHeld m1) b s t h.0).0 in
    (
      m2,
      p,
      release-AreHeld m2 va (b ++ s ∷ t)
          (All-map (IsHeld m1) (IsHeld m2) (b ++ s ∷ t) keep h.0, h.1),
    )

pub walk_active-Walked :
    (va : ℕ) (second rest before : List WorkingSetElement) (e : Env)
    → AreHeld e.mem (before ++ (rest ++ second))
    → All (Differs va) before
    → Walked va (before ++ (rest ++ second)) (walk_active va second rest before e)
unfolding walk_active
walk_active-Walked va second [] before e h d =
    (record e { active = before; second = second }, refl, (h, λ a k. k), d)
walk_active-Walked va [] (x ∷ rest) before e h d = elim (eq_or_ne x.virtual_address va) [
  | inr n ↦ Walked-pass va [] x rest before e n (
      walk_active-Walked va [] rest (before ++ x ∷ []) e
        (subst (AreHeld e.mem) (sym (append_assoc before (x ∷ []) (rest ++ []))) h)
        (All-append (Differs va) before (x ∷ []) d (n, tt)))
  | inl q ↦
      let (m1, u, held, others) = unload-AreHeld e.mem before x (rest ++ []) va q h in
      Walked-more va before x (rest ++ []) _ _ (walk_active-hit va x rest before e m1 q u) (
        walk_active-Walked va [] rest before (put_back e (release_table m1 va) x)
          (release-AreHeld m1 va (before ++ (rest ++ [])) held) d)
]
walk_active-Walked va (s ∷ second) (x ∷ []) before e h d = elim (eq_or_ne x.virtual_address va) [
  | inr n ↦ Walked-pass va (s ∷ second) x [] before e n (
      walk_active-Walked va (s ∷ second) [] (before ++ x ∷ []) e
        (subst (AreHeld e.mem) (sym (append_assoc before (x ∷ []) (s ∷ second))) h)
        (All-append (Differs va) before (x ∷ []) d (n, tt)))
  | inl q ↦
      let (m1, u, held, others) = unload-AreHeld e.mem before x (s ∷ second) va q h in
      let (m2, p, held2) = refill-AreHeld m1 va before s second held in
      let same : (before ++ s ∷ []) ++ second ≡ before ++ s ∷ second =
        append_assoc before (s ∷ []) second in
      Walked-more va before x (s ∷ second) _ _
        (walk_active-hit_last va s second x before e m1 m2 q u p)
        (
          record (put_back e (release_table m2 va) x) {
            active = before ++ s ∷ [];
            second = second;
          },
          refl,
          (
            subst (AreHeld (release_table m2 va)) (sym same) held2,
            λ a k. subst (All (Differs a)) (sym same) k,
          ),
          (append-All (Differs va) (before ++ s ∷ []) second
              (subst (All (Differs va)) (sym same) others)).0,
        )
]
walk_active-Walked va (s ∷ second) (x ∷ y ∷ rest) before e h d =
    elim (eq_or_ne x.virtual_address va) [
      | inr n ↦ Walked-pass va (s ∷ second) x (y ∷ rest) before e n (
          walk_active-Walked va (s ∷ second) (y ∷ rest) (before ++ x ∷ []) e
            (subst (AreHeld e.mem) (sym (append_assoc before (x ∷ []) (y ∷ rest ++ s ∷ second))) h)
            (All-append (Differs va) before (x ∷ []) d (n, tt)))
      | inl q ↦
          let (m1, u, held, others) =
            unload-AreHeld e.mem before x (y ∷ rest ++ s ∷ second) va q h in
          let split : (before ++ y ∷ rest) ++ s ∷ second ≡ before ++ (y ∷ rest ++ s ∷ second) =
            append_assoc before (y ∷ rest) (s ∷ second) in
          let (m2, p, held2) =
            refill-AreHeld m1 va (before ++ y ∷ rest) s second
              (subst (AreHeld m1) (sym split) held) in
          let same : before ++ (y ∷ rest ++ s ∷ second)
              ≡ before ++ ((y ∷ rest ++ s ∷ []) ++ second) =
            ap (λ l. before ++ y ∷ l) (sym (append_assoc rest (s ∷ []) second)) in
          Walked-more va before x (y ∷ rest ++ s ∷ second) _ _
            (walk_active-hit_more va s second x y rest before e m1 m2 q u p)
            (subst
              (λ l. Walked va l (
                walk_active va second (y ∷ rest ++ s ∷ []) before
                  (put_back e (release_table m2 va) x)))
              (sym same)
              (walk_active-Walked va second (y ∷ rest ++ s ∷ []) before
                (put_back e (release_table m2 va) x)
                (subst (AreHeld (release_table m2 va)) (split ∙ same) held2) d))
    ]
