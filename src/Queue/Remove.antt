-- ===== src/Queue/Remove.antt =====
-- LIST_REMOVE against lists.
use fos_simple_os.Prelude.{
  ℕ, ◌≡◌, refl, sym, subst, ◌∙◌, ◌≢◌, inl, inr, List, [], ◌∷◌, ◌++◌, arith, sub32, length-append,
  append-nil,
}
use fos_simple_os.Queue.{Lists, update, remove}
use fos_simple_os.Queue.Once.{
  Apart-head, Distinct-append, append-Distinct, snoc-Distinct, snoc-cases, last-Apart,
}
use fos_simple_os.Queue.Seg.{
  Seg, Holds, Seg-append, append-Seg, Seg-update_next, Seg-update_prev, Seg-relink_next,
  Seg-relink_prev,
}

-- What LIST_REMOVE leaves, on its four branches.
remove-only :
    (s : Lists) (x : ℕ)
    → s.next x ≡ 0
    → s.prev x ≡ 0
    → remove s x ≡ record s {
      next = update s.next x 0;
      prev = update s.prev x 0;
      first = 0;
      last = 0;
      size = sub32 s.size 1;
    }
unfolding remove
remove-only s x e f = ground arith

remove-front :
    (s : Lists) (x y : ℕ)
    → s.next x ≡ y
    → y ≢ 0
    → y ≢ x
    → s.prev x ≡ 0
    → remove s x ≡ record s {
      next = update s.next x 0;
      prev = update (update s.prev y 0) x 0;
      first = y;
      size = sub32 s.size 1;
    }
unfolding remove
remove-front s x y e ny nx f = ground arith

remove-back :
    (s : Lists) (x w : ℕ)
    → s.next x ≡ 0
    → s.prev x ≡ w
    → w ≢ 0
    → remove s x ≡ record s {
      next = update (update s.next w 0) x 0;
      prev = update s.prev x 0;
      last = w;
      size = sub32 s.size 1;
    }
unfolding remove
remove-back s x w e f nw = ground arith

remove-middle :
    (s : Lists) (x w y : ℕ)
    → s.next x ≡ y
    → y ≢ 0
    → y ≢ x
    → s.prev x ≡ w
    → w ≢ 0
    → remove s x ≡ record s {
      next = update (update s.next w y) x 0;
      prev = update (update s.prev y w) x 0;
      size = sub32 s.size 1;
    }
unfolding remove
remove-middle s x w y e ny nx f nw = ground arith

remove-Holds_only : (s : Lists) (x : ℕ) → Holds s (x ∷ []) → Holds (remove s x) []
remove-Holds_only s x v =
    rw (remove-only s x v.chain.3.0 v.chain.2)
      (record { chain = (refl, refl); once = tt; counted = omega (arith, v.counted) })

remove-Holds_front :
    (s : Lists) (x y : ℕ) (t : List ℕ) → Holds s (x ∷ y ∷ t) → Holds (remove s x) (y ∷ t)
remove-Holds_front s x y t v =
    let g = v.chain.3 in
    rw (remove-front s x y g.0 g.1 v.once.0.0 v.chain.2) (record {
      chain = Seg-update_next _ _ 0 y (y ∷ t) s.last 0 x 0 v.once.0 (
          Seg-update_prev _ _ 0 y (y ∷ t) s.last 0 x 0 v.once.0
            (Seg-relink_prev s.next s.prev x y y t s.last 0 0 v.once.1.0 (refl, g.1, g.2, g.3)));
      once = v.once.1;
      counted = omega (arith, v.counted);
    })

-- The last node of the first part, read off its segment.
last-Seg :
    (next prev : ℕ → ℕ) (b p : ℕ) (r : List ℕ) (w c q : ℕ)
    → Seg next prev b p (r ++ w ∷ []) c q
    → (c ≡ w) × (w ≢ 0)
last-Seg next prev b p r w c q g =
    let j = append-Seg next prev b p r (w ∷ []) c q g in (j.right.3.1, j.right.1)

remove-Holds_back :
    (s : Lists) (r : List ℕ) (w x : ℕ)
    → Holds s ((r ++ w ∷ []) ++ x ∷ [])
    → Holds (remove s x) (r ++ w ∷ [])
remove-Holds_back s r w x v =
    let j = append-Seg s.next s.prev 0 s.first (r ++ w ∷ []) (x ∷ []) s.last 0 v.chain in
    let e = last-Seg s.next s.prev 0 s.first r w j.m j.n j.left in
    let d = append-Distinct (r ++ w ∷ []) (x ∷ []) v.once in
    let n = Apart-head (r ++ w ∷ []) x [] d.2 in
    rw (remove-back s x w j.right.3.0 (j.right.2 ∙ e.0) e.1) (record {
      chain = Seg-update_next _ _ 0 s.first (r ++ w ∷ []) w 0 x 0 n.0 (
          Seg-update_prev _ _ 0 s.first (r ++ w ∷ []) w 0 x 0 n.0
            (Seg-relink_next s.next s.prev 0 s.first r w j.m j.n 0 (snoc-Distinct r w d.0) j.left));
      once = d.0;
      counted = omega (arith, v.counted, length-append (r ++ w ∷ []) (x ∷ []));
    })

remove-Holds_middle :
    (s : Lists) (r : List ℕ) (w x y : ℕ) (t : List ℕ)
    → Holds s ((r ++ w ∷ []) ++ x ∷ y ∷ t)
    → Holds (remove s x) ((r ++ w ∷ []) ++ y ∷ t)
remove-Holds_middle s r w x y t v =
    let l = r ++ w ∷ [] in
    let j = append-Seg s.next s.prev 0 s.first l (x ∷ y ∷ t) s.last 0 v.chain in
    let e = last-Seg s.next s.prev 0 s.first r w j.m j.n j.left in
    let d = append-Distinct l (x ∷ y ∷ t) v.once in
    let nx = Apart-head l x (y ∷ t) d.2 in
    let ny = Apart-head l y t nx.1 in
    let nw = last-Apart r w (y ∷ t) nx.1 in
    let g = j.right.3 in
    rw (remove-middle s x w y g.0 g.1 d.1.0.0 (j.right.2 ∙ e.0) e.1) (record {
      chain =
          Seg-append _ _ 0 s.first l (y ∷ t) s.last w y 0
            (Seg-update_next _ _ 0 s.first l w y x 0 nx.0 (
              Seg-update_prev _ _ 0 s.first l w y x 0 nx.0 (
                Seg-update_prev _ _ 0 s.first l w y y w ny.0 (
                  Seg-relink_next s.next s.prev 0 s.first r w j.m j.n y (snoc-Distinct r w d.0)
                    j.left))))
            (Seg-update_next _ _ w y (y ∷ t) s.last 0 x 0 d.1.0 (
              Seg-update_prev _ _ w y (y ∷ t) s.last 0 x 0 d.1.0 (
                Seg-update_next s.next _ w y (y ∷ t) s.last 0 w y nw (
                  Seg-relink_prev s.next s.prev x y y t s.last 0 w d.1.1.0
                    (refl, g.1, g.2, g.3)))));
      once = Distinct-append l (y ∷ t) d.0 d.1.1 nx.1;
      counted = omega (arith, v.counted, length-append l (x ∷ y ∷ t), length-append l (y ∷ t));
    })

remove-Holds_behind :
    (s : Lists) (r : List ℕ) (w x : ℕ) (t : List ℕ)
    → Holds s ((r ++ w ∷ []) ++ x ∷ t)
    → Holds (remove s x) ((r ++ w ∷ []) ++ t)
remove-Holds_behind s r w x [] v = rw append-nil (remove-Holds_back s r w x v)
remove-Holds_behind s r w x (y ∷ t) v = remove-Holds_middle s r w x y t v

remove-Holds_first : (s : Lists) (x : ℕ) (t : List ℕ) → Holds s (x ∷ t) → Holds (remove s x) t
remove-Holds_first s x [] v = remove-Holds_only s x v
remove-Holds_first s x (y ∷ t) v = remove-Holds_front s x y t v

-- LIST_REMOVE of a node of the list takes out exactly that node, wherever it stands.
pub remove-Holds :
    (s : Lists) (l r : List ℕ) (x : ℕ) → Holds s (l ++ x ∷ r) → Holds (remove s x) (l ++ r)
remove-Holds s l r x v = elim (snoc-cases l) [
  | inl e ↦
      subst (λ t. Holds (remove s x) (t ++ r)) (sym e)
        (remove-Holds_first s x r (subst (λ t. Holds s (t ++ x ∷ r)) e v))
  | inr (q, w, e) ↦
      subst (λ t. Holds (remove s x) (t ++ r)) (sym e)
        (remove-Holds_behind s q w x r (subst (λ t. Holds s (t ++ x ∷ r)) e v))
]
