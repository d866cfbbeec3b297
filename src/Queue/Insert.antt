-- ===== src/Queue/Insert.antt =====
-- LIST_INIT, LIST_INSERT_HEAD and LIST_INSERT_TAIL against lists.
use fos_simple_os.Prelude.{
  ℕ, ◌≡◌, refl, sym, subst, ◌∙◌, ◌≢◌, inl, inr, List, [], ◌∷◌, ◌++◌, arith, add32, NotIn,
  length-append,
}
use fos_simple_os.Queue.{Lists, update, init, insert_head, insert_tail}
use fos_simple_os.Queue.Once.{Distinct-snoc, snoc-Distinct, snoc-cases}
use fos_simple_os.Queue.Seg.{
  Seg, Holds, update_self, Seg-append, append-Seg, Seg-update_next, Seg-update_prev,
  Seg-relink_next, Seg-relink_prev,
}

pub init-Holds : (s : Lists) → Holds (init s) []
unfolding init
init-Holds s = record { chain = (refl, refl); once = tt; counted = refl }

-- What LIST_INSERT_HEAD leaves, on its two branches.
insert_head-empty :
    (s : Lists) (x : ℕ)
    → s.first ≡ 0
    → insert_head s x ≡ record s {
      next = update s.next x s.first;
      prev = update s.prev x 0;
      first = x;
      last = x;
      size = add32 s.size 1;
    }
unfolding insert_head
insert_head-empty s x e = ground arith

insert_head-linked :
    (s : Lists) (x : ℕ)
    → s.first ≢ 0
    → insert_head s x ≡ record s {
      next = update s.next x s.first;
      prev = update (update s.prev s.first x) x 0;
      first = x;
      size = add32 s.size 1;
    }
unfolding insert_head
insert_head-linked s x e = ground arith

-- LIST_INSERT_HEAD of a new node puts it first.
pub insert_head-Holds :
    (s : Lists) (l : List ℕ) (x : ℕ)
    → Holds s l
    → x ≢ 0
    → NotIn x l
    → Holds (insert_head s x) (x ∷ l)
insert_head-Holds s [] x v nz new = rw (insert_head-empty s x v.chain.0) (record {
  chain = (refl, nz, update_self s.prev x 0, (update_self s.next x s.first ∙ v.chain.0, refl));
  once = (tt, tt);
  counted = omega arith;
})
insert_head-Holds s (y ∷ l) x v nz new =
    rw (insert_head-linked s x (λ e. v.chain.1 (sym v.chain.0 ∙ e))) (record {
      chain = (
        refl,
        nz,
        update_self (update s.prev s.first x) x 0,
        subst
            (λ f.
              Seg (update s.next x f) (update (update s.prev f x) x 0) x (update s.next x f x)
                (y ∷ l) s.last 0)
            (sym v.chain.0)
            (rw (update_self s.next x y) (
              Seg-update_prev _ _ x y (y ∷ l) s.last 0 x 0 new (
                Seg-relink_prev _ s.prev 0 y y l s.last 0 x v.once.0 (
                  Seg-update_next s.next s.prev 0 y (y ∷ l) s.last 0 x y new
                    (refl, v.chain.1, v.chain.2, v.chain.3))))),
      );
      once = (new, v.once);
      counted = omega arith;
    })

insert_tail-empty :
    (s : Lists) (x : ℕ)
    → s.last ≡ 0
    → insert_tail s x ≡ record s {
      next = update s.next x 0;
      prev = update s.prev x s.last;
      first = x;
      last = x;
      size = add32 s.size 1;
    }
unfolding insert_tail
insert_tail-empty s x e = ground arith

insert_tail-linked :
    (s : Lists) (x : ℕ)
    → s.last ≢ 0
    → insert_tail s x ≡ record s {
      next = update (update s.next s.last x) x 0;
      prev = update s.prev x s.last;
      last = x;
      size = add32 s.size 1;
    }
unfolding insert_tail
insert_tail-linked s x e = ground arith

insert_tail-snoc :
    (s : Lists) (l : List ℕ) (y x : ℕ)
    → Holds s (l ++ y ∷ [])
    → x ≢ 0
    → NotIn x (l ++ y ∷ [])
    → Holds (insert_tail s x) ((l ++ y ∷ []) ++ x ∷ [])
insert_tail-snoc s l y x v nz new =
    let j = append-Seg s.next s.prev 0 s.first l (y ∷ []) s.last 0 v.chain in
    let at_y : s.last ≡ y = j.right.3.1 in
    rw (insert_tail-linked s x (λ e. j.right.1 (sym at_y ∙ e))) (record {
      chain =
          subst
            (λ c.
              Seg (update (update s.next c x) x 0) (update s.prev x c) 0 s.first
                ((l ++ y ∷ []) ++ x ∷ []) x 0)
            (sym at_y)
            (Seg-append _ _ 0 s.first (l ++ y ∷ []) (x ∷ []) x y x 0
              (Seg-update_next _ _ 0 s.first (l ++ y ∷ []) y x x 0 new (
                Seg-update_prev _ _ 0 s.first (l ++ y ∷ []) y x x y new (
                  Seg-relink_next s.next s.prev 0 s.first l y s.last 0 x (snoc-Distinct l y v.once)
                    v.chain)))
              (refl, nz, update_self s.prev x y, (update_self (update s.next y x) x 0, refl)));
      once = Distinct-snoc (l ++ y ∷ []) x v.once new;
      counted = omega (arith, v.counted, length-append (l ++ y ∷ []) (x ∷ []));
    })

insert_tail-nil : (s : Lists) (x : ℕ) → Holds s [] → x ≢ 0 → Holds (insert_tail s x) (x ∷ [])
insert_tail-nil s x v nz = rw (insert_tail-empty s x v.chain.1) (record {
  chain = (refl, nz, update_self s.prev x s.last ∙ v.chain.1, (update_self s.next x 0, refl));
  once = (tt, tt);
  counted = omega arith;
})

-- LIST_INSERT_TAIL of a new node puts it last.
pub insert_tail-Holds :
    (s : Lists) (l : List ℕ) (x : ℕ)
    → Holds s l
    → x ≢ 0
    → NotIn x l
    → Holds (insert_tail s x) (l ++ x ∷ [])
insert_tail-Holds s l x v nz new = elim (snoc-cases l) [
  | inl e ↦
      subst (λ t. Holds (insert_tail s x) (t ++ x ∷ [])) (sym e)
        (insert_tail-nil s x (subst (Holds s) e v) nz)
  | inr (r, y, e) ↦
      subst (λ t. Holds (insert_tail s x) (t ++ x ∷ [])) (sym e)
        (insert_tail-snoc s r y x (subst (Holds s) e v) nz (subst (NotIn x) e new))
]
