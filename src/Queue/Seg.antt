-- ===== src/Queue/Seg.antt =====
-- What it means that the nodes reachable from a list head are a given list: segments of doubly
-- linked nodes, and the laws by which they are taken apart, framed and relinked.
use fos_simple_os.Prelude.{
  ℕ, ◌≡◌, refl, sym, ◌∙◌, ◌≢◌, List, [], ◌∷◌, ◌++◌, u32, length, NotIn, Distinct, ==_ne, ==_refl,
}
use fos_simple_os.Queue.{Lists, update}

-- From pointer `p`, whose node's `prev` is `b`, along the nodes `l`, to last node `c` and pointer `q`.
abbrev pub Seg : (ℕ → ℕ) → (ℕ → ℕ) → ℕ → ℕ → List ℕ → ℕ → ℕ → Type 0
Seg next prev b p [] c q = (p ≡ q) × (c ≡ b)
Seg next prev b p (x ∷ xs) c q = (p ≡ x) × (x ≢ 0) × (prev x ≡ b) × Seg next prev x (next x) xs c q

-- The list head and the nodes hold the list `l`, each node once.
pub record Holds (s : Lists) (l : List ℕ) : Type 0 where
  pub chain : Seg s.next s.prev 0 s.first l s.last 0
  pub once : Distinct l
  pub counted : s.size ≡ u32 (length l)

pub Seg-append :
    (next prev : ℕ → ℕ) (b p : ℕ) (l r : List ℕ) (c m n q : ℕ)
    → Seg next prev b p l m n
    → Seg next prev m n r c q
    → Seg next prev b p (l ++ r) c q
Seg-append next prev b p [] r c m n q (e, f) h = rw (← f, e) h
Seg-append next prev b p (x ∷ l) r c m n q (e, z, v, g) h =
    (e, z, v, Seg-append next prev x (next x) l r c m n q g h)

-- The joint of an appended segment.
pub record Joint (next prev : ℕ → ℕ) (b p : ℕ) (l r : List ℕ) (c q : ℕ) : Type 0 where
  pub m : ℕ
  pub n : ℕ
  pub left : Seg next prev b p l m n
  pub right : Seg next prev m n r c q

pub append-Seg :
    (next prev : ℕ → ℕ) (b p : ℕ) (l r : List ℕ) (c q : ℕ)
    → Seg next prev b p (l ++ r) c q
    → Joint next prev b p l r c q
append-Seg next prev b p [] r c q h = record { m = b; n = p; left = (refl, refl); right = h }
append-Seg next prev b p (x ∷ l) r c q (e, z, v, g) =
    let j = append-Seg next prev x (next x) l r c q g in
    record { m = j.m; n = j.n; left = (e, z, v, j.left); right = j.right }

pub update_ne : (f : ℕ → ℕ) (v : ℕ) {a x : ℕ} → x ≢ a → update f a v x ≡ f x
update_ne f v {a} {x} h = rw (==_ne a x (λ e. h (sym e)))

pub update_self : (f : ℕ → ℕ) (a v : ℕ) → update f a v a ≡ v
update_self f a v = rw (==_refl a)

-- A write elsewhere keeps a segment.
pub Seg-update_next :
    (next prev : ℕ → ℕ) (b p : ℕ) (l : List ℕ) (c q a v : ℕ)
    → NotIn a l
    → Seg next prev b p l c q
    → Seg (update next a v) prev b p l c q
Seg-update_next next prev b p [] c q a v h g = g
Seg-update_next next prev b p (x ∷ l) c q a v h (e, z, w, g) =
    (e, z, w, rw (update_ne next v h.0) (Seg-update_next next prev x (next x) l c q a v h.1 g))

pub Seg-update_prev :
    (next prev : ℕ → ℕ) (b p : ℕ) (l : List ℕ) (c q a v : ℕ)
    → NotIn a l
    → Seg next prev b p l c q
    → Seg next (update prev a v) b p l c q
Seg-update_prev next prev b p [] c q a v h g = g
Seg-update_prev next prev b p (x ∷ l) c q a v h (e, z, w, g) =
    (e, z, update_ne prev v h.0 ∙ w, Seg-update_prev next prev x (next x) l c q a v h.1 g)

-- The last node's `next` can be redirected.
pub Seg-relink_next :
    (next prev : ℕ → ℕ) (b p : ℕ) (l : List ℕ) (x c q v : ℕ)
    → NotIn x l
    → Seg next prev b p (l ++ x ∷ []) c q
    → Seg (update next x v) prev b p (l ++ x ∷ []) x v
Seg-relink_next next prev b p [] x c q v h (e, z, w, g) = (e, z, w, (update_self next x v, refl))
Seg-relink_next next prev b p (y ∷ l) x c q v h (e, z, w, g) =
    (e, z, w, rw (update_ne next v h.0) (Seg-relink_next next prev y (next y) l x c q v h.1 g))

-- The first node's `prev` can be redirected.
pub Seg-relink_prev :
    (next prev : ℕ → ℕ) (b p y : ℕ) (l : List ℕ) (c q v : ℕ)
    → NotIn y l
    → Seg next prev b p (y ∷ l) c q
    → Seg next (update prev y v) v p (y ∷ l) c q
Seg-relink_prev next prev b p y l c q v h (e, z, w, g) =
    (e, z, update_self prev y v, Seg-update_prev next prev y (next y) l c q y v h g)
