-- ===== src/UserHeap/Free.antt =====
-- What `free` does to the heap: the merges keep the tiling and set free exactly one block.
use fos_simple_os.Prelude.{
  get_elem?-lt, ℕ, ◌+◌, ◌≤◌, ◌≡◌, ◌≢◌, refl, sym, ◌∙◌, inl, inr, List, true, some, arith, get_elem?,
  set, eq_or_ne, ap, get_elem?-set_self, get_elem?-set_ne,
}
use mathlib.Core.Option.{some-injective}
use fos_simple_os.UserHeap.{Space, dead}
use fos_simple_os.UserHeap.Arrays.{total, total-set, All-set}
use fos_simple_os.UserHeap.Layout.{IsSpace, IsBlock, IsTiled, covers, covers_free, in_heap}

-- From `l` to `l'` the block `freed` became free, and the tiling was kept.
pub record IsReleased (l l' : List Space) (freed : Space) : Type 0 where
  pub tiled : IsTiled l'
  pub gained :
      (a : ℕ)
      → total (covers_free a) l' + covers_free a freed ≡ total (covers_free a) l + covers a freed

covers-le : (a : ℕ) (sp : Space) → covers a sp ≤ 1
covers-le a sp = ground arith

covers_free-le : (a : ℕ) (sp : Space) → covers_free a sp ≤ covers a sp
covers_free-le a sp = ground arith

covers_free-eq : (a : ℕ) (sp : Space) → sp.is_free ≡ true → covers_free a sp ≡ covers a sp
covers_free-eq a sp f = rw f

covers-dead : (a : ℕ) → covers a dead ≡ 0
covers-dead a = ground arith

-- The two writes of a merge, to different entries and to one.
merge-total_ne :
    (w : Space → ℕ) (l : List Space) (i index : ℕ) (sp freed merged : Space)
    → get_elem? l i ≡ some sp
    → get_elem? l index ≡ some freed
    → i ≢ index
    → total w (set (set l i merged) index dead) + w freed + w sp ≡ total w l + w merged + w dead
merge-total_ne w l i index sp freed merged e k ne = omega (
  arith,
  total-set w l i sp merged e,
  total-set w (set l i merged) index freed dead (get_elem?-set_ne l merged ne ∙ k),
)

merge-total_eq :
    (w : Space → ℕ) (l : List Space) (i : ℕ) (sp merged : Space)
    → get_elem? l i ≡ some sp
    → total w (set (set l i merged) i dead) + w sp ≡ total w l + w dead
merge-total_eq w l i sp merged e = omega (
  arith,
  total-set w l i sp merged e,
  total-set w (set l i merged) i merged dead
      (get_elem?-set_self l i merged (get_elem?-lt l i sp e)),
)

-- Two entries replaced by one that covers both and by a dead one.
module _ (l : List Space) (i index : ℕ) (sp freed merged : Space) (v : IsTiled l)
    (e : get_elem? l i ≡ some sp) (k : get_elem? l index ≡ some freed) (b : IsBlock merged)
    (f : sp.is_free ≡ true) (m : merged.is_free ≡ true)
    (c : (a : ℕ) → covers a merged ≡ covers a sp + covers a freed) where
  merge-tiles : (a : ℕ) → total (covers a) (set (set l i merged) index dead) ≡ in_heap a
  merge-tiles a = elim (eq_or_ne i index) [
    | inl q ↦
        let same : sp ≡ freed = some-injective sp freed (sym e ∙ ap (get_elem? l) q ∙ k) in
        rw (← q) (
          omega (
            arith,
            merge-total_eq (covers a) l i sp merged e,
            ap (covers a) same,
            c a,
            covers-le a merged,
            covers-dead a,
            v.tiles a,
          ))
    | inr ne ↦ omega (
      arith,
      merge-total_ne (covers a) l i index sp freed merged e k ne,
      c a,
      covers-dead a,
      v.tiles a,
    )
  ]

  merge-gained :
      (a : ℕ)
      → total (covers_free a) (set (set l i merged) index dead) + covers_free a freed
        ≡ total (covers_free a) l + covers a freed
  merge-gained a = elim (eq_or_ne i index) [
    | inl q ↦
        let same : sp ≡ freed = some-injective sp freed (sym e ∙ ap (get_elem? l) q ∙ k) in
        rw (← q) (
          omega (
            arith,
            merge-total_eq (covers_free a) l i sp merged e,
            ap (covers a) same,
            covers_free-eq a sp f,
            covers_free-le a freed,
            c a,
            covers-le a merged,
          ))
    | inr ne ↦ omega (
      arith,
      merge-total_ne (covers_free a) l i index sp freed merged e k ne,
      covers_free-eq a sp f,
      covers_free-eq a merged m,
      c a,
    )
  ]

  pub merge-IsReleased : IsReleased l (set (set l i merged) index dead) freed
  merge-IsReleased = record {
    tiled = record {
      each =
          All-set IsSpace _ index dead (All-set IsSpace l i merged v.each (inr b))
            (inl (record { no_start = refl; no_end = refl; unused = refl }));
      tiles = merge-tiles;
    };
    gained = merge-gained;
  }
