-- ===== src/UserHeap/Merge.antt =====
-- The merge loops of `free`, case by case.
use fos_simple_os.Prelude.{
  All-get_elem?, ℕ, ◌+◌, ◌≡◌, ◌⊎◌, refl, inl, inr, List, Bool, true, false, some, arith, get_elem?,
  set, ◌==◌, ◌&&◌, add32, All,
}
use fos_simple_os.UserHeap.{Space, dead, merge_left, merge_right, release}
use fos_simple_os.UserHeap.Arrays.{total-set, All-set, find-cases}
use fos_simple_os.UserHeap.Layout.{IsSpace, IsBlock, IsTiled, covers, covers_free}
use fos_simple_os.UserHeap.Malloc.{free-IsBlock}
use fos_simple_os.UserHeap.Free.{IsReleased, merge-IsReleased}

-- `freed` behind `sp` makes one block, and `freed` before `sp` too.
abbrev pub merged_left : Space → Space → Space
merged_left sp freed = record sp {
  end_address = freed.end_address;
  pages = add32 sp.pages freed.pages;
}

abbrev pub merged_right : Space → Space → Space
merged_right sp freed = record sp {
  str_address = freed.str_address;
  pages = add32 sp.pages freed.pages;
}

merged_left-IsBlock :
    (sp freed : Space)
    → IsBlock sp
    → IsBlock freed
    → freed.str_address ≡ sp.end_address
    → IsBlock (merged_left sp freed)
merged_left-IsBlock sp freed b d e =
    omega (arith, b.above, b.below, b.sized, d.above, d.below, d.sized)

merged_right-IsBlock :
    (sp freed : Space)
    → IsBlock sp
    → IsBlock freed
    → freed.end_address ≡ sp.str_address
    → IsBlock (merged_right sp freed)
merged_right-IsBlock sp freed b d e =
    omega (arith, b.above, b.below, b.sized, d.above, d.below, d.sized)

merged_left-covers :
    (a : ℕ) (sp freed : Space)
    → IsBlock sp
    → IsBlock freed
    → freed.str_address ≡ sp.end_address
    → covers a (merged_left sp freed) ≡ covers a sp + covers a freed
merged_left-covers a sp freed b d e = ground (arith, b.sized, d.sized)

merged_right-covers :
    (a : ℕ) (sp freed : Space)
    → IsBlock sp
    → IsBlock freed
    → freed.end_address ≡ sp.str_address
    → covers a (merged_right sp freed) ≡ covers a sp + covers a freed
merged_right-covers a sp freed b d e = ground (arith, b.sized, d.sized)

adjacent : (sp : Space) (x y : ℕ) → (sp.is_free && (x == y)) ≡ true → (sp.is_free ≡ true) × (x ≡ y)
adjacent sp x y h = ground arith

-- A free entry that ends where the block starts, and one that starts where it ends.
abbrev pub is_left : Space → Space → Bool
is_left freed sp = sp.is_free && (freed.str_address == sp.end_address)

abbrev pub is_right : Space → Space → Bool
is_right freed sp = sp.is_free && (freed.end_address == sp.str_address)

-- The block goes into an entry with the property, and its own entry is dead.
pub record IsMerged (l l' : List Space) (index : ℕ) (p : Space → Bool) (join : Space → Space)
    : Type 0 where
  pub at : ℕ
  pub into : Space
  pub found : get_elem? l at ≡ some into
  pub fits : p into ≡ true
  pub merged : l' ≡ set (set l at (join into)) index dead

-- The array behind the merges: into the left neighbour if one is free, else into the right one, and
-- only without both is the block's own entry set free.
abbrev pub Joined : List Space → List Space → ℕ → Space → Type 0
Joined l l' index freed =
    IsMerged l l' index (is_left freed) (λ sp. merged_left sp freed)
    ⊎ (All (λ sp. is_left freed sp ≡ false) l
        × (IsMerged l l' index (is_right freed) (λ sp. merged_right sp freed)
            ⊎ (All (λ sp. is_right freed sp ≡ false) l
                × (l' ≡ set l index (record freed { is_free = true })))))

-- What a merge loop leaves: nothing merged, or the block set free and its entry dead.
abbrev Merged :
    List Space → Space → ℕ → (Space → Bool) → (Space → Space) → List Space × Space × Bool → Type 0
Merged l freed index p join r =
    ((r ≡ (l, freed, false)) × All (λ sp. p sp ≡ false) l)
    ⊎ ((l' : List Space) × (r ≡ (l', dead, true))
        × IsReleased l l' freed
        × IsMerged l l' index p join)

merge_left-Merged :
    (l : List Space) (index : ℕ) (freed : Space)
    → IsTiled l
    → get_elem? l index ≡ some freed
    → IsBlock freed
    → Merged l freed index (is_left freed) (λ sp. merged_left sp freed) (merge_left l index freed)
unfolding merge_left
merge_left-Merged l index freed v k d =
    elim (find-cases (λ sp. sp.is_free && (freed.str_address == sp.end_address)) l) [
      | inl (e, n) ↦ inl (rw (e, merge_left), n)
      | inr (i, sp, e, g, t) ↦
          let (f, q) = adjacent sp freed.str_address sp.end_address t in
          let b = free-IsBlock sp (All-get_elem? IsSpace l i sp v.each g) f in
          inr (
            set (set l i (merged_left sp freed)) index dead,
            rw (e, merge_left),
            merge-IsReleased l i index sp freed (merged_left sp freed) v g k
                (merged_left-IsBlock sp freed b d q) f f (λ a. merged_left-covers a sp freed b d q),
            record { at = i; into = sp; found = g; fits = t; merged = refl },
          )
    ]

merge_right-Merged :
    (l : List Space) (index : ℕ) (freed : Space)
    → IsTiled l
    → get_elem? l index ≡ some freed
    → IsBlock freed
    → Merged l freed index
        (is_right freed)
        (λ sp. merged_right sp freed)
        (merge_right l index freed)
unfolding merge_right
merge_right-Merged l index freed v k d =
    elim (find-cases (λ sp. sp.is_free && (freed.end_address == sp.str_address)) l) [
      | inl (e, n) ↦ inl (rw (e, merge_right), n)
      | inr (i, sp, e, g, t) ↦
          let (f, q) = adjacent sp freed.end_address sp.str_address t in
          let b = free-IsBlock sp (All-get_elem? IsSpace l i sp v.each g) f in
          inr (
            set (set l i (merged_right sp freed)) index dead,
            rw (e, merge_right),
            merge-IsReleased l i index sp freed (merged_right sp freed) v g k
                (merged_right-IsBlock sp freed b d q) f f
                (λ a. merged_right-covers a sp freed b d q),
            record { at = i; into = sp; found = g; fits = t; merged = refl },
          )
    ]

-- Behind a left merge the right one finds nothing: the entry that it looks at is dead.
merge_right-dead :
    (l : List Space) (index : ℕ) → IsTiled l → merge_right l index dead ≡ (l, dead, false)
unfolding merge_right
merge_right-dead l index v = elim (find-cases (λ sp. sp.is_free && (0 == sp.str_address)) l) [
  | inl (e, n) ↦ rw (e, merge_right)
  | inr (i, sp, e, g, t) ↦
      let (f, q) = adjacent sp 0 sp.str_address t in
      let b = free-IsBlock sp (All-get_elem? IsSpace l i sp v.each g) f in
      absurd (omega (arith, b.above, q))
]

-- With no merge the block's own entry becomes free.
unmerged-IsReleased :
    (l : List Space) (index : ℕ) (freed : Space)
    → IsTiled l
    → get_elem? l index ≡ some freed
    → IsBlock freed
    → IsReleased l (set l index (record freed { is_free = true })) freed
unmerged-IsReleased l index freed v k d =
    let new : Space = record freed { is_free = true } in
    record {
      tiled = record {
        each =
            All-set IsSpace l index new v.each
              (inr (record { above = d.above; below = d.below; sized = d.sized }));
        tiles = λ a. omega (arith, total-set (covers a) l index freed new k, v.tiles a);
      };
      gained = λ a. omega (arith, total-set (covers_free a) l index freed new k);
    }

pub release-IsReleased :
    (l : List Space) (index : ℕ) (freed : Space)
    → IsTiled l
    → get_elem? l index ≡ some freed
    → IsBlock freed
    → IsReleased l (release l index freed) freed × Joined l (release l index freed) index freed
unfolding release
release-IsReleased l index freed v k d = elim (merge_left-Merged l index freed v k d) [
  | inr (l', e, r, j) ↦ rw (e, merge_right-dead l' index r.tiled) (r, inl j)
  | inl (e, n) ↦ rw e (elim (merge_right-Merged l index freed v k d) [
    | inr (l', e', r, j) ↦ rw e' (r, inr (n, inl j))
    | inl (e', n') ↦ rw e' (unmerged-IsReleased l index freed v k d, inr (n, inr (n', refl)))
  ])
]
