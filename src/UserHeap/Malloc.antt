-- ===== src/UserHeap/Malloc.antt =====
-- What `malloc` does to the heap on each of its branches.
use fos_simple_os.Prelude.{
  All-get_elem?, ℕ, ◌+◌, ◌*◌, ◌-◌, ◌^◌, ◌<◌, ◌≤◌, ◌≡◌, ◌≢◌, refl, ◌⊎◌, inl, inr, List, [], ◌∷◌,
  ◌++◌, true, false, Option, none, some, arith, length, get_elem?, set, All-append, Bool-cases,
  eq_or_ne, leb→le, ==_refl, ==_ne, if◌then◌else◌, ltb, leb, ◌&&◌, page_size, sub32, add32, u32,
}
use fos_simple_os.UserHeap.{
  Space, Heap, Outcome, returned, overrun, allocate_mem, num_pages, place, finish, malloc, set_up,
  search, req_pages,
}
use fos_simple_os.UserHeap.Arrays.{total, total-append, total-set, All-set}
use fos_simple_os.UserHeap.Layout.{IsSpace, IsBlock, IsTiled, covers, covers_free}
use fos_simple_os.UserHeap.Search.{Fits, NoFit, IsBestFit, Chosen, search-Chosen}

-- 1 on the `bytes` addresses from `p` on.
abbrev pub in_range : ℕ → ℕ → ℕ → ℕ
in_range a p bytes = if leb p a && ltb a (p + bytes) then 1 else 0

-- From `l` to `l'` the `bytes` from `p` on went from free to allocated, and the tiling was kept.
pub record IsTaken (l l' : List Space) (p bytes : ℕ) : Type 0 where
  pub tiled : IsTiled l'
  pub taken : (a : ℕ) → total (covers_free a) l' + in_range a p bytes ≡ total (covers_free a) l

pub free-IsBlock : (sp : Space) → IsSpace sp → sp.is_free ≡ true → IsBlock sp
free-IsBlock sp (inl d) f = absurd (cc (d.unused))
free-IsBlock sp (inr d) f = d

free-covers :
    (a : ℕ) (sp : Space)
    → IsBlock sp
    → sp.is_free ≡ true
    → covers_free a sp ≡ in_range a sp.str_address (sp.pages * page_size)
free-covers a sp b f = rw (f, b.sized) refl

exact-IsTaken :
    (l : List Space) (j : ℕ) (sp : Space)
    → IsTiled l
    → get_elem? l j ≡ some sp
    → sp.is_free ≡ true
    → IsTaken l (set l j (record sp { is_free = false })) sp.str_address (sp.pages * page_size)
exact-IsTaken l j sp v e f =
    let b = free-IsBlock sp (All-get_elem? IsSpace l j sp v.each e) f in
    let sp' : Space = record sp { is_free = false } in
    record {
      tiled = record {
        each =
            All-set IsSpace l j sp' v.each
              (inr (record { above = b.above; below = b.below; sized = b.sized }));
        tiles = λ a. omega (arith, total-set (covers a) l j sp sp' e, v.tiles a);
      };
      taken = λ a. omega (arith, total-set (covers_free a) l j sp sp' e, free-covers a sp b f);
    }

-- The two parts into which `malloc` splits a block.
abbrev taken_part : ℕ → Space → Space
taken_part req sp = record {
  str_address = sp.str_address;
  end_address = sp.str_address + req * page_size;
  pages = req;
  is_free = false;
}

abbrev rest_part : ℕ → Space → Space
rest_part req sp = record {
  str_address = sp.str_address + req * page_size;
  end_address = sp.end_address;
  pages = sp.pages - req;
  is_free = true;
}

parts-cover :
    (a req : ℕ) (sp : Space)
    → IsBlock sp
    → req ≤ sp.pages
    → covers a (taken_part req sp) + covers a (rest_part req sp) ≡ covers a sp
parts-cover a req sp b h = ground (arith, b.sized)

rest-covers :
    (a req : ℕ) (sp : Space)
    → IsBlock sp
    → Fits req sp
    → covers_free a (rest_part req sp) + in_range a sp.str_address (req * page_size)
      ≡ covers_free a sp
rest-covers a req sp b h = rw h.0 (ground (arith, b.sized, h.1))

split-IsTaken :
    (l : List Space) (j req : ℕ) (sp : Space)
    → IsTiled l
    → get_elem? l j ≡ some sp
    → Fits req sp
    → IsTaken l
        (set l j (taken_part req sp) ++ rest_part req sp ∷ [])
        sp.str_address
        (req * page_size)
unfolding total
split-IsTaken l j req sp v e f =
    let b = free-IsBlock sp (All-get_elem? IsSpace l j sp v.each e) f.0 in
    let t = taken_part req sp in
    let r = rest_part req sp in
    record {
      tiled = record {
        each =
            All-append IsSpace (set l j t) (r ∷ [])
              (All-set IsSpace l j t v.each (inr (omega (arith, b.above, b.below, b.sized, f.1))))
              (inr (omega (arith, b.above, b.below, b.sized, f.1)), tt);
        tiles = λ a. omega (
          arith,
          total-append (covers a) (set l j t) (r ∷ []),
          total-set (covers a) l j sp t e,
          parts-cover a req sp b f.1,
          v.tiles a,
        );
      };
      taken = λ a. omega (
        arith,
        total-append (covers_free a) (set l j t) (r ∷ []),
        total-set (covers_free a) l j sp t e,
        rest-covers a req sp b f,
      );
    }

-- The end of `malloc` on a block that fits: it runs out of array entries, or takes the block's
-- first `req` pages and tells the kernel.
abbrev pub Placed : Heap → List Space → ℕ → Space → Outcome → Type 0
Placed h l req sp o =
    ((o ≡ overrun) × (num_pages ≤ length l) × (req ≢ sp.pages))
    ⊎ ((h' : Heap) × (o ≡ returned sp.str_address h')
        × (h'.calls ≡ allocate_mem sp.str_address (req * page_size) ∷ h.calls)
        × IsTaken l h'.spaces sp.str_address (req * page_size))

-- The 32-bit arithmetic of `place` does not wrap on a block of the heap.
no_wrap :
    (req : ℕ) (sp : Space)
    → IsBlock sp
    → req ≤ sp.pages
    → (u32 (req * page_size) ≡ req * page_size)
      × (add32 sp.str_address (u32 (req * page_size)) ≡ sp.str_address + req * page_size)
      × (sub32 sp.pages req ≡ sp.pages - req)
no_wrap req sp b h = omega (arith, b.above, b.below, b.sized)

place-exact :
    (h : Heap) (l : List Space) (j : ℕ) (sp : Space)
    → IsBlock sp
    → place h l sp.pages j sp
      ≡ returned sp.str_address (record {
        spaces = set l j (record sp { is_free = false });
        calls = allocate_mem sp.str_address (sp.pages * page_size) ∷ h.calls;
      })
unfolding place
place-exact h l j sp b = rw (==_refl sp.pages, (no_wrap sp.pages sp b (omega arith)).0)

place-split :
    (h : Heap) (l : List Space) (req j : ℕ) (sp : Space)
    → IsBlock sp
    → req ≤ sp.pages
    → req ≢ sp.pages
    → place h l req j sp ≡ (
        if leb num_pages (length l)
        then overrun
        else returned sp.str_address (record {
          spaces = set l j (taken_part req sp) ++ rest_part req sp ∷ [];
          calls = allocate_mem sp.str_address (req * page_size) ∷ h.calls;
        }))
unfolding place
place-split h l req j sp b f ne =
    let w = no_wrap req sp b f in rw (==_ne req sp.pages ne, w.1, w.2, w.0)

place-Placed :
    (h : Heap) (l : List Space) (req j : ℕ) (sp : Space)
    → IsTiled l
    → get_elem? l j ≡ some sp
    → Fits req sp
    → Placed h l req sp (place h l req j sp)
place-Placed h l req j sp v e f =
    let b = free-IsBlock sp (All-get_elem? IsSpace l j sp v.each e) f.0 in
    elim (eq_or_ne req sp.pages) [
      | inl eq ↦ rw eq (inr (_, place-exact h l j sp b, refl, exact-IsTaken l j sp v e f.0))
      | inr ne ↦
          rw (place-split h l req j sp b f.1 ne) (elim (Bool-cases (leb num_pages (length l))) [
            | inl t ↦ rw t (inl (refl, leb→le _ _ t, ne))
            | inr t ↦ rw t (inr (_, refl, refl, split-IsTaken l j req sp v e f))
          ])
    ]

-- A request whose rounded size is `req` pages, on a tiled array.
finish-cases :
    (h : Heap) (l : List Space) (req : ℕ)
    → IsTiled l
    → req < 2 ^ 31
    → (let o = finish h l req (search req 0 (num_pages + 1) none l).1 in
        ((o ≡ returned 0 (record h { spaces = l })) × NoFit req l)
        ⊎ ((j : ℕ) × (sp : Space) × IsBestFit req l j sp × Placed h l req sp o))
unfolding finish
finish-cases h l req v r = pick (search-Chosen req l v.each r)
  where
    pick :
        {index : Option ℕ}
        → Chosen req l index
        → ((finish h l req index ≡ returned 0 (record h { spaces = l })) × NoFit req l)
          ⊎ ((j : ℕ) × (sp : Space) × IsBestFit req l j sp
              × Placed h l req sp (finish h l req index))
    pick (inl (i, n)) = inl (rw i, n)
    pick (inr (j, sp, i, best)) =
        inr (j, sp, best, rw (i, finish, best.at) (place-Placed h l req j sp v best.at best.fits))

-- The array that `malloc` searches, its first entry set up on the first call, tiles the heap.
abbrev pub IsReady : Heap → Type 0
IsReady h = IsTiled (set_up h.spaces)

pub malloc_cases :
    (h : Heap) (size : ℕ)
    → IsReady h
    → ((malloc h size ≡ returned 0 (record h { spaces = set_up h.spaces }))
        × NoFit (req_pages size) (set_up h.spaces))
      ⊎ ((j : ℕ) × (sp : Space) × IsBestFit (req_pages size) (set_up h.spaces) j sp
          × Placed h (set_up h.spaces) (req_pages size) sp (malloc h size))
unfolding malloc
malloc_cases h size v = finish-cases h (set_up h.spaces) (req_pages size) v (omega arith)

-- For a size that does not reach the last page of the address space, the pages asked for are the
-- least that hold it.
pub req_pages-ceil :
    (size : ℕ)
    → size + 4095 < 2 ^ 32
    → (size ≤ req_pages size * page_size) × (req_pages size * page_size < size + page_size)
req_pages-ceil size h = omega arith
