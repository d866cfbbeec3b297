-- ===== src/UserHeap/Backed.antt =====
-- malloc of PROJECT_template/lib/uheap.c with the kernel behind it: the system call sys_allocateMem of
-- PROJECT_template/kern/syscall.c, run on the address and the size that malloc passes.
use fos_simple_os.Prelude.{
  All-get_elem?, ℕ, ◌*◌, ◌/◌, ◌≤◌, ◌≡◌, sym, subst, ◌⊎◌, inl, inr, ◌∷◌, Each, Option, some, arith,
  length, page_size,
}
use fos_simple_os.Memory.{Mem}
use fos_simple_os.Memory.Safe.{IsSafe}
use fos_simple_os.Memory.UserPages
use fos_simple_os.Memory.UserPages.{allocate_mem-IsSafe}
use fos_simple_os.Memory.UserPages.Mapped.{MapsRange}
use fos_simple_os.Memory.UserPages.Enough.{IsEnough, allocate_mem-returns}
use fos_simple_os.UserHeap.{
  Space, Heap, Outcome, returned, overrun, allocate_mem, num_pages, malloc, set_up, req_pages,
}
use fos_simple_os.UserHeap.Layout.{IsSpace, IsBlock}
use fos_simple_os.UserHeap.Search.{IsBestFit, NoFit}
use fos_simple_os.UserHeap.Malloc.{IsReady, IsTaken, Placed, free-IsBlock, malloc_cases}

-- `sys_allocateMem`
unfoldable pub sys_allocate_mem : Mem → ℕ → ℕ → Option Mem
sys_allocate_mem m va size = UserPages.allocate_mem m va size

-- The heap took `n` pages from `p` on and made the one system call for them, which returns with
-- every one of them mapped and the frames accounted for.
pub record IsBacked (h h' : Heap) (n p : ℕ) (m : Mem) : Type 0 where
  pub after : Mem
  pub taken : IsTaken (set_up h.spaces) h'.spaces p (n * page_size)
  pub calls : h'.calls ≡ allocate_mem p (n * page_size) ∷ h.calls
  pub returns : sys_allocate_mem m p (n * page_size) ≡ some after
  pub maps : MapsRange n p m after
  pub safe : IsSafe after

call-IsSafe : (m m' : Mem) (p size : ℕ) → IsSafe m → sys_allocate_mem m p size ≡ some m' → IsSafe m'
unfolding sys_allocate_mem
call-IsSafe m m' p size s q = subst (Each IsSafe) q (allocate_mem-IsSafe m p size s)

pages_back : (n : ℕ) → n * 4096 / 4096 ≡ n
pages_back n = omega arith

-- The call that `malloc` makes for the first `n` pages of a block.
block-returns :
    (sp : Space) (n : ℕ) (m : Mem)
    → IsBlock sp
    → n ≤ sp.pages
    → IsEnough (3 * n) n m
    → (m' : Mem) × (sys_allocate_mem m sp.str_address (n * page_size) ≡ some m')
      × MapsRange n sp.str_address m m'
unfolding sys_allocate_mem
block-returns sp n m b f e =
    subst
      (λ k.
        (m' : Mem) × (sys_allocate_mem m sp.str_address (n * page_size) ≡ some m')
        × MapsRange k sp.str_address m m')
      (pages_back n)
      (allocate_mem-returns m sp.str_address (n * page_size) (omega (arith, b.below, b.sized, f))
        (subst (λ k. IsEnough (3 * k) k m) (sym (pages_back n)) e))

-- The end of `malloc` on a block that fits.
Placed-IsBacked :
    (h : Heap) (n j : ℕ) (sp : Space) (o : Outcome) (m : Mem)
    → IsReady h
    → IsSafe m
    → IsBestFit n (set_up h.spaces) j sp
    → IsEnough (3 * n) n m
    → Placed h (set_up h.spaces) n sp o
    → ((o ≡ overrun) × (num_pages ≤ length (set_up h.spaces)))
      ⊎ ((p : ℕ) × (h' : Heap) × (o ≡ returned p h') × IsBacked h h' n p m)
Placed-IsBacked h n j sp o m r s best e (inl (q, full, ne)) = inl (q, full)
Placed-IsBacked h n j sp o m r s best e (inr (h', q, c, t)) =
    let b =
      free-IsBlock sp (All-get_elem? IsSpace (set_up h.spaces) j sp r.each best.at) best.fits.0 in
    let (m', returns, maps) = block-returns sp n m b best.fits.1 e in
    inr (
      sp.str_address,
      h',
      q,
      record {
        after = m';
        taken = t;
        calls = c;
        returns = returns;
        maps = maps;
        safe = call-IsSafe m m' sp.str_address (n * page_size) s returns;
      },
    )

-- On a tiled heap, with the frames accounted for, a page file, a free disk frame and three free
-- frames for each page of the rounded size: malloc returns NULL because no free block has the pages,
-- or it needs an array entry behind the last one, or it returns a block whose pages were free before
-- and makes one system call for them, which returns with all of them mapped, with the pages mapped
-- before still mapped, and with the frames accounted for.
pub malloc-IsBacked :
    (h : Heap) (size : ℕ) (m : Mem)
    → IsReady h
    → IsSafe m
    → IsEnough (3 * req_pages size) (req_pages size) m
    → ((malloc h size ≡ returned 0 (record h { spaces = set_up h.spaces }))
        × NoFit (req_pages size) (set_up h.spaces))
      ⊎ ((malloc h size ≡ overrun) × (num_pages ≤ length (set_up h.spaces)))
      ⊎ ((p : ℕ) × (h' : Heap) × (malloc h size ≡ returned p h')
          × IsBacked h h' (req_pages size) p m)
malloc-IsBacked h size m r s e = elim (malloc_cases h size r) [
  | inl none_fits ↦ inl none_fits
  | inr (j, sp, best, placed) ↦
      inr (Placed-IsBacked h (req_pages size) j sp (malloc h size) m r s best e placed)
]
