-- ===== src/Memory/UserPages.antt =====
-- allocateMem of PROJECT_template/kern/memory_manager.c: the pages that sys_allocateMem gives to a
-- user heap.
pub mod Mapped
pub mod Enough
use fos_simple_os.Prelude.{
  ℕ, zero, suc, ◌/◌, Bool, Option, none, some, ◌>>=◌, if◌then◌else◌, add32, Each, Each-bind,
  Each-if,
}
use fos_simple_os.Memory.{Mem, allocate_frame, map_frame, user_page}
use fos_simple_os.Memory.PageFile.{pf_add_empty_env_page}
use fos_simple_os.Memory.Safe.{IsSafe, IsFresh, allocate_frame-IsSafe}
use fos_simple_os.Memory.Paging.{fresh-IsOwn, map_frame-IsSafe}
use fos_simple_os.Memory.Filing.{pf_add-IsSafe}

-- The frame of a page and its mapping; allocate_frame never returns E_NO_MEM.
unfoldable pub back_page : Mem → ℕ → Option Mem
back_page m va = do (f, m1) ← allocate_frame m; map_frame m1 f va user_page

-- The loop over the pages. Without a disk frame the kernel panics.
unfoldable pub allocate_pages : ℕ → Mem → ℕ → Option Mem
unfolding back_page
allocate_pages zero m va = some m
allocate_pages (suc n) m va = do
  (m1, added) ← pf_add_empty_env_page m va
  m2 ← if added then back_page m1 va else none
  allocate_pages n m2 (add32 va 4096)

-- `allocateMem`
unfoldable pub allocate_mem : Mem → ℕ → ℕ → Option Mem
unfolding allocate_pages
allocate_mem m va size = allocate_pages (size / 4096) m va

back_page-IsSafe : (m : Mem) (va : ℕ) → IsSafe m → Each IsSafe (back_page m va)
unfolding back_page
back_page-IsSafe m va s =
    Each-bind {A = ℕ × Mem} (λ r. IsSafe r.1 × IsFresh r.0 r.1) IsSafe (allocate_frame m) _
      (allocate_frame-IsSafe m s)
      (λ r h. map_frame-IsSafe r.1 r.0 va user_page h.0 (fresh-IsOwn h.1))

allocate_pages-IsSafe : (n : ℕ) (m : Mem) (va : ℕ) → IsSafe m → Each IsSafe (allocate_pages n m va)
unfolding allocate_pages
allocate_pages-IsSafe zero m va s = s
allocate_pages-IsSafe (suc n) m va s =
    Each-bind {A = Mem × Bool} (λ r. IsSafe r.0) IsSafe (pf_add_empty_env_page m va) _
      (pf_add-IsSafe m va s)
      (λ r s1.
        Each-bind IsSafe IsSafe (if r.1 then back_page r.0 va else none) _
          (Each-if IsSafe r.1 _ none (λ b. back_page-IsSafe r.0 va s1) (λ b. tt))
          (λ m2 s2. allocate_pages-IsSafe n m2 (add32 va 4096) s2))

-- When allocateMem returns, it has kept the frames accounted for, whatever pages of the range were
-- mapped before.
pub allocate_mem-IsSafe : (m : Mem) (va size : ℕ) → IsSafe m → Each IsSafe (allocate_mem m va size)
unfolding allocate_mem
allocate_mem-IsSafe m va size s = allocate_pages-IsSafe (size / 4096) m va s
