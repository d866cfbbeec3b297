-- ===== src/HeapPages.antt =====
-- freeMem of PROJECT_template/kern/memory_manager.c, which sys_freeMem calls: the pages of a range go
-- from the page file, and those in the working set from the memory, with the page tables that become
-- empty. The kernel maps the page tables above KERNEL_BASE, so the frame of a table is found there.
-- A node that moves from list to list is its contents.
pub mod Steps
pub mod Freed
pub mod Range
mod Tests
use fos_simple_os.Prelude.{
  ℕ, zero, suc, ◌+◌, ◌-◌, ◌*◌, ◌/◌, List, [], ◌∷◌, ◌++◌, Bool, true, false, not, ◌&&◌,
  if◌then◌else◌, ◌==◌, add32, round_up, Option, none, some, ◌>>=◌,
}
use fos_simple_os.Memory.{
  Mem, Perm, no_perm, user_page, put, pdx, is_used, free_frame, unmap_frame,
  pt_clear_page_table_entry, pt_set_page_permissions,
}
use fos_simple_os.Memory.PageFile.{pf_remove_env_page}
use fos_simple_os.PageFault.{Env, WorkingSetElement}

-- The loop that takes the pages from the page file.
pub remove_pages : ℕ → Mem → ℕ → Mem
remove_pages zero m va = m
remove_pages (suc n) m va = remove_pages n (pf_remove_env_page m va) (add32 va 4096)

-- The first `n` entries of a page table are 0.
pub no_entries : Mem → ℕ → ℕ → Bool
no_entries m d zero = true
no_entries m d (suc n) =
    let rest : Bool = no_entries m d n in not (is_used (m.pages (d * 1024 + n))) && rest

-- An empty page table is freed.
pub release_table : Mem → ℕ → Mem
unfolding free_frame no_entries
release_table m va =
    if m.tables (pdx va) && no_entries m (pdx va) 1024
    then record (free_frame m (m.table_frames (pdx va))) { tables = put m.tables (pdx va) false }
    else m

-- unmap_frame and the clearing of the entry.
pub unload : Mem → ℕ → Option Mem
unload m va = pt_clear_page_table_entry (unmap_frame m va) va

-- The walk over the active list at its rest, behind the elements `before`; `second` is the second
-- list. The walk has the next element before the body adds one at the end.
pub walk_active :
    ℕ → List WorkingSetElement → List WorkingSetElement → List WorkingSetElement → Env → Option Env
unfolding unload release_table
walk_active va second [] before e = some (record e { active = before; second = second })
walk_active va [] (x ∷ rest) before e = elim (x.virtual_address == va) [
  | false ↦ walk_active va [] rest (before ++ x ∷ []) e
  | true ↦ do
    m1 ← unload e.mem va
    walk_active va [] rest before (record e {
      mem = release_table m1 va;
      page_list = record x { empty = true } ∷ e.page_list;
    })
]
walk_active va (s ∷ second) (x ∷ []) before e = elim (x.virtual_address == va) [
  | false ↦ some (record e { active = before ++ x ∷ []; second = s ∷ second })
  | true ↦ do
    m1 ← unload e.mem va
    m2 ← pt_set_page_permissions m1 s.virtual_address user_page no_perm
    some (record e {
      mem = release_table m2 va;
      page_list = record x { empty = true } ∷ e.page_list;
      active = before ++ s ∷ [];
      second = second;
    })
]
walk_active va (s ∷ second) (x ∷ y ∷ rest) before e = elim (x.virtual_address == va) [
  | false ↦ walk_active va (s ∷ second) (y ∷ rest) (before ++ x ∷ []) e
  | true ↦ do
    m1 ← unload e.mem va
    m2 ← pt_set_page_permissions m1 s.virtual_address user_page no_perm
    walk_active va second (y ∷ rest ++ s ∷ []) before (record e {
      mem = release_table m2 va;
      page_list = record x { empty = true } ∷ e.page_list;
    })
]

-- The walk over the second list.
pub walk_second : ℕ → List WorkingSetElement → List WorkingSetElement → Env → Option Env
unfolding unload release_table
walk_second va [] before e = some (record e { second = before })
walk_second va (x ∷ rest) before e = elim (x.virtual_address == va) [
  | false ↦ walk_second va rest (before ++ x ∷ []) e
  | true ↦ do
    m1 ← unload e.mem va
    walk_second va rest before (record e {
      mem = release_table m1 va;
      page_list = record x { empty = true } ∷ e.page_list;
    })
]

-- Both walks for one page.
pub free_page : Env → ℕ → Option Env
unfolding walk_active walk_second
free_page e va = do e1 ← walk_active va e.second e.active [] e; walk_second va e1.second [] e1

pub free_pages : ℕ → Env → ℕ → Option Env
unfolding free_page
free_pages zero e va = some e
free_pages (suc n) e va = do e1 ← free_page e va; free_pages n e1 (add32 va 4096)

-- `freeMem`
unfoldable pub free_mem : Env → ℕ → ℕ → Option Env
unfolding free_pages remove_pages
free_mem e va size =
    let n : ℕ = round_up size 4096 / 4096 in
    free_pages n (record e { mem = remove_pages n e.mem va }) va
