-- ===== src/Memory/Releasing.antt =====
-- The end of a page file: pf_free_env and the counters of PROJECT_template/kern/file_manager.c. No page
-- table is in the page file, so disk_env_tabledir is 0.
pub mod Returned
use fos_simple_os.Prelude.{
  ℕ, zero, suc, ◌+◌, ◌*◌, List, [], ◌∷◌, Bool, true, false, if◌then◌else◌, ◌==◌, Option, none, some,
  length,
}
use fos_simple_os.Memory.{Mem, put, decrement_references}

-- PDX(USER_TOP)
abbrev pub user_tables : ℕ
user_tables = 955

-- An entry of a disk page table becomes 0, and `free_disk_frame` of what it held.
unfoldable pub free_entry : Mem → ℕ → Mem
free_entry m p =
    let d : ℕ = m.disk_pages p in
    record m {
      disk_pages = put m.disk_pages p 0;
      disk_free = if d == 0 then m.disk_free else d ∷ m.disk_free;
    }

-- The loop over the entries of a table, from page `p` on.
unfoldable pub free_entries : ℕ → ℕ → Mem → Mem
unfolding free_entry
free_entries zero p m = m
free_entries (suc n) p m = free_entries n (p + 1) (free_entry m p)

-- The table at a directory entry.
unfoldable pub free_disk_table : Mem → ℕ → Mem
unfolding free_entries decrement_references
free_disk_table m d =
    let m1 : Mem = free_entries 1024 (d * 1024) m in
    decrement_references (record m1 { disk_tables = put m1.disk_tables d false })
      (m1.disk_table_frames d)

-- The loop over the directory, from entry `d` on.
unfoldable pub free_disk_tables : ℕ → ℕ → Mem → Mem
unfolding free_disk_table
free_disk_tables zero d m = m
free_disk_tables (suc n) d m = elim (m.disk_tables d) [
  | true ↦ free_disk_tables n (d + 1) (free_disk_table m d)
  | false ↦ free_disk_tables n (d + 1) m
]

-- `pf_free_env`. An environment without a page file has a NULL directory, which the kernel faults at.
unfoldable pub pf_free_env : Mem → Option Mem
unfolding free_disk_tables decrement_references
pf_free_env m = elim m.disk_directory [
  | false ↦ none
  | true ↦
      let m1 : Mem = free_disk_tables user_tables 0 m in
      let m2 : Mem = decrement_references m1 m1.directory_frame in
      some (record m2 { disk_directory = false; directory_frame = 0 })
]

-- The entries in use among `n` from page `p` on.
pub used_entries : ℕ → ℕ → (ℕ → ℕ) → ℕ
used_entries zero p pages = 0
used_entries (suc n) p pages = (if pages p == 0 then 0 else 1) + used_entries n (p + 1) pages

pub used_in_tables : ℕ → ℕ → (ℕ → Bool) → (ℕ → ℕ) → ℕ
unfolding used_entries
used_in_tables zero d tables pages = 0
used_in_tables (suc n) d tables pages =
    (if tables d then used_entries 1024 (d * 1024) pages else 0)
    + used_in_tables n (d + 1) tables pages

-- `pf_calculate_allocated_pages` and `pf_calculate_free_frames`
pub pf_calculate_allocated_pages : Mem → ℕ
unfolding used_in_tables
pf_calculate_allocated_pages m = used_in_tables user_tables 0 m.disk_tables m.disk_pages

abbrev pub pf_calculate_free_frames : Mem → ℕ
pf_calculate_free_frames m = length m.disk_free
