-- ===== src/Memory/PageFile.antt =====
-- The page file: PROJECT_template/kern/file_manager.c. The disk driver reads and writes whole
-- frames and does not fail here.
use fos_simple_os.Prelude.{
  ℕ, ◌/◌, [], ◌∷◌, Bool, true, false, ◌&&◌, if◌then◌else◌, ◌==◌, ltb, add32, Option, none, some,
  ◌>>=◌, round_down,
}
use fos_simple_os.Memory.{
  Mem, put, page, pdx, allocate_frame, pt_set_page_permissions, no_perm, only_modified,
}

abbrev pub kernel_base : ℕ
kernel_base = 4026531840

-- `get_disk_page_directory`: a new directory has no tables.
unfoldable pub get_disk_page_directory : Mem → Option Mem
get_disk_page_directory m = if m.disk_directory then some m else do
  (f, m1) ← allocate_frame m
  some (record m1 {
    references = put m1.references f 1;
    disk_directory = true;
    directory_frame = f;
    disk_tables = λ d. false;
  })

-- The pages of a table at a directory entry have no disk frame.
abbrev pub clear_disk_table : (ℕ → ℕ) → ℕ → ℕ → ℕ
clear_disk_table pages d p = if d == p / 1024 then 0 else pages p

-- `get_disk_page_table` with `create` 1
unfoldable pub create_disk_page_table : Mem → ℕ → Option Mem
create_disk_page_table m va = if m.disk_tables (pdx va) then some m else do
  (f, m1) ← allocate_frame m
  some (record m1 {
    references = put m1.references f 1;
    disk_tables = put m1.disk_tables (pdx va) true;
    disk_table_frames = put m1.disk_table_frames (pdx va) f;
    disk_pages = clear_disk_table m1.disk_pages (pdx va);
  })

-- `get_disk_page_table` with `create` 0, and the entry read: 0 without a table.
unfoldable pub disk_frame_of : Mem → ℕ → ℕ
disk_frame_of m va = if m.disk_tables (pdx va) then m.disk_pages (page va) else 0

-- `allocate_disk_frame`, and its store to the table: no result is E_NO_PAGE_FILE_SPACE.
unfoldable pub allocate_disk_frame : Mem → ℕ → Mem × Bool
allocate_disk_frame m va = elim m.disk_free [
  | [] ↦ (m, false)
  | d ∷ rest ↦ (record m { disk_free = rest; disk_pages = put m.disk_pages (page va) d }, true)
]

-- `pf_add_empty_env_page` with `initializeByZero` 0: whether it returns 0.
unfoldable pub pf_add_empty_env_page : Mem → ℕ → Option (Mem × Bool)
pf_add_empty_env_page m va =
    if ltb va kernel_base
    then (do
      m1 ← get_disk_page_directory m
      m2 ← create_disk_page_table m1 va
      some (if m2.disk_pages (page va) == 0 then allocate_disk_frame m2 va else (m2, true)))
    else none

-- `pf_update_env_page`: the result is E_PAGE_NOT_EXIST_IN_PF or 0, which no caller reads.
unfoldable pub pf_update_env_page : Mem → ℕ → ℕ → Option Mem
unfolding get_disk_page_directory disk_frame_of
pf_update_env_page m va f =
    if ltb va kernel_base
    then (do
      m1 ← get_disk_page_directory (record m { page_out = add32 m.page_out 1 })
      some (
          if disk_frame_of m1 va == 0
          then m1
          else record m1 { disk = put m1.disk (disk_frame_of m1 va) (m1.ram f) }))
    else none

-- `pf_read_env_page` of a page that is mapped: whether the page is in the page file.
unfoldable pub pf_read_env_page : Mem → ℕ → Option (Mem × Bool)
unfolding disk_frame_of pt_set_page_permissions
pf_read_env_page m address =
    let va : ℕ = round_down address 4096 in
    let m1 : Mem = record m { page_in = add32 m.page_in 1 } in
    let d : ℕ = if m1.disk_directory then disk_frame_of m1 va else 0 in
    if d == 0 then some (m1, false) else do
      m2 ←
          pt_set_page_permissions
            (record m1 { ram = put m1.ram (m1.pages (page va)).frame (m1.disk d) }) va no_perm
            only_modified
      some (m2, true)

-- `pf_remove_env_page`, with `free_disk_frame`
unfoldable pub pf_remove_env_page : Mem → ℕ → Mem
pf_remove_env_page m va =
    if m.disk_directory && m.disk_tables (pdx va)
    then (let d : ℕ = m.disk_pages (page va) in
        record m {
          disk_pages = put m.disk_pages (page va) 0;
          disk_free = if d == 0 then m.disk_free else d ∷ m.disk_free;
        })
    else m
