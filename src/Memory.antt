-- ===== src/Memory.antt =====
-- PROJECT_template/kern/memory_manager.c, the frames and page tables of one environment, and the
-- page file of PROJECT_template/kern/file_manager.c as far as page faults use them.
-- Frames are named by their number; a page table entry is kept under the page number, and a page
-- table by the directory entry (PDX) that holds it. USE_KHEAP is 0 and nothing is buffered, so no
-- page table is ever in the page file. The contents of frames and disk frames are values of ℕ: the
-- disk driver copies them. `none` is a kernel panic.
pub mod PageFile
pub mod Kept
pub mod Count
pub mod Safe
pub mod Unmapping
pub mod Mapping
pub mod Paging
pub mod Filing
pub mod Releasing
pub mod UserPages
pub mod Tests
use fos_simple_os.Prelude.{
  ℕ, zero, suc, ◌+◌, ◌-◌, ◌*◌, ◌/◌, ◌%◌, ◌^◌, List, [], ◌∷◌, Bool, true, false, not, ◌&&◌, ◌||◌,
  if◌then◌else◌, ◌==◌, u32, add32, sub32, Option, none, some, ◌>>=◌,
}

-- The low bits of a page table entry, as far as they are used.
pub record Perm : Type 0 where
  pub present : Bool
  pub writeable : Bool
  pub user : Bool
  pub modified : Bool

abbrev pub no_perm : Perm
no_perm = record { present = false; writeable = false; user = false; modified = false }

-- PERM_USER | PERM_WRITEABLE | PERM_PRESENT
abbrev pub user_page : Perm
user_page = record { present = true; writeable = true; user = true; modified = false }

abbrev pub only_present : Perm
only_present = record { present = true; writeable = false; user = false; modified = false }

abbrev pub only_modified : Perm
only_modified = record { present = false; writeable = false; user = false; modified = true }

pub record Entry : Type 0 where
  pub frame : ℕ
  pub perm : Perm

abbrev pub zero_entry : Entry
zero_entry = record { frame = 0; perm = no_perm }

abbrev pub any_perm : Perm → Bool
any_perm p = p.present || (p.writeable || (p.user || p.modified))

-- `page_table_entry != 0`
abbrev pub is_used : Entry → Bool
is_used e = not (e.frame == 0) || any_perm e.perm

pub record Mem : Type 0 where
  pub free_frames : List ℕ  -- free_frame_list
  pub references : ℕ → ℕ
  pub tables : ℕ → Bool  -- whether a directory entry is present
  pub table_frames : ℕ → ℕ  -- the frame of the table at a directory entry
  pub pages : ℕ → Entry
  pub ram : ℕ → ℕ
  pub disk_directory : Bool  -- disk_env_pgdir != 0
  pub directory_frame : ℕ  -- the frame of disk_env_pgdir
  pub disk_tables : ℕ → Bool
  pub disk_table_frames : ℕ → ℕ
  pub disk_pages : ℕ → ℕ  -- the disk frame of a page, 0 for none
  pub disk_free : List ℕ  -- disk_free_frame_list
  pub disk : ℕ → ℕ
  pub page_in : ℕ  -- nPageIn
  pub page_out : ℕ  -- nPageOut

abbrev pub put {ℓ} : {A : Type ℓ} → (ℕ → A) → ℕ → A → ℕ → A
put f k v i = if k == i then v else f i

-- The page number and PDX of an address.
abbrev pub page : ℕ → ℕ
page va = va / 4096

abbrev pub pdx : ℕ → ℕ
pdx va = va / 2 ^ 22

-- USER_TOP
abbrev pub user_top : ℕ
user_top = 0xEEC00000

unfoldable pub allocate_frame : Mem → Option (ℕ × Mem)
allocate_frame m = elim m.free_frames [
  | [] ↦ none
  | f ∷ rest ↦ some (f, record m { free_frames = rest; references = put m.references f 0 })
]

unfoldable pub free_frame : Mem → ℕ → Mem
free_frame m f = record m { references = put m.references f 0; free_frames = f ∷ m.free_frames }

unfoldable pub decrement_references : Mem → ℕ → Mem
unfolding free_frame
decrement_references m f =
    let left : ℕ = sub32 (m.references f) 1 in
    if left == 0 then free_frame m f else record m { references = put m.references f left }

-- `get_frame_info`: the frame of a page, `none` for NULL.
unfoldable pub get_frame_info : Mem → ℕ → Option ℕ
get_frame_info m va =
    if m.tables (pdx va) && is_used (m.pages (page va))
    then some (m.pages (page va)).frame
    else none

unfoldable pub unmap_frame : Mem → ℕ → Mem
unfolding get_frame_info decrement_references
unmap_frame m va = elim (get_frame_info m va) [
  | none ↦ m
  | some f ↦
      let m1 : Mem = decrement_references m f in
      record m1 { pages = put m1.pages (page va) zero_entry }
]

-- The entries of the table at a directory entry become 0.
abbrev pub clear_table : (ℕ → Entry) → ℕ → ℕ → Entry
clear_table pages d p = if d == p / 1024 then zero_entry else pages p

-- `__static_cpt`
unfoldable pub static_cpt : Mem → ℕ → Option Mem
unfolding allocate_frame
static_cpt m va = do
  (f, m1) ← allocate_frame m
  some (record m1 {
    references = put m1.references f 1;
    tables = put m1.tables (pdx va) true;
    table_frames = put m1.table_frames (pdx va) f;
    pages = clear_table m1.pages (pdx va);
  })

-- `map_frame` with its table there. It returns 0 always.
unfoldable pub map_in_table : Mem → ℕ → ℕ → Perm → Mem
unfolding unmap_frame
map_in_table m f va perm =
    let entry : Entry = m.pages (page va) in
    let m1 : Mem = if entry.perm.present then unmap_frame m va else m in
    if entry.perm.present && (entry.frame == f) then m else record m1 {
      references = put m1.references f (add32 (m1.references f) 1);
      pages = put m1.pages (page va) (record { frame = f; perm = record perm { present = true } });
    }

unfoldable pub map_frame : Mem → ℕ → ℕ → Perm → Option Mem
unfolding static_cpt map_in_table
map_frame m f va perm = do
  m1 ← if m.tables (pdx va) then some m else static_cpt m va
  some (map_in_table m1 f va perm)

-- `permissions_to_set`, then `permissions_to_clear`
abbrev pub change_perm : Perm → Perm → Perm → Perm
change_perm p on off = record {
  present = (p.present || on.present) && not off.present;
  writeable = (p.writeable || on.writeable) && not off.writeable;
  user = (p.user || on.user) && not off.user;
  modified = (p.modified || on.modified) && not off.modified;
}

unfoldable pub pt_set_page_permissions : Mem → ℕ → Perm → Perm → Option Mem
pt_set_page_permissions m va on off =
    if m.tables (pdx va)
    then (let e : Entry = m.pages (page va) in
        some (record m {
          pages = put m.pages (page va) (record e { perm = change_perm e.perm on off });
        }))
    else none

unfoldable pub pt_clear_page_table_entry : Mem → ℕ → Option Mem
pt_clear_page_table_entry m va =
    if m.tables (pdx va) then some (record m { pages = put m.pages (page va) zero_entry }) else none

unfoldable pub pt_get_page_permissions : Mem → ℕ → Perm
pt_get_page_permissions m va = if m.tables (pdx va) then (m.pages (page va)).perm else no_perm
