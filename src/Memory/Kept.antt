-- ===== src/Memory/Kept.antt =====
-- What the operations of the memory keep: the tables, and all but a number of free frames.
use fos_simple_os.Prelude.{
  ℕ, ◌+◌, ◌≤◌, ◌<◌, ◌≡◌, refl, ap, ◌∙◌, List, [], ◌∷◌, Bool, true, not, if◌then◌else◌, ◌==◌, add32,
  some, option_cases, length, arith, inl, inr, eq_or_ne, ==_ne, lt→ltb, Bool-cases, round_down,
}
use fos_simple_os.Memory.{
  Mem, Perm, Entry, page, pdx, put, allocate_frame, decrement_references, map_frame, map_in_table,
  unmap_frame, get_frame_info, pt_set_page_permissions, change_perm, no_perm, only_modified,
}
use fos_simple_os.Memory.PageFile.{
  pf_read_env_page, pf_add_empty_env_page, pf_update_env_page, disk_frame_of, kernel_base,
  get_disk_page_directory, create_disk_page_table, allocate_disk_frame, clear_disk_table,
}

-- `m'` has the page tables and the page file entries of `m`, and at most `n` free frames fewer.
pub record IsKept (n : ℕ) (m m' : Mem) : Type 0 where
  pub frames : length m.free_frames ≤ length m'.free_frames + n
  pub tables : m'.tables ≡ m.tables
  pub directory : m'.disk_directory ≡ m.disk_directory
  pub disk_tables : m'.disk_tables ≡ m.disk_tables
  pub disk_pages : m'.disk_pages ≡ m.disk_pages

pub then-IsKept : {m m1 m2 : Mem} (k n : ℕ) → IsKept k m m1 → IsKept n m1 m2 → IsKept (k + n) m m2
then-IsKept k n a b = record {
  frames = omega (arith, a.frames, b.frames);
  tables = b.tables ∙ a.tables;
  directory = b.directory ∙ a.directory;
  disk_tables = b.disk_tables ∙ a.disk_tables;
  disk_pages = b.disk_pages ∙ a.disk_pages;
}

first_of : (l : List ℕ) → 1 ≤ length l → (f : ℕ) × (rest : List ℕ) × (l ≡ f ∷ rest)
first_of [] h = absurd (omega arith)
first_of (f ∷ rest) h = (f, rest, refl)

pub allocate_frame-IsKept :
    (m : Mem)
    → 1 ≤ length m.free_frames
    → (f : ℕ) × (m' : Mem) × (allocate_frame m ≡ some (f, m')) × IsKept 1 m m'
unfolding allocate_frame
allocate_frame-IsKept m h =
    let (f, rest, q) = first_of m.free_frames h in
    (
      f,
      record m { free_frames = rest; references = put m.references f 0 },
      rw q refl,
      record {
        frames = omega (arith, ap length q);
        tables = refl;
        directory = refl;
        disk_tables = refl;
        disk_pages = refl;
      },
    )

-- What pt_set_page_permissions makes of a memory with the table.
abbrev with_perm : Mem → ℕ → Perm → Perm → Mem
with_perm m va on off = record m {
  pages =
      put m.pages (page va)
        (record (m.pages (page va)) { perm = change_perm (m.pages (page va)).perm on off });
}

pub refl-IsKept : (m : Mem) → IsKept 0 m m
refl-IsKept m = record {
  frames = omega arith;
  tables = refl;
  directory = refl;
  disk_tables = refl;
  disk_pages = refl;
}

data-IsKept :
    {m : Mem} {ram disk : ℕ → ℕ} {page_in page_out : ℕ} {pages : ℕ → Entry}
    → IsKept 0 m
        (record m { ram = ram; disk = disk; page_in = page_in; page_out = page_out; pages = pages })
data-IsKept = record {
  frames = omega arith;
  tables = refl;
  directory = refl;
  disk_tables = refl;
  disk_pages = refl;
}

pub pt_set-IsKept :
    (m : Mem) (va : ℕ) (on off : Perm)
    → m.tables (pdx va) ≡ true
    → (m' : Mem) × (pt_set_page_permissions m va on off ≡ some m') × IsKept 0 m m'
unfolding pt_set_page_permissions
pt_set-IsKept m va on off h = (with_perm m va on off, rw h refl, data-IsKept)

decrement-IsKept : (m : Mem) (f : ℕ) → IsKept 0 m (decrement_references m f)
unfolding decrement_references
decrement-IsKept m f = record {
  frames = ground arith;
  tables = ground arith;
  directory = ground arith;
  disk_tables = ground arith;
  disk_pages = ground arith;
}

after_decrement :
    {m m1 : Mem} {pages : ℕ → Entry} → IsKept 0 m m1 → IsKept 0 m (record m1 { pages = pages })
after_decrement k = record {
  frames = k.frames;
  tables = k.tables;
  directory = k.directory;
  disk_tables = k.disk_tables;
  disk_pages = k.disk_pages;
}

pub unmap-IsKept : (m : Mem) (va : ℕ) → IsKept 0 m (unmap_frame m va)
unfolding unmap_frame
unmap-IsKept m va = elim (option_cases (get_frame_info m va)) [
  | inl e ↦ rw (e, unmap_frame) (refl-IsKept m)
  | inr (f, e) ↦ rw (e, unmap_frame) (after_decrement (decrement-IsKept m f))
]

pub unmap-disk_free : (m : Mem) (va : ℕ) → (unmap_frame m va).disk_free ≡ m.disk_free
unfolding unmap_frame decrement_references
unmap-disk_free m va = ground arith

pub map_in_table-IsKept : (m : Mem) (f va : ℕ) (perm : Perm) → IsKept 0 m (map_in_table m f va perm)
unfolding map_in_table
map_in_table-IsKept m f va perm =
    let k = unmap-IsKept m va in
    record {
      frames = ground (arith, k.frames);
      tables = ground (arith, k.tables);
      directory = ground (arith, k.directory);
      disk_tables = ground (arith, k.disk_tables);
      disk_pages = ground (arith, k.disk_pages);
    }

pub map_frame-IsKept :
    (m : Mem) (f va : ℕ) (perm : Perm)
    → m.tables (pdx va) ≡ true
    → (m' : Mem) × (map_frame m f va perm ≡ some m') × IsKept 0 m m'
unfolding map_frame
map_frame-IsKept m f va perm h =
    (map_in_table m f va perm, rw h refl, map_in_table-IsKept m f va perm)

-- Whether a page is in the page file, when its directory exists.
abbrev pub in_file : Mem → ℕ → Bool
in_file m va = not (disk_frame_of m va == 0)

pub pf_read-IsKept :
    (m : Mem) (va : ℕ)
    → m.tables (pdx va) ≡ true
    → m.disk_directory ≡ true
    → round_down va 4096 ≡ va
    → (m' : Mem) × (pf_read_env_page m va ≡ some (m', in_file m va)) × IsKept 0 m m'
unfolding pf_read_env_page disk_frame_of
pf_read-IsKept m va h d r = elim (eq_or_ne (disk_frame_of m va) 0) [
  | inl e ↦ (record m { page_in = add32 m.page_in 1 }, rw (r, d, e) refl, data-IsKept)
  | inr n ↦
      let m1 : Mem = record m {
        page_in = add32 m.page_in 1;
        ram = put m.ram (m.pages (page va)).frame (m.disk (disk_frame_of m va));
      } in
      (
        with_perm m1 va no_perm only_modified,
        rw (r, d, ==_ne (disk_frame_of m va) 0 n, h) refl,
        data-IsKept,
      )
]

pub pf_update-IsKept :
    (m : Mem) (va f : ℕ)
    → va < kernel_base
    → m.disk_directory ≡ true
    → (m' : Mem) × (pf_update_env_page m va f ≡ some m') × IsKept 0 m m'
unfolding pf_update_env_page get_disk_page_directory disk_frame_of
pf_update-IsKept m va f b d = elim (eq_or_ne (disk_frame_of m va) 0) [
  | inl e ↦ (
    record m { page_out = add32 m.page_out 1 },
    rw (lt→ltb va kernel_base b, d, e) refl,
    data-IsKept,
  )
  | inr n ↦ (
    record m { page_out = add32 m.page_out 1; disk = put m.disk (disk_frame_of m va) (m.ram f) },
    rw (lt→ltb va kernel_base b, d, ==_ne (disk_frame_of m va) 0 n) refl,
    data-IsKept,
  )
]

abbrev with_disk_table : Mem → ℕ → ℕ → Mem
with_disk_table m f va = record m {
  references = put m.references f 1;
  disk_tables = put m.disk_tables (pdx va) true;
  disk_table_frames = put m.disk_table_frames (pdx va) f;
  disk_pages = clear_disk_table m.disk_pages (pdx va);
}

pub directory-kept : (m : Mem) → m.disk_directory ≡ true → get_disk_page_directory m ≡ some m
unfolding get_disk_page_directory
directory-kept m d = ground arith

create-returns :
    (m : Mem) (va : ℕ)
    → 1 ≤ length m.free_frames
    → (m' : Mem) × (create_disk_page_table m va ≡ some m')
unfolding create_disk_page_table
create-returns m va h = elim (Bool-cases (m.disk_tables (pdx va))) [
  | inl e ↦ (m, rw e refl)
  | inr e ↦
      let (f, m1, q, k) = allocate_frame-IsKept m h in (with_disk_table m1 f va, rw (e, q) refl)
]

pub pf_add-returns :
    (m : Mem) (va : ℕ)
    → va < kernel_base
    → m.disk_directory ≡ true
    → 1 ≤ length m.free_frames
    → (m' : Mem) × (added : Bool) × (pf_add_empty_env_page m va ≡ some (m', added))
unfolding pf_add_empty_env_page
pf_add-returns m va b d h =
    let (m2, q) = create-returns m va h in
    let p : Mem × Bool =
      if m2.disk_pages (page va) == 0 then allocate_disk_frame m2 va else (m2, true) in
    (p.0, p.1, rw (lt→ltb va kernel_base b, directory-kept m d, q) refl)
