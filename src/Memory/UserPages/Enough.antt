-- ===== src/Memory/UserPages/Enough.antt =====
-- allocateMem returns where there are enough frames.
use fos_simple_os.Prelude.{
  ℕ, zero, suc, ◌+◌, ◌*◌, ◌/◌, ◌≤◌, ◌<◌, ◌≡◌, refl, ap, subst, ◌∙◌, List, [], ◌∷◌, true, ◌==◌, some,
  add32, length, lt→ltb, Bool-cases, inl, inr, arith, Each,
}
use fos_simple_os.Memory.{
  Mem, Perm, put, page, pdx, allocate_frame, static_cpt, clear_table, map_in_table, map_frame,
  user_page,
}
use fos_simple_os.Memory.Kept.{map_in_table-IsKept, directory-kept, unmap-disk_free}
use fos_simple_os.Memory.PageFile.{
  create_disk_page_table, clear_disk_table, allocate_disk_frame, pf_add_empty_env_page, kernel_base,
}
use fos_simple_os.Memory.Safe.{allocate-some}
use fos_simple_os.Memory.Filing.{disk_some}
use fos_simple_os.Memory.UserPages.{back_page, allocate_pages, allocate_mem}
use fos_simple_os.Memory.UserPages.Mapped.{MapsRange, allocate_mem-MapsRange}

-- There is a page file, and so many frames and disk frames are free.
pub record IsEnough (k d : ℕ) (m : Mem) : Type 0 where
  pub directory : m.disk_directory ≡ true
  pub frames : k ≤ length m.free_frames
  pub disks : d ≤ length m.disk_free

allocate-IsEnough :
    (k d : ℕ) (m : Mem)
    → IsEnough (suc k) d m
    → (f : ℕ) × (m' : Mem) × (allocate_frame m ≡ some (f, m')) × IsEnough k d m'
unfolding allocate_frame
allocate-IsEnough k d m h = by_list m.free_frames refl
  where
    by_list :
        (l : List ℕ)
        → m.free_frames ≡ l
        → (f : ℕ) × (m' : Mem) × (allocate_frame m ≡ some (f, m')) × IsEnough k d m'
    by_list [] q = absurd (omega (arith, h.frames, ap length q))
    by_list (f ∷ rest) q = (
      f,
      record m { free_frames = rest; references = put m.references f 0 },
      allocate-some m f rest q,
      record {
        directory = h.directory;
        frames = omega (arith, h.frames, ap length q);
        disks = h.disks;
      },
    )

disk_table-IsEnough :
    (k d : ℕ) (m : Mem) (va : ℕ)
    → IsEnough (suc k) d m
    → (m' : Mem) × (create_disk_page_table m va ≡ some m') × IsEnough k d m'
unfolding create_disk_page_table
disk_table-IsEnough k d m va h = elim (Bool-cases (m.disk_tables (pdx va))) [
  | inl e ↦ (
    m,
    rw (create_disk_page_table, e) refl,
    record { directory = h.directory; frames = omega (arith, h.frames); disks = h.disks },
  )
  | inr e ↦
      let (f, m1, q, k1) = allocate-IsEnough k d m h in
      (
        record m1 {
          references = put m1.references f 1;
          disk_tables = put m1.disk_tables (pdx va) true;
          disk_table_frames = put m1.disk_table_frames (pdx va) f;
          disk_pages = clear_disk_table m1.disk_pages (pdx va);
        },
        rw (create_disk_page_table, e, q) refl,
        record { directory = k1.directory; frames = k1.frames; disks = k1.disks },
      )
]

disk_frame-IsEnough :
    (k d : ℕ) (m : Mem) (va : ℕ)
    → IsEnough k (suc d) m
    → (m' : Mem) × (allocate_disk_frame m va ≡ (m', true)) × IsEnough k d m'
unfolding allocate_disk_frame
disk_frame-IsEnough k d m va h = by_list m.disk_free refl
  where
    by_list :
        (l : List ℕ)
        → m.disk_free ≡ l
        → (m' : Mem) × (allocate_disk_frame m va ≡ (m', true)) × IsEnough k d m'
    by_list [] q = absurd (omega (arith, h.disks, ap length q))
    by_list (f ∷ rest) q = (
      record m { disk_free = rest; disk_pages = put m.disk_pages (page va) f },
      disk_some m va f rest q,
      record {
        directory = h.directory;
        frames = h.frames;
        disks = omega (arith, h.disks, ap length q);
      },
    )

pf_add-IsEnough :
    (k d : ℕ) (m : Mem) (va : ℕ)
    → va < kernel_base
    → IsEnough (suc k) (suc d) m
    → (m' : Mem) × (pf_add_empty_env_page m va ≡ some (m', true)) × IsEnough k d m'
unfolding pf_add_empty_env_page
pf_add-IsEnough k d m va b h =
    let (m2, q, h2) = disk_table-IsEnough k (suc d) m va h in
    let (m3, q3, h3) = disk_frame-IsEnough k d m2 va h2 in
    elim (Bool-cases (m2.disk_pages (page va) == 0)) [
      | inl z ↦ (
        m3,
        rw (pf_add_empty_env_page, lt→ltb va kernel_base b, directory-kept m h.directory, q, z, q3)
            refl,
        h3,
      )
      | inr z ↦ (
        m2,
        rw (pf_add_empty_env_page, lt→ltb va kernel_base b, directory-kept m h.directory, q, z)
            refl,
        record { directory = h2.directory; frames = h2.frames; disks = omega (arith, h2.disks) },
      )
    ]

in_table-disk_free :
    (m : Mem) (f va : ℕ) (perm : Perm) → (map_in_table m f va perm).disk_free ≡ m.disk_free
unfolding map_in_table
in_table-disk_free m f va perm = ground (arith, unmap-disk_free m va)

in_table-IsEnough :
    (k d : ℕ) (m : Mem) (f va : ℕ) (perm : Perm)
    → IsEnough k d m
    → IsEnough k d (map_in_table m f va perm)
in_table-IsEnough k d m f va perm h =
    let s = map_in_table-IsKept m f va perm in
    record {
      directory = s.directory ∙ h.directory;
      frames = omega (arith, s.frames, h.frames);
      disks = omega (arith, ap length (in_table-disk_free m f va perm), h.disks);
    }

map_frame-IsEnough :
    (k d : ℕ) (m : Mem) (f va : ℕ) (perm : Perm)
    → IsEnough (suc k) d m
    → (m' : Mem) × (map_frame m f va perm ≡ some m') × IsEnough k d m'
unfolding map_frame static_cpt
map_frame-IsEnough k d m f va perm h = elim (Bool-cases (m.tables (pdx va))) [
  | inl t ↦ (
    map_in_table m f va perm,
    rw (map_frame, t) refl,
    in_table-IsEnough k d m f va perm
        (record { directory = h.directory; frames = omega (arith, h.frames); disks = h.disks }),
  )
  | inr t ↦
      let (g, m1, q, h1) = allocate-IsEnough k d m h in
      let m2 : Mem = record m1 {
        references = put m1.references g 1;
        tables = put m1.tables (pdx va) true;
        table_frames = put m1.table_frames (pdx va) g;
        pages = clear_table m1.pages (pdx va);
      } in
      (
        map_in_table m2 f va perm,
        rw (map_frame, t, static_cpt, q) refl,
        in_table-IsEnough k d m2 f va perm
            (record { directory = h1.directory; frames = h1.frames; disks = h1.disks }),
      )
]

back_page-IsEnough :
    (k d : ℕ) (m : Mem) (va : ℕ)
    → IsEnough (suc (suc k)) d m
    → (m' : Mem) × (back_page m va ≡ some m') × IsEnough k d m'
unfolding back_page
back_page-IsEnough k d m va h =
    let (f, m1, q, h1) = allocate-IsEnough (suc k) d m h in
    let (m2, q2, h2) = map_frame-IsEnough k d m1 f va user_page h1 in
    (m2, rw (back_page, q, q2) refl, h2)

-- Three frames and a disk frame for each page.
allocate_pages-returns :
    (n : ℕ) (m : Mem) (va : ℕ)
    → va + n * 4096 ≤ kernel_base
    → IsEnough (3 * n) n m
    → (m' : Mem) × (allocate_pages n m va ≡ some m')
unfolding allocate_pages
allocate_pages-returns zero m va b h = (m, refl)
allocate_pages-returns (suc n) m va b h =
    let (m1, q1, h1) =
      pf_add-IsEnough (suc (suc (3 * n))) n m va (omega (arith, b))
        (record { directory = h.directory; frames = omega (arith, h.frames); disks = h.disks }) in
    let (m2, q2, h2) = back_page-IsEnough (3 * n) n m1 va h1 in
    let (m3, q3) = allocate_pages-returns n m2 (add32 va 4096) (omega (arith, b)) h2 in
    (m3, rw (allocate_pages, q1, q2, q3) refl)

-- For a range below KERNEL_BASE, with a page file, a free disk frame and three free frames for each
-- page: allocateMem returns, and every page of the range is mapped, with its page table there and its
-- entry present, and so is every page that was mapped before.
pub allocate_mem-returns :
    (m : Mem) (va size : ℕ)
    → va + size / 4096 * 4096 ≤ kernel_base
    → IsEnough (3 * (size / 4096)) (size / 4096) m
    → (m' : Mem) × (allocate_mem m va size ≡ some m') × MapsRange (size / 4096) va m m'
unfolding allocate_mem
allocate_mem-returns m va size b h =
    let (m', q) = allocate_pages-returns (size / 4096) m va b h in
    (
      m',
      q,
      subst (Each (λ r. MapsRange (size / 4096) va m r)) q
          (allocate_mem-MapsRange m va size (omega (arith, b))),
    )
