-- ===== src/Memory/Filing.antt =====
-- Permissions and the page file keep the frames accounted for.
use fos_simple_os.Prelude.{
  ℕ, ◌/◌, ◌≤◌, ◌≡◌, ◌≢◌, refl, ap, sym, subst, ◌∙◌, List, [], ◌∷◌, Bool, true, false, if◌then◌else◌,
  ◌==◌, arith, ◌⊎◌, inl, inr, eq_or_ne, ==_ne, none, some, Bool-cases, ◌>>=◌, Each, Each-bind,
  Each-if, add32, round_down, ltb,
}
use fos_simple_os.Memory.{
  Mem, Entry, Perm, is_used, put, page, pdx, allocate_frame, pt_set_page_permissions,
  pt_clear_page_table_entry, change_perm, any_perm, no_perm, only_modified,
}
use fos_simple_os.Memory.PageFile.{
  kernel_base, get_disk_page_directory, create_disk_page_table, disk_frame_of, allocate_disk_frame,
  pf_add_empty_env_page, pf_update_env_page, pf_read_env_page,
}
use fos_simple_os.Memory.Count.{entry_holds, mapped-agree}
use fos_simple_os.Memory.Safe.{
  IsSafe, IsFresh, references-IsSafe, allocate_frame-IsSafe, put_at, put_away,
}
use fos_simple_os.Memory.Mapping.{other_frame}
use fos_simple_os.Memory.Unmapping.{entry-IsSafe, cleared-IsSafe, eq_to_le}

used_frame : (e : Entry) → e.frame ≢ 0 → is_used e ≡ true
used_frame e n = rw (==_ne e.frame 0 n) refl

-- Other permissions never make more of a frame.
same_frame :
    (b : Bool) (e : Entry) (p : Perm) (g : ℕ)
    → g ≢ 0
    → entry_holds b (record e { perm = p }) g ≤ entry_holds b e g
same_frame b e p g nz = elim (eq_or_ne e.frame g) [
  | inr n ↦ omega (arith, other_frame b (record e { perm = p }) g n)
  | inl q ↦
      let u = used_frame e (λ z. nz (sym q ∙ z)) in
      let u' = used_frame (record e { perm = p }) (λ z. nz (sym q ∙ z)) in
      eq_to_le (rw (u, u') refl)
]

perm-IsSafe :
    (m : Mem) (k : ℕ) (p : Perm)
    → IsSafe m
    → (m.tables (k / 1024) ≡ true
        → is_used (record (m.pages k) { perm = p }) ≡ true
        → (m.pages k).frame ≢ 0)
    → IsSafe (record m { pages = put m.pages k (record (m.pages k) { perm = p }) })
perm-IsSafe m k p s name =
    let e : Entry = record (m.pages k) { perm = p } in
    let m' : Mem = record m { pages = put m.pages k e } in
    entry-IsSafe m k e s name (λ n g h. omega (
      arith,
      s.counted n g h,
      mapped-agree n m m' g (λ q l. elim (eq_or_ne k q) [
        | inl at ↦ omega (
          arith,
          ap (λ x. entry_holds (m.tables (q / 1024)) x g) (put_at m.pages k e q at),
          same_frame (m.tables (q / 1024)) (m.pages k) p g h,
          ap (λ x. entry_holds (m.tables (q / 1024)) (m.pages x) g) at,
        )
        | inr o ↦
            eq_to_le (ap (λ x. entry_holds (m.tables (q / 1024)) x g) (put_away m.pages k e q o))
      ]),
    ))

-- Taking permissions away leaves an entry in use that was.
clearing : (p off : Perm) → any_perm (change_perm p no_perm off) ≡ true → any_perm p ≡ true
clearing p off h = ground arith

used_before :
    (e : Entry) (off : Perm)
    → is_used (record e { perm = change_perm e.perm no_perm off }) ≡ true
    → is_used e ≡ true
used_before e off h = elim (eq_or_ne e.frame 0) [
  | inl z ↦
      let at : (e.frame == 0) ≡ true = ap (λ x. x == 0) z in
      rw at (clearing e.perm off (rw at at h))
  | inr n ↦ used_frame e n
]

-- Permissions are set on a page that has a frame, or only taken away.
pub pt_set-IsSafe :
    (m : Mem) (va : ℕ) (on off : Perm)
    → IsSafe m
    → ((m.pages (page va)).frame ≢ 0) ⊎ (on ≡ no_perm)
    → Each IsSafe (pt_set_page_permissions m va on off)
unfolding pt_set_page_permissions
pt_set-IsSafe m va on off s ok = elim (Bool-cases (m.tables (pdx va))) [
  | inr t ↦ rw t tt
  | inl t ↦ rw t (
      perm-IsSafe m (page va) (change_perm (m.pages (page va)).perm on off) s (λ there u. elim ok [
        | inl n ↦ n
        | inr q ↦ s.named (page va) there (
            used_before (m.pages (page va)) off (
              subst
                (λ x.
                  is_used (record (m.pages (page va)) {
                    perm = change_perm (m.pages (page va)).perm x off;
                  })
                  ≡ true)
                q u))
      ]))
]

pub pt_clear-IsSafe : (m : Mem) (va : ℕ) → IsSafe m → Each IsSafe (pt_clear_page_table_entry m va)
unfolding pt_clear_page_table_entry
pt_clear-IsSafe m va s = elim (Bool-cases (m.tables (pdx va))) [
  | inr t ↦ rw t tt
  | inl t ↦ rw t (cleared-IsSafe m (page va) s)
]

-- What does not touch frames and page tables.
data-IsSafe :
    (m : Mem) {ram : ℕ → ℕ} {directory : Bool} {dir : ℕ} {tables : ℕ → Bool} {frames : ℕ → ℕ}
    {pages : ℕ → ℕ} {free : List ℕ} {disk : ℕ → ℕ} {page_in page_out : ℕ}
    → IsSafe m
    → IsSafe (record m {
      ram = ram;
      disk_directory = directory;
      directory_frame = dir;
      disk_tables = tables;
      disk_table_frames = frames;
      disk_pages = pages;
      disk_free = free;
      disk = disk;
      page_in = page_in;
      page_out = page_out;
    })
data-IsSafe m {ram} {directory} {dir} {tables} {frames} {pages} {free} {disk} {page_in} {page_out}
      s =
    record {
      unreferenced = s.unreferenced;
      distinct = s.distinct;
      not_zero = s.not_zero;
      counted = λ n g h. omega (
        arith,
        mapped-agree n m
            (record m {
              ram = ram;
              disk_directory = directory;
              directory_frame = dir;
              disk_tables = tables;
              disk_table_frames = frames;
              disk_pages = pages;
              disk_free = free;
              disk = disk;
              page_in = page_in;
              page_out = page_out;
            })
            g (λ p l. omega arith),
        s.counted n g h,
      );
      named = s.named;
      fits = s.fits;
    }

pub contents-IsSafe : (m : Mem) (ram : ℕ → ℕ) → IsSafe m → IsSafe (record m { ram = ram })
contents-IsSafe m ram s = data-IsSafe m s

referenced-IsSafe :
    (m : Mem) (g : ℕ)
    → IsSafe m
    → IsFresh g m
    → IsSafe (record m { references = put m.references g 1 })
referenced-IsSafe m g s h =
    references-IsSafe m g 1 s h.not_free (omega arith)
      (λ n nz. omega (arith, s.counted n g nz, h.single))

directory-IsSafe : (m : Mem) → IsSafe m → Each IsSafe (get_disk_page_directory m)
unfolding get_disk_page_directory
directory-IsSafe m s =
    Each-if IsSafe m.disk_directory _ _ (λ d. s)
      (λ d.
        Each-bind (λ r. IsSafe r.1 × IsFresh r.0 r.1) IsSafe (allocate_frame m) _
          (allocate_frame-IsSafe m s)
          (λ r h.
            data-IsSafe (record r.1 { references = put r.1.references r.0 1 })
              (referenced-IsSafe r.1 r.0 h.0 h.1)))

disk_table-IsSafe : (m : Mem) (va : ℕ) → IsSafe m → Each IsSafe (create_disk_page_table m va)
unfolding create_disk_page_table
disk_table-IsSafe m va s =
    Each-if IsSafe (m.disk_tables (pdx va)) _ _ (λ d. s)
      (λ d.
        Each-bind (λ r. IsSafe r.1 × IsFresh r.0 r.1) IsSafe (allocate_frame m) _
          (allocate_frame-IsSafe m s)
          (λ r h.
            data-IsSafe (record r.1 { references = put r.1.references r.0 1 })
              (referenced-IsSafe r.1 r.0 h.0 h.1)))

disk_none : (m : Mem) (va : ℕ) → m.disk_free ≡ [] → allocate_disk_frame m va ≡ (m, false)
unfolding allocate_disk_frame
disk_none m va q = rw q refl

pub disk_some :
    (m : Mem) (va d : ℕ) (rest : List ℕ)
    → m.disk_free ≡ d ∷ rest
    → allocate_disk_frame m va
      ≡ (record m { disk_free = rest; disk_pages = put m.disk_pages (page va) d }, true)
unfolding allocate_disk_frame
disk_some m va d rest q = rw q refl

disk_frame-IsSafe : (m : Mem) (va : ℕ) → IsSafe m → IsSafe (allocate_disk_frame m va).0
disk_frame-IsSafe m va s = by_list m.disk_free refl
  where
    by_list : (l : List ℕ) → m.disk_free ≡ l → IsSafe (allocate_disk_frame m va).0
    by_list [] q = subst (λ r. IsSafe r.0) (sym (disk_none m va q)) s
    by_list (d ∷ rest) q = subst (λ r. IsSafe r.0) (sym (disk_some m va d rest q)) (data-IsSafe m s)

pub pf_add-IsSafe :
    (m : Mem) (va : ℕ) → IsSafe m → Each (λ r. IsSafe r.0) (pf_add_empty_env_page m va)
unfolding pf_add_empty_env_page
pf_add-IsSafe m va s =
    Each-if (λ r. IsSafe r.0) (ltb va kernel_base) _ none
      (λ b.
        Each-bind IsSafe (λ r. IsSafe r.0) (get_disk_page_directory m) _ (directory-IsSafe m s)
          (λ m1 s1.
            Each-bind IsSafe (λ r. IsSafe r.0) (create_disk_page_table m1 va) _
              (disk_table-IsSafe m1 va s1)
              (λ m2 s2. elim (Bool-cases (m2.disk_pages (page va) == 0)) [
                | inl z ↦ rw z (disk_frame-IsSafe m2 va s2)
                | inr n ↦ rw n s2
              ])))
      (λ b. tt)

pub pf_update-IsSafe : (m : Mem) (va f : ℕ) → IsSafe m → Each IsSafe (pf_update_env_page m va f)
unfolding pf_update_env_page
pf_update-IsSafe m va f s =
    Each-if IsSafe (ltb va kernel_base) _ none
      (λ b.
        Each-bind IsSafe IsSafe
          (get_disk_page_directory (record m { page_out = add32 m.page_out 1 })) _
          (directory-IsSafe (record m { page_out = add32 m.page_out 1 }) (data-IsSafe m s))
          (λ m1 s1. elim (Bool-cases (disk_frame_of m1 va == 0)) [
            | inl z ↦ rw z s1
            | inr n ↦ rw n (data-IsSafe m1 s1)
          ]))
      (λ b. tt)

pub pf_read-IsSafe : (m : Mem) (va : ℕ) → IsSafe m → Each (λ r. IsSafe r.0) (pf_read_env_page m va)
unfolding pf_read_env_page
pf_read-IsSafe m address s =
    let va : ℕ = round_down address 4096 in
    let m1 : Mem = record m { page_in = add32 m.page_in 1 } in
    let d : ℕ = if m1.disk_directory then disk_frame_of m1 va else 0 in
    let m2 : Mem = record m1 { ram = put m1.ram (m1.pages (page va)).frame (m1.disk d) } in
    Each-if {A = Mem × Bool} (λ r. IsSafe r.0) (d == 0) (some (m1, false))
      (pt_set_page_permissions m2 va no_perm only_modified >>= λ m3. some (m3, true))
      (λ b. data-IsSafe m s)
      (λ b.
        Each-bind IsSafe (λ r. IsSafe r.0) (pt_set_page_permissions m2 va no_perm only_modified)
          (λ m3. some (m3, true))
          (pt_set-IsSafe m2 va no_perm only_modified (data-IsSafe m s) (inr refl)) (λ m3 s3. s3))
