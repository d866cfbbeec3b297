-- ===== src/Environments/Freed.antt =====
-- What env_free leaves of an environment.
use fos_simple_os.Prelude.{
  ℕ, zero, suc, ◌+◌, ◌≤◌, ◌<◌, ◌≡◌, ◌≢◌, refl, sym, ap, ap₂, subst, ◌∙◌, List, [], ◌∷◌, Bool, true,
  false, if◌then◌else◌, ◌==◌, ==_ne, some, All, All-map, arith, eq_or_ne, inl, inr, Bool-cases, ◌⊎◌,
}
use fos_simple_os.Memory.{Mem, put, pdx, decrement_references, free_frame, unmap_frame}
use fos_simple_os.Memory.Safe.{put_at, put_away}
use fos_simple_os.Memory.Kept.{IsKept, unmap-IsKept, then-IsKept, refl-IsKept, unmap-disk_free}
use fos_simple_os.Memory.Releasing.{
  user_tables, pf_calculate_allocated_pages, pf_calculate_free_frames,
}
use fos_simple_os.Memory.Releasing.Returned.{
  held_in_tables, disk_frames, pushed, pf_free_env-returns, returned_count,
}
use fos_simple_os.PageFault.{Env, WorkingSetElement}
use fos_simple_os.Environments.{
  Released, release, free_table, free_tables, release_memory, env_free,
}

unmap-frames : (m : Mem) (va : ℕ) → (unmap_frame m va).table_frames ≡ m.table_frames
unfolding unmap_frame decrement_references
unmap-frames m va = ground arith

-- The page tables and the page file are as they were.
record SameTables (m m' : Mem) : Type 0 where
  frames : m'.table_frames ≡ m.table_frames
  kept : IsKept 0 m m'
  disk_free : m'.disk_free ≡ m.disk_free

refl-SameTables : (m : Mem) → SameTables m m
refl-SameTables m = record { frames = refl; kept = refl-IsKept m; disk_free = refl }

then-SameTables : (m m1 m2 : Mem) → SameTables m m1 → SameTables m1 m2 → SameTables m m2
then-SameTables m m1 m2 a b = record {
  frames = b.frames ∙ a.frames;
  kept = then-IsKept 0 0 a.kept b.kept;
  disk_free = b.disk_free ∙ a.disk_free;
}

-- The table of every page of a list is there.
abbrev pub Tabled : Mem → List WorkingSetElement → Type 0
Tabled m = All (λ x. m.tables (pdx x.virtual_address) ≡ true)

Tabled-kept : (m m' : Mem) (l : List WorkingSetElement) → IsKept 0 m m' → Tabled m l → Tabled m' l
Tabled-kept m m' l k h =
    All-map (λ x. m.tables (pdx x.virtual_address) ≡ true)
      (λ x. m'.tables (pdx x.virtual_address) ≡ true) l
      (λ x t. ap (λ f. f (pdx x.virtual_address)) k.tables ∙ t) h

release_step :
    (m : Mem) (x : WorkingSetElement) (l page_list : List WorkingSetElement)
    → m.tables (pdx x.virtual_address) ≡ true
    → release m (x ∷ l) page_list
      ≡ release (unmap_frame m x.virtual_address) l (record x { empty = true } ∷ page_list)
unfolding release
release_step m x l page_list t = rw (release, t) refl

-- A list whose tables are there is released as a whole.
record IsReleased (m : Mem) (r : Released) : Type 0 where
  same : SameTables m r.mem
  none_kept : r.kept ≡ []

release-IsReleased :
    (l : List WorkingSetElement) (m : Mem) (page_list : List WorkingSetElement)
    → Tabled m l
    → IsReleased m (release m l page_list)
unfolding release
release-IsReleased [] m page_list h = record { same = refl-SameTables m; none_kept = refl }
release-IsReleased (x ∷ l) m page_list h =
    let u : Mem = unmap_frame m x.virtual_address in
    let s : SameTables m u = record {
      frames = unmap-frames m x.virtual_address;
      kept = unmap-IsKept m x.virtual_address;
      disk_free = unmap-disk_free m x.virtual_address;
    } in
    let r =
      release-IsReleased l u (record x { empty = true } ∷ page_list)
        (Tabled-kept m u l s.kept h.1) in
    subst (IsReleased m) (sym (release_step m x l page_list h.0))
      (record { same = then-SameTables m u _ s r.same; none_kept = r.none_kept })

-- The tables of an environment have frames.
abbrev pub HaveFrames : Mem → Type 0
HaveFrames m = (d : ℕ) → m.tables d ≡ true → m.table_frames d ≢ 0

-- Giving back the frame of a table, or not, leaves the tables and the page file.
given_back : (m : Mem) (d : ℕ) → Mem
given_back m d = if m.references (m.table_frames d) == 0 then m else free_frame m (m.table_frames d)

record SameBut (m m' : Mem) : Type 0 where
  tables : m'.tables ≡ m.tables
  frames : m'.table_frames ≡ m.table_frames
  directory : m'.disk_directory ≡ m.disk_directory
  disk_tables : m'.disk_tables ≡ m.disk_tables
  disk_pages : m'.disk_pages ≡ m.disk_pages
  disk_free : m'.disk_free ≡ m.disk_free

given_back-SameBut : (m : Mem) (d : ℕ) → SameBut m (given_back m d)
unfolding given_back free_frame
given_back-SameBut m d = record {
  tables = ground arith;
  frames = ground arith;
  directory = ground arith;
  disk_tables = ground arith;
  disk_pages = ground arith;
  disk_free = ground arith;
}

-- Entries of the directory are cleared, the others are not set, and the page file stays.
record Clears (d n : ℕ) (m m' : Mem) : Type 0 where
  cleared : (c : ℕ) → d ≤ c → c < d + n → m'.tables c ≡ false
  others : (c : ℕ) → m.tables c ≡ false → m'.tables c ≡ false
  frames : HaveFrames m'
  directory : m'.disk_directory ≡ m.disk_directory
  disk_tables : m'.disk_tables ≡ m.disk_tables
  disk_pages : m'.disk_pages ≡ m.disk_pages
  disk_free : m'.disk_free ≡ m.disk_free

not_both : ¬ (true ≡ false)
not_both e = cc

one_only : (c d : ℕ) → d ≤ c → c < d + 1 → d ≡ c
one_only c d h k = omega arith

skip_table : (m : Mem) (d : ℕ) → m.tables d ≡ false → free_table m d ≡ m
unfolding free_table
skip_table m d e = rw (free_table, e) refl

take_table :
    (m : Mem) (d : ℕ)
    → m.tables d ≡ true
    → m.table_frames d ≢ 0
    → free_table m d ≡ record (given_back m d) {
      tables = put (given_back m d).tables d false;
      table_frames = put (given_back m d).table_frames d 0;
    }
unfolding free_table given_back
take_table m d e n = rw (free_table, e, ==_ne (m.table_frames d) 0 n) refl

no_table :
    (f : ℕ → ℕ) (t : ℕ → Bool) (d c : ℕ)
    → ((b : ℕ) → t b ≡ true → f b ≢ 0)
    → put t d false c ≡ true
    → put f d 0 c ≢ 0
no_table f t d c h e = elim (eq_or_ne d c) [
  | inl q ↦ absurd (not_both (sym e ∙ put_at t d false c q))
  | inr n ↦ λ z. h c (sym (put_away t d false c n) ∙ e) (sym (put_away f d 0 c n) ∙ z)
]

still_false : (t : ℕ → Bool) (d c : ℕ) → t c ≡ false → put t d false c ≡ false
still_false t d c h = elim (eq_or_ne d c) [
  | inl q ↦ put_at t d false c q
  | inr n ↦ put_away t d false c n ∙ h
]

table-Clears : (m : Mem) (d : ℕ) → HaveFrames m → Clears d 1 m (free_table m d)
table-Clears m d h = elim (Bool-cases (m.tables d)) [
  | inr e ↦ subst (Clears d 1 m) (sym (skip_table m d e)) (record {
    cleared = λ c k l. ap m.tables (sym (one_only c d k l)) ∙ e;
    others = λ c o. o;
    frames = h;
    directory = refl;
    disk_tables = refl;
    disk_pages = refl;
    disk_free = refl;
  })
  | inl e ↦
      let g : Mem = given_back m d in
      let s = given_back-SameBut m d in
      subst (Clears d 1 m) (sym (take_table m d e (h d e))) (record {
        cleared = λ c k l. put_at g.tables d false c (one_only c d k l);
        others = λ c o. still_false g.tables d c (ap (λ t. t c) s.tables ∙ o);
        frames = λ c.
            no_table g.table_frames g.tables d c
              (λ b t z. h b (sym (ap (λ f. f b) s.tables) ∙ t) (sym (ap (λ f. f b) s.frames) ∙ z));
        directory = s.directory;
        disk_tables = s.disk_tables;
        disk_pages = s.disk_pages;
        disk_free = s.disk_free;
      })
]

before_or : (c d n : ℕ) → d ≤ c → c < d + suc n → (c < d + 1) ⊎ ((d + 1 ≤ c) × (c < d + 1 + n))
before_or c d n h k = ground arith

tables-Clears : (n d : ℕ) (m : Mem) → HaveFrames m → Clears d n m (free_tables n d m)
unfolding free_tables
tables-Clears zero d m h = record {
  cleared = λ c k l. absurd (omega (arith, k, l));
  others = λ c o. o;
  frames = h;
  directory = refl;
  disk_tables = refl;
  disk_pages = refl;
  disk_free = refl;
}
tables-Clears (suc n) d m h =
    let a = table-Clears m d h in
    let b = tables-Clears n (d + 1) (free_table m d) a.frames in
    record {
      cleared = λ c k l. elim (before_or c d n k l) [
        | inl p ↦ b.others c (a.cleared c k p)
        | inr (p, q) ↦ b.cleared c p q
      ];
      others = λ c o. b.others c (a.others c o);
      frames = b.frames;
      directory = b.directory ∙ a.directory;
      disk_tables = b.disk_tables ∙ a.disk_tables;
      disk_pages = b.disk_pages ∙ a.disk_pages;
      disk_free = b.disk_free ∙ a.disk_free;
    }

-- What is left of an environment before its page file goes.
record IsEmptied (e : Env) (e' : Env) : Type 0 where
  no_table : (d : ℕ) → d < user_tables → e'.mem.tables d ≡ false
  no_second : e'.second ≡ []
  no_active : e'.active ≡ []
  disk_free : e'.mem.disk_free ≡ e.mem.disk_free
  frames : disk_frames e'.mem ≡ disk_frames e.mem
  directory : e'.mem.disk_directory ≡ e.mem.disk_directory

HaveFrames-kept : (m m' : Mem) → SameTables m m' → HaveFrames m → HaveFrames m'
HaveFrames-kept m m' s h d t z =
    h d (sym (ap (λ f. f d) s.kept.tables) ∙ t) (sym (ap (λ f. f d) s.frames) ∙ z)

release_memory-IsEmptied :
    (e : Env) (directory : ℕ)
    → Tabled e.mem e.second
    → Tabled e.mem e.active
    → HaveFrames e.mem
    → IsEmptied e (release_memory e directory)
unfolding release_memory free_frame
release_memory-IsEmptied e directory s a h =
    let r1 : Released = release e.mem e.second e.page_list in
    let i1 = release-IsReleased e.second e.mem e.page_list s in
    let r2 : Released = release r1.mem e.active r1.page_list in
    let i2 =
      release-IsReleased e.active r1.mem r1.page_list
        (Tabled-kept e.mem r1.mem e.active i1.same.kept a) in
    let same : SameTables e.mem r2.mem = then-SameTables e.mem r1.mem r2.mem i1.same i2.same in
    let c = tables-Clears user_tables 0 r2.mem (HaveFrames-kept e.mem r2.mem same h) in
    record {
      no_table = λ d lt. c.cleared d (omega arith) (omega (arith, lt));
      no_second = i1.none_kept;
      no_active = i2.none_kept;
      disk_free = c.disk_free ∙ same.disk_free;
      frames =
          ap₂ (λ t p. held_in_tables user_tables 0 t p) (c.disk_tables ∙ same.kept.disk_tables)
            (c.disk_pages ∙ same.kept.disk_pages);
      directory = c.directory ∙ same.kept.directory;
    }

-- What env_free leaves of an environment: no page table of the user's part, empty lists and no page
-- file. Each disk frame that the page file held stands at the head of the free ones, and they are as
-- many as pf_calculate_allocated_pages counted.
pub record IsFreed (e e' : Env) : Type 0 where
  pub no_table : (d : ℕ) → d < user_tables → e'.mem.tables d ≡ false
  pub no_second : e'.second ≡ []
  pub no_active : e'.active ≡ []
  pub no_file : e'.mem.disk_directory ≡ false
  pub disk_free : e'.mem.disk_free ≡ pushed (disk_frames e.mem) e.mem.disk_free
  pub counted :
      pf_calculate_free_frames e'.mem
      ≡ pf_calculate_free_frames e.mem + pf_calculate_allocated_pages e.mem

-- For an environment with a page file, whose resident pages have their tables and whose tables have
-- frames: env_free returns and puts the environment into the free ones. As free_environment finds it,
-- no page table of its user part is left, its lists are empty and it has no page file; and each disk
-- frame that its page file held is free again, which are as many as pf_calculate_allocated_pages
-- counted at the start.
pub env_free-releases :
    (e : Env) (directory index : ℕ) (free_envs : List ℕ)
    → Tabled e.mem e.second
    → Tabled e.mem e.active
    → HaveFrames e.mem
    → e.mem.disk_directory ≡ true
    → (e' : Env) × (env_free e directory index free_envs ≡ some (e', index ∷ free_envs))
      × IsFreed e e'
unfolding env_free
env_free-releases e directory index free_envs s a h d =
    let r : Env = release_memory e directory in
    let i = release_memory-IsEmptied e directory s a h in
    let (m', q, free, gone, tables) = pf_free_env-returns r.mem (i.directory ∙ d) in
    let all : m'.disk_free ≡ pushed (disk_frames e.mem) e.mem.disk_free =
      free ∙ ap₂ pushed i.frames i.disk_free in
    (
      record r { mem = m' },
      rw (env_free, q) refl,
      record {
        no_table = λ c lt. ap (λ t. t c) tables ∙ i.no_table c lt;
        no_second = i.no_second;
        no_active = i.no_active;
        no_file = gone;
        disk_free = all;
        counted = returned_count e.mem m' all;
      },
    )
