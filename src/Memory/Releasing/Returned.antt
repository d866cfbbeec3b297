-- ===== src/Memory/Releasing/Returned.antt =====
-- pf_free_env returns the disk frames of the environment, each of them by its number.
use fos_simple_os.Prelude.{
  ℕ, zero, suc, ◌+◌, ◌*◌, ◌≤◌, ◌<◌, ◌≡◌, refl, sym, ap, ap₂, subst, ◌∙◌, Bool, true, false, some,
  List, [], ◌∷◌, ◌++◌, length, length-append, if◌then◌else◌, ◌==◌, arith, inl, inr, Bool-cases,
}
use fos_simple_os.Memory.{Mem, put, decrement_references}
use fos_simple_os.Memory.Safe.{put_away}
use fos_simple_os.Memory.Releasing.{
  user_tables, free_entry, free_entries, free_disk_table, free_disk_tables, pf_free_env,
  used_entries, used_in_tables, pf_calculate_allocated_pages, pf_calculate_free_frames,
}

-- The disk frames of `n` entries from page `p` on, those of the tables of `n` directory entries from
-- `d` on, and those of a whole page file, in order.
abbrev pub held_entry : ℕ → List ℕ
held_entry d = if d == 0 then [] else d ∷ []

pub held_entries : ℕ → ℕ → (ℕ → ℕ) → List ℕ
held_entries zero p f = []
held_entries (suc n) p f = held_entry (f p) ++ held_entries n (p + 1) f

pub held_in_tables : ℕ → ℕ → (ℕ → Bool) → (ℕ → ℕ) → List ℕ
unfolding held_entries
held_in_tables zero d t f = []
held_in_tables (suc n) d t f =
    (if t d then held_entries 1024 (d * 1024) f else []) ++ held_in_tables n (d + 1) t f

abbrev pub disk_frames : Mem → List ℕ
disk_frames m = held_in_tables user_tables 0 m.disk_tables m.disk_pages

-- Frames put at the head of a list, one after the other.
abbrev pub pushed : List ℕ → List ℕ → List ℕ
pushed [] l = l
pushed (d ∷ frames) l = pushed frames (d ∷ l)

pushed-append : (a b l : List ℕ) → pushed (a ++ b) l ≡ pushed b (pushed a l)
pushed-append [] b l = refl
pushed-append (d ∷ a) b l = pushed-append a b (d ∷ l)

length-pushed : (a l : List ℕ) → length (pushed a l) ≡ length l + length a
length-pushed [] l = omega arith
length-pushed (d ∷ a) l = omega (arith, length-pushed a (d ∷ l))

length-held_entry : (d : ℕ) → length (held_entry d) ≡ (if d == 0 then 0 else 1)
length-held_entry d = ground arith

length-held_entries : (n p : ℕ) (f : ℕ → ℕ) → length (held_entries n p f) ≡ used_entries n p f
unfolding held_entries used_entries
length-held_entries zero p f = refl
length-held_entries (suc n) p f =
    length-append (held_entry (f p)) (held_entries n (p + 1) f)
    ∙ ap₂ (λ a b. a + b) (length-held_entry (f p)) (length-held_entries n (p + 1) f)

length-held_table :
    (b : Bool) (d : ℕ) (f : ℕ → ℕ)
    → length (if b then held_entries 1024 (d * 1024) f else [])
      ≡ (if b then used_entries 1024 (d * 1024) f else 0)
length-held_table true d f = length-held_entries 1024 (d * 1024) f
length-held_table false d f = refl

length-held_in_tables :
    (n d : ℕ) (t : ℕ → Bool) (f : ℕ → ℕ) → length (held_in_tables n d t f) ≡ used_in_tables n d t f
unfolding held_in_tables used_in_tables
length-held_in_tables zero d t f = refl
length-held_in_tables (suc n) d t f =
    length-append (if t d then held_entries 1024 (d * 1024) f else [])
      (held_in_tables n (d + 1) t f)
    ∙ ap₂ (λ a b. a + b) (length-held_table (t d) d f) (length-held_in_tables n (d + 1) t f)

-- What a step does to the page file: it changes no entry from page `hi` on, and returns frames.
record Returns (hi : ℕ) (frames : List ℕ) (m m' : Mem) : Type 0 where
  free : m'.disk_free ≡ pushed frames m.disk_free
  others : (p : ℕ) → hi ≤ p → m'.disk_pages p ≡ m.disk_pages p

pushed-held_entry : (d : ℕ) (l : List ℕ) → (if d == 0 then l else d ∷ l) ≡ pushed (held_entry d) l
pushed-held_entry d l = elim (Bool-cases (d == 0)) [ inl e ↦ rw e refl | inr e ↦ rw e refl ]

entry-Returns : (m : Mem) (p : ℕ) → Returns (p + 1) (held_entry (m.disk_pages p)) m (free_entry m p)
unfolding free_entry
entry-Returns m p = record {
  free = pushed-held_entry (m.disk_pages p) m.disk_free;
  others = λ q h. put_away m.disk_pages p 0 q (λ e. omega (arith, e, h));
}

held-agree :
    (n p : ℕ) (f g : ℕ → ℕ)
    → ((q : ℕ) → p ≤ q → f q ≡ g q)
    → held_entries n p f ≡ held_entries n p g
unfolding held_entries
held-agree zero p f g h = refl
held-agree (suc n) p f g h =
    ap₂ (λ x k. held_entry x ++ k) (h p (omega arith))
      (held-agree n (p + 1) f g (λ q l. h q (omega arith)))

-- Two steps, one behind the other.
both_free :
    (a b b' x y z : List ℕ) → x ≡ pushed b' y → y ≡ pushed a z → b' ≡ b → x ≡ pushed (a ++ b) z
both_free a b b' x y z p q r = p ∙ ap₂ pushed r q ∙ sym (pushed-append a b z)

entries-Returns :
    (n p : ℕ) (m : Mem) → Returns (p + n) (held_entries n p m.disk_pages) m (free_entries n p m)
unfolding free_entries held_entries
entries-Returns zero p m = record { free = refl; others = λ q h. refl }
entries-Returns (suc n) p m =
    let one = entry-Returns m p in
    let rest = entries-Returns n (p + 1) (free_entry m p) in
    let same = held-agree n (p + 1) (free_entry m p).disk_pages m.disk_pages one.others in
    record {
      free =
          both_free (held_entry (m.disk_pages p)) (held_entries n (p + 1) m.disk_pages)
            (held_entries n (p + 1) (free_entry m p).disk_pages)
            (free_entries n (p + 1) (free_entry m p)).disk_free (free_entry m p).disk_free
            m.disk_free rest.free one.free same;
      others = λ q h. rest.others q (omega arith) ∙ one.others q (omega arith);
    }

-- What releasing a frame leaves of the page file.
record SameFile (m m' : Mem) : Type 0 where
  free : m'.disk_free ≡ m.disk_free
  pages : m'.disk_pages ≡ m.disk_pages
  tables : m'.disk_tables ≡ m.disk_tables
  directory : m'.disk_directory ≡ m.disk_directory
  page_tables : m'.tables ≡ m.tables

decrement-SameFile : (m : Mem) (f : ℕ) → SameFile m (decrement_references m f)
unfolding decrement_references
decrement-SameFile m f = record {
  free = ground arith;
  pages = ground arith;
  tables = ground arith;
  directory = ground arith;
  page_tables = ground arith;
}

entries-tables : (n p : ℕ) (m : Mem) → (free_entries n p m).disk_tables ≡ m.disk_tables
unfolding free_entries free_entry
entries-tables zero p m = refl
entries-tables (suc n) p m = entries-tables n (p + 1) (free_entry m p)

entries-directory : (n p : ℕ) (m : Mem) → (free_entries n p m).disk_directory ≡ m.disk_directory
unfolding free_entries free_entry
entries-directory zero p m = refl
entries-directory (suc n) p m = entries-directory n (p + 1) (free_entry m p)

entries-page_tables : (n p : ℕ) (m : Mem) → (free_entries n p m).tables ≡ m.tables
unfolding free_entries free_entry
entries-page_tables zero p m = refl
entries-page_tables (suc n) p m = entries-page_tables n (p + 1) (free_entry m p)

-- The same for a table and those behind it.
record TableReturns (d : ℕ) (frames : List ℕ) (m m' : Mem) : Type 0 where
  free : m'.disk_free ≡ pushed frames m.disk_free
  page_tables : m'.tables ≡ m.tables
  pages : (p : ℕ) → (d + 1) * 1024 ≤ p → m'.disk_pages p ≡ m.disk_pages p
  tables : (c : ℕ) → d < c → m'.disk_tables c ≡ m.disk_tables c
  directory : m'.disk_directory ≡ m.disk_directory

table-Returns :
    (m : Mem) (d : ℕ)
    → TableReturns d (held_entries 1024 (d * 1024) m.disk_pages) m (free_disk_table m d)
unfolding free_disk_table
table-Returns m d =
    let m1 : Mem = free_entries 1024 (d * 1024) m in
    let k = entries-Returns 1024 (d * 1024) m in
    let t : m1.disk_tables ≡ m.disk_tables = entries-tables 1024 (d * 1024) m in
    let m2 : Mem = record m1 { disk_tables = put m1.disk_tables d false } in
    let s = decrement-SameFile m2 (m1.disk_table_frames d) in
    record {
      free = s.free ∙ k.free;
      page_tables = s.page_tables ∙ entries-page_tables 1024 (d * 1024) m;
      pages = λ p h. ap (λ f. f p) s.pages ∙ k.others p (omega arith);
      tables = λ c h.
          ap (λ f. f c) s.tables
          ∙ put_away m1.disk_tables d false c (λ e. omega (arith, e, h))
          ∙ ap (λ f. f c) t;
      directory = s.directory ∙ entries-directory 1024 (d * 1024) m;
    }

in_tables-agree :
    (n d : ℕ) (t u : ℕ → Bool) (f g : ℕ → ℕ)
    → ((c : ℕ) → d ≤ c → t c ≡ u c)
    → ((q : ℕ) → d * 1024 ≤ q → f q ≡ g q)
    → held_in_tables n d t f ≡ held_in_tables n d u g
unfolding held_in_tables
in_tables-agree zero d t u f g h k = refl
in_tables-agree (suc n) d t u f g h k =
    ap₂ (λ b x. (if b then x else []) ++ held_in_tables n (d + 1) t f) (h d (omega arith))
      (held-agree 1024 (d * 1024) f g k)
    ∙ ap (λ x. (if u d then held_entries 1024 (d * 1024) g else []) ++ x)
        (in_tables-agree n (d + 1) t u f g (λ c l. h c (omega arith)) (λ q l. k q (omega arith)))

-- The branch that a test takes.
at_true {ℓ} : {A : Type ℓ} (b : Bool) (x y : A) → b ≡ true → (elim b [ true ↦ x | false ↦ y ]) ≡ x
at_true true x y e = refl
at_true false x y e = absurd (cc)

at_false {ℓ} : {A : Type ℓ} (b : Bool) (x y : A) → b ≡ false → (elim b [ true ↦ x | false ↦ y ]) ≡ y
at_false true x y e = absurd (cc)
at_false false x y e = refl

count_step :
    (b : Bool) (k l : List ℕ) → (if b then k else []) ++ l ≡ (elim b [ true ↦ k | false ↦ [] ]) ++ l
count_step true k l = refl
count_step false k l = refl

skip_table :
    (n d : ℕ) (m : Mem)
    → m.disk_tables d ≡ false
    → free_disk_tables (suc n) d m ≡ free_disk_tables n (d + 1) m
unfolding free_disk_tables
skip_table n d m e =
    at_false (m.disk_tables d) (free_disk_tables n (d + 1) (free_disk_table m d))
      (free_disk_tables n (d + 1) m) e

take_table :
    (n d : ℕ) (m : Mem)
    → m.disk_tables d ≡ true
    → free_disk_tables (suc n) d m ≡ free_disk_tables n (d + 1) (free_disk_table m d)
unfolding free_disk_tables
take_table n d m e =
    at_true (m.disk_tables d) (free_disk_tables n (d + 1) (free_disk_table m d))
      (free_disk_tables n (d + 1) m) e

-- The disk frames that the loop over the directory returns, and what it keeps.
record DirectoryReturns (frames : List ℕ) (m m' : Mem) : Type 0 where
  free : m'.disk_free ≡ pushed frames m.disk_free
  page_tables : m'.tables ≡ m.tables
  directory : m'.disk_directory ≡ m.disk_directory

used_taken :
    (n d : ℕ) (t : ℕ → Bool) (f : ℕ → ℕ)
    → t d ≡ true
    → held_in_tables (suc n) d t f ≡ held_entries 1024 (d * 1024) f ++ held_in_tables n (d + 1) t f
unfolding held_in_tables
used_taken n d t f e =
    count_step (t d) (held_entries 1024 (d * 1024) f) (held_in_tables n (d + 1) t f)
    ∙ ap (λ k. k ++ held_in_tables n (d + 1) t f)
        (at_true (t d) (held_entries 1024 (d * 1024) f) [] e)

used_skipped :
    (n d : ℕ) (t : ℕ → Bool) (f : ℕ → ℕ)
    → t d ≡ false
    → held_in_tables (suc n) d t f ≡ held_in_tables n (d + 1) t f
unfolding held_in_tables
used_skipped n d t f e =
    count_step (t d) (held_entries 1024 (d * 1024) f) (held_in_tables n (d + 1) t f)
    ∙ ap (λ k. k ++ held_in_tables n (d + 1) t f)
        (at_false (t d) (held_entries 1024 (d * 1024) f) [] e)

none-Returns : (m : Mem) → DirectoryReturns [] m m
none-Returns m = record { free = refl; page_tables = refl; directory = refl }

taken-Returns :
    (n d : ℕ) (m m1 m2 : Mem) (k : List ℕ)
    → TableReturns d k m m1
    → DirectoryReturns (held_in_tables n (d + 1) m1.disk_tables m1.disk_pages) m1 m2
    → DirectoryReturns (k ++ held_in_tables n (d + 1) m.disk_tables m.disk_pages) m m2
taken-Returns n d m m1 m2 k t r = record {
  free =
      both_free k (held_in_tables n (d + 1) m.disk_tables m.disk_pages)
        (held_in_tables n (d + 1) m1.disk_tables m1.disk_pages) m2.disk_free m1.disk_free
        m.disk_free r.free t.free
        (in_tables-agree n (d + 1) m1.disk_tables m.disk_tables m1.disk_pages m.disk_pages
          (λ c l. t.tables c (omega (arith, l))) t.pages);
  page_tables = r.page_tables ∙ t.page_tables;
  directory = r.directory ∙ t.directory;
}

tables-Returns :
    (n d : ℕ) (m : Mem)
    → DirectoryReturns (held_in_tables n d m.disk_tables m.disk_pages) m (free_disk_tables n d m)
unfolding free_disk_tables held_in_tables
tables-Returns zero d m = none-Returns m
tables-Returns (suc n) d m = elim (Bool-cases (m.disk_tables d)) [
  | inl e ↦
      subst (λ k. DirectoryReturns k m (free_disk_tables (suc n) d m))
        (sym (used_taken n d m.disk_tables m.disk_pages e))
        (subst
          (DirectoryReturns
            (held_entries 1024 (d * 1024) m.disk_pages
              ++ held_in_tables n (d + 1) m.disk_tables m.disk_pages)
            m)
          (sym (take_table n d m e))
          (taken-Returns n d m (free_disk_table m d)
            (free_disk_tables n (d + 1) (free_disk_table m d))
            (held_entries 1024 (d * 1024) m.disk_pages) (table-Returns m d)
            (tables-Returns n (d + 1) (free_disk_table m d))))
  | inr e ↦
      subst (λ k. DirectoryReturns k m (free_disk_tables (suc n) d m))
        (sym (used_skipped n d m.disk_tables m.disk_pages e))
        (subst (DirectoryReturns (held_in_tables n (d + 1) m.disk_tables m.disk_pages) m)
          (sym (skip_table n d m e)) (tables-Returns n (d + 1) m))
]

-- pf_free_env of an environment with a page file returns; then the frames that its page file held are
-- at the head of the free disk frames, and the environment has no page file.
pub pf_free_env-returns :
    (m : Mem)
    → m.disk_directory ≡ true
    → (m' : Mem) × (pf_free_env m ≡ some m')
      × (m'.disk_free ≡ pushed (disk_frames m) m.disk_free)
      × (m'.disk_directory ≡ false)
      × (m'.tables ≡ m.tables)
unfolding pf_free_env
pf_free_env-returns m h =
    let m1 : Mem = free_disk_tables user_tables 0 m in
    let s = decrement-SameFile m1 m1.directory_frame in
    let t = tables-Returns user_tables 0 m in
    (
      record (decrement_references m1 m1.directory_frame) {
        disk_directory = false;
        directory_frame = 0;
      },
      rw (pf_free_env, h) refl,
      s.free ∙ t.free,
      refl,
      s.page_tables ∙ t.page_tables,
    )

-- What pf_calculate_allocated_pages counts are the frames that the page file holds.
pub returned_count :
    (m m' : Mem)
    → m'.disk_free ≡ pushed (disk_frames m) m.disk_free
    → pf_calculate_free_frames m' ≡ pf_calculate_free_frames m + pf_calculate_allocated_pages m
unfolding pf_calculate_allocated_pages
returned_count m m' e =
    ap length e
    ∙ length-pushed (disk_frames m) m.disk_free
    ∙ ap (λ k. length m.disk_free + k)
        (length-held_in_tables user_tables 0 m.disk_tables m.disk_pages)
