-- ===== src/Memory/UserPages/Mapped.antt =====
-- allocateMem maps the pages of its range.
use fos_simple_os.Prelude.{
  ℕ, zero, suc, ◌+◌, ◌*◌, ◌/◌, ◌^◌, ◌≤◌, ◌<◌, ◌≡◌, ◌≢◌, refl, sym, ap, subst, ◌∙◌, List, [], ◌∷◌,
  Bool, true, false, ◌==◌, if◌then◌else◌, Option, none, some, add32, Each, Each-bind, Each-if,
  eq_or_ne, Bool-cases, inl, inr, arith, ltb,
}
use fos_simple_os.Memory.{
  Mem, Entry, Perm, put, page, pdx, allocate_frame, unmap_frame, static_cpt, clear_table,
  map_in_table, map_frame, user_page, decrement_references,
}
use fos_simple_os.Memory.Safe.{put_at, put_away}
use fos_simple_os.Memory.PageFile.{
  get_disk_page_directory, create_disk_page_table, allocate_disk_frame, pf_add_empty_env_page,
  kernel_base,
}
use fos_simple_os.Memory.UserPages.{back_page, allocate_pages, allocate_mem}

-- The page table of an address is there, and the entry of its page is present.
pub record IsMapped (m : Mem) (w : ℕ) : Type 0 where
  pub table : m.tables (pdx w) ≡ true
  pub present : (m.pages (page w)).perm.present ≡ true

-- Steps that leave the tables and the pages.
record SamePages (m m' : Mem) : Type 0 where
  tables : m'.tables ≡ m.tables
  pages : m'.pages ≡ m.pages

same-IsMapped : (m m' : Mem) (w : ℕ) → SamePages m m' → IsMapped m w → IsMapped m' w
same-IsMapped m m' w s h = record {
  table = ap (λ t. t (pdx w)) s.tables ∙ h.table;
  present = ap (λ p. (p (page w)).perm.present) s.pages ∙ h.present;
}

allocate-SamePages : (m : Mem) → Each (λ r. SamePages m r.1) (allocate_frame m)
unfolding allocate_frame
allocate-SamePages m = by_list m.free_frames
  where
    by_list :
        (l : List ℕ)
        → Each {A = ℕ × Mem}
            (λ r. SamePages m r.1)
            (elim l [
              | [] ↦ none
              | f ∷ rest ↦
                  some (f, record m { free_frames = rest; references = put m.references f 0 })
            ])
    by_list [] = tt
    by_list (f ∷ rest) = record { tables = refl; pages = refl }

directory-SamePages : (m : Mem) → Each (λ m'. SamePages m m') (get_disk_page_directory m)
unfolding get_disk_page_directory
directory-SamePages m =
    Each-if (λ m'. SamePages m m') m.disk_directory _ _
      (λ b. record { tables = refl; pages = refl })
      (λ b.
        Each-bind (λ r. SamePages m r.1) (λ m'. SamePages m m') (allocate_frame m) _
          (allocate-SamePages m) (λ r s. record { tables = s.tables; pages = s.pages }))

disk_table-SamePages :
    (m : Mem) (va : ℕ) → Each (λ m'. SamePages m m') (create_disk_page_table m va)
unfolding create_disk_page_table
disk_table-SamePages m va =
    Each-if (λ m'. SamePages m m') (m.disk_tables (pdx va)) _ _
      (λ b. record { tables = refl; pages = refl })
      (λ b.
        Each-bind (λ r. SamePages m r.1) (λ m'. SamePages m m') (allocate_frame m) _
          (allocate-SamePages m) (λ r s. record { tables = s.tables; pages = s.pages }))

disk_frame-SamePages : (m : Mem) (va : ℕ) → SamePages m (allocate_disk_frame m va).0
unfolding allocate_disk_frame
disk_frame-SamePages m va = record { tables = ground arith; pages = ground arith }

then-SamePages : (m m1 m2 : Mem) → SamePages m m1 → SamePages m1 m2 → SamePages m m2
then-SamePages m m1 m2 a b = record { tables = b.tables ∙ a.tables; pages = b.pages ∙ a.pages }

pf_add-SamePages : (m : Mem) (va : ℕ) → Each (λ r. SamePages m r.0) (pf_add_empty_env_page m va)
unfolding pf_add_empty_env_page
pf_add-SamePages m va =
    Each-if (λ r. SamePages m r.0) (ltb va kernel_base) _ none
      (λ b.
        Each-bind (λ m1. SamePages m m1) (λ r. SamePages m r.0) (get_disk_page_directory m) _
          (directory-SamePages m)
          (λ m1 s1.
            Each-bind (λ m2. SamePages m1 m2) (λ r. SamePages m r.0) (create_disk_page_table m1 va)
              _ (disk_table-SamePages m1 va)
              (λ m2 s2. elim (Bool-cases (m2.disk_pages (page va) == 0)) [
                | inl z ↦ rw z (
                    then-SamePages m m1 _ s1
                      (then-SamePages m1 m2 _ s2 (disk_frame-SamePages m2 va)))
                | inr n ↦ rw n (then-SamePages m m1 m2 s1 s2)
              ])))
      (λ b. tt)

decrement-SamePages : (m : Mem) (f : ℕ) → SamePages m (decrement_references m f)
unfolding decrement_references
decrement-SamePages m f = record { tables = ground arith; pages = ground arith }

unmap-tables : (m : Mem) (va : ℕ) → (unmap_frame m va).tables ≡ m.tables
unfolding unmap_frame decrement_references
unmap-tables m va = ground arith

unmap-away : (m : Mem) (va p : ℕ) → page va ≢ p → (unmap_frame m va).pages p ≡ m.pages p
unfolding unmap_frame decrement_references
unmap-away m va p n = ground arith

in_table-tables : (m : Mem) (f va : ℕ) (perm : Perm) → (map_in_table m f va perm).tables ≡ m.tables
unfolding map_in_table
in_table-tables m f va perm = ground (arith, unmap-tables m va)

in_table-away :
    (m : Mem) (f va : ℕ) (perm : Perm) (p : ℕ)
    → page va ≢ p
    → (map_in_table m f va perm).pages p ≡ m.pages p
unfolding map_in_table
in_table-away m f va perm p n = ground (arith, unmap-away m va p n)

in_table-present :
    (m : Mem) (f va : ℕ) (perm : Perm)
    → ((map_in_table m f va perm).pages (page va)).perm.present ≡ true
unfolding map_in_table
in_table-present m f va perm = ground arith

-- A page is mapped, and those that were mapped are.
record Maps (va : ℕ) (m m' : Mem) : Type 0 where
  here : IsMapped m' va
  others : (w : ℕ) → IsMapped m w → IsMapped m' w

pdx-same : (va w : ℕ) → page va ≡ page w → pdx va ≡ pdx w
pdx-same va w e = omega (arith, e)

IsMapped-same : (m : Mem) (va w : ℕ) → page va ≡ page w → IsMapped m va → IsMapped m w
IsMapped-same m va w e h = record {
  table = ap m.tables (sym (pdx-same va w e)) ∙ h.table;
  present = ap (λ p. (m.pages p).perm.present) (sym e) ∙ h.present;
}

in_table-Maps :
    (m : Mem) (f va : ℕ) (perm : Perm)
    → m.tables (pdx va) ≡ true
    → Maps va m (map_in_table m f va perm)
in_table-Maps m f va perm t =
    let m' : Mem = map_in_table m f va perm in
    let at : IsMapped m' va = record {
      table = ap (λ s. s (pdx va)) (in_table-tables m f va perm) ∙ t;
      present = in_table-present m f va perm;
    } in
    record {
      here = at;
      others = λ w h. elim (eq_or_ne (page va) (page w)) [
        | inl e ↦ IsMapped-same m' va w e at
        | inr n ↦ record {
          table = ap (λ s. s (pdx w)) (in_table-tables m f va perm) ∙ h.table;
          present = ap (λ e. e.perm.present) (in_table-away m f va perm (page w) n) ∙ h.present;
        }
      ];
    }

-- A table is there, and what was mapped is.
record HasTable (va : ℕ) (m m' : Mem) : Type 0 where
  there : m'.tables (pdx va) ≡ true
  others : (w : ℕ) → IsMapped m w → IsMapped m' w

false_is : (b : Bool) → b ≡ false → b ≢ true
false_is true e = λ q. absurd (cc)
false_is false e = λ q. cc

table_of : (w : ℕ) → pdx w ≡ page w / 1024
table_of w = omega arith

clear_away : (pages : ℕ → Entry) (d p : ℕ) → d ≢ p / 1024 → clear_table pages d p ≡ pages p
clear_away pages d p n = ground arith

cpt-HasTable :
    (m : Mem) (va : ℕ) → m.tables (pdx va) ≡ false → Each (λ m'. HasTable va m m') (static_cpt m va)
unfolding static_cpt
cpt-HasTable m va t =
    Each-bind (λ r. SamePages m r.1) (λ m'. HasTable va m m') (allocate_frame m) _
      (allocate-SamePages m)
      (λ r s. record {
        there = put_at r.1.tables (pdx va) true (pdx va) refl;
        others = λ w h.
            let apart : pdx va ≢ pdx w =
              λ e. false_is (m.tables (pdx va)) t (ap m.tables e ∙ h.table) in
            record {
              table =
                  put_away r.1.tables (pdx va) true (pdx w) apart
                  ∙ ap (λ u. u (pdx w)) s.tables
                  ∙ h.table;
              present =
                  ap (λ e. e.perm.present)
                    (clear_away r.1.pages (pdx va) (page w) (λ e. apart (e ∙ sym (table_of w))))
                  ∙ ap (λ p. (p (page w)).perm.present) s.pages
                  ∙ h.present;
            };
      })

map_frame-Maps :
    (m : Mem) (f va : ℕ) (perm : Perm) → Each (λ m'. Maps va m m') (map_frame m f va perm)
unfolding map_frame
map_frame-Maps m f va perm =
    Each-bind (λ m1. HasTable va m m1) (λ m'. Maps va m m')
      (if m.tables (pdx va) then some m else static_cpt m va) _
      (elim (Bool-cases (m.tables (pdx va))) [
        | inl t ↦ rw t (record { there = t; others = λ w h. h })
        | inr t ↦ rw t (cpt-HasTable m va t)
      ])
      (λ m1 h.
        let k = in_table-Maps m1 f va perm h.there in
        record { here = k.here; others = λ w g. k.others w (h.others w g) })

back_page-Maps : (m : Mem) (va : ℕ) → Each (λ m'. Maps va m m') (back_page m va)
unfolding back_page
back_page-Maps m va =
    Each-bind (λ r. SamePages m r.1) (λ m'. Maps va m m') (allocate_frame m)
      (λ r. map_frame r.1 r.0 va user_page) (allocate-SamePages m)
      (λ r s.
        elim_Each r.1 m va (map_frame r.1 r.0 va user_page) s (map_frame-Maps r.1 r.0 va user_page))
  where
    elim_Each :
        (m1 m : Mem) (va : ℕ) (o : Option Mem)
        → SamePages m m1
        → Each (λ m'. Maps va m1 m') o
        → Each (λ m'. Maps va m m') o
    elim_Each m1 m va none s h = tt
    elim_Each m1 m va (some m') s h = record {
      here = h.here;
      others = λ w g. h.others w (same-IsMapped m m1 w s g);
    }

-- The pages of a range are mapped, and those that were mapped are.
pub record MapsRange (n va : ℕ) (m m' : Mem) : Type 0 where
  pub range : (i : ℕ) → i < n → IsMapped m' (va + i * 4096)
  pub others : (w : ℕ) → IsMapped m w → IsMapped m' w

one_more :
    (n va : ℕ) (m m0 m1 m' : Mem)
    → va + suc n * 4096 ≤ 2 ^ 32
    → SamePages m m0
    → Maps va m0 m1
    → MapsRange n (add32 va 4096) m1 m'
    → MapsRange (suc n) va m m'
one_more n va m m0 m1 m' fits s k r = record {
  range = λ i. in_range i;
  others = λ w g. r.others w (k.others w (same-IsMapped m m0 w s g));
}
  where
    in_range : (i : ℕ) → i < suc n → IsMapped m' (va + i * 4096)
    in_range zero lt = subst (IsMapped m') (omega arith) (r.others va k.here)
    in_range (suc i) lt =
        subst (IsMapped m') (omega (arith, fits, lt)) (r.range i (omega (arith, lt)))

rest_fits : (n va : ℕ) → va + suc n * 4096 ≤ 2 ^ 32 → add32 va 4096 + n * 4096 ≤ 2 ^ 32
rest_fits n va h = omega arith

allocate_pages-MapsRange :
    (n : ℕ) (m : Mem) (va : ℕ)
    → va + n * 4096 ≤ 2 ^ 32
    → Each (λ m'. MapsRange n va m m') (allocate_pages n m va)
unfolding allocate_pages
allocate_pages-MapsRange zero m va fits = record {
  range = λ i lt. absurd (omega (arith, lt));
  others = λ w g. g;
}
allocate_pages-MapsRange (suc n) m va fits =
    Each-bind {A = Mem × Bool} (λ r. SamePages m r.0) (λ m'. MapsRange (suc n) va m m')
      (pf_add_empty_env_page m va) _ (pf_add-SamePages m va)
      (λ r s.
        Each-bind (λ m1. Maps va r.0 m1) (λ m'. MapsRange (suc n) va m m')
          (if r.1 then back_page r.0 va else none) (λ m1. allocate_pages n m1 (add32 va 4096))
          (Each-if (λ m1. Maps va r.0 m1) r.1 _ none (λ b. back_page-Maps r.0 va) (λ b. tt))
          (λ m1 k.
            with_rest n va m r.0 m1 (allocate_pages n m1 (add32 va 4096)) fits s k
              (allocate_pages-MapsRange n m1 (add32 va 4096) (rest_fits n va fits))))
  where
    with_rest :
        (n va : ℕ) (m m0 m1 : Mem) (o : Option Mem)
        → va + suc n * 4096 ≤ 2 ^ 32
        → SamePages m m0
        → Maps va m0 m1
        → Each (λ m'. MapsRange n (add32 va 4096) m1 m') o
        → Each (λ m'. MapsRange (suc n) va m m') o
    with_rest n va m m0 m1 none fits s k r = tt
    with_rest n va m m0 m1 (some m') fits s k r = one_more n va m m0 m1 m' fits s k r

-- When allocateMem returns for a range within the address space, every page of it is mapped, with its
-- page table there and its entry present, and so is every page that was mapped before.
pub allocate_mem-MapsRange :
    (m : Mem) (va size : ℕ)
    → va + size / 4096 * 4096 ≤ 2 ^ 32
    → Each (λ m'. MapsRange (size / 4096) va m m') (allocate_mem m va size)
unfolding allocate_mem
allocate_mem-MapsRange m va size fits = allocate_pages-MapsRange (size / 4096) m va fits
