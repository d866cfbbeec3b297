-- ===== src/Memory/Paging.antt =====
-- Page tables, permissions and the page file keep the frames accounted for.
use fos_simple_os.Prelude.{
  ℕ, ◌+◌, ◌/◌, ◌^◌, ◌<◌, ◌≡◌, ◌≢◌, refl, ap, ap₂, sym, subst, ◌∙◌, List, [], ◌∷◌, true,
  if◌then◌else◌, ◌==◌, arith, inl, inr, eq_or_ne, ==_ne, ==_refl, NotIn, Option, none, some,
  Bool-cases, Each, Each-bind,
}
use fos_simple_os.Memory.{
  Mem, Entry, Perm, is_used, put, zero_entry, pdx, allocate_frame, static_cpt, map_in_table,
  map_frame, clear_table,
}
use fos_simple_os.Memory.Count.{entry_holds, mapped-agree}
use fos_simple_os.Memory.Safe.{
  IsSafe, IsFresh, references-IsSafe, allocate_frame-IsSafe, put_away, allocate-none, allocate-some,
}
use fos_simple_os.Memory.Mapping.{map_in_table-IsSafe}
use fos_simple_os.Memory.Unmapping.{no_holds, eq_to_le}

-- A frame that is not free and may get a reference.
pub record IsOwn (f : ℕ) (m : Mem) : Type 0 where
  pub used : f ≢ 0
  pub not_free : NotIn f m.free_frames
  pub low : m.references f + 1 < 2 ^ 32

pub fresh-IsOwn : {f : ℕ} {m : Mem} → IsFresh f m → IsOwn f m
fresh-IsOwn {f} {m} h = record {
  used = h.used;
  not_free = h.not_free;
  low = omega (arith, h.single);
}

-- What allocating another frame leaves of an own one.
allocate-IsOwn :
    (m : Mem) (f : ℕ) → IsOwn f m → Each (λ r. IsOwn f r.1 × (r.0 ≢ f)) (allocate_frame m)
allocate-IsOwn m f o = by_list m.free_frames refl
  where
    by_list :
        (l : List ℕ) → m.free_frames ≡ l → Each (λ r. IsOwn f r.1 × (r.0 ≢ f)) (allocate_frame m)
    by_list [] q = subst (Each (λ r. IsOwn f r.1 × (r.0 ≢ f))) (sym (allocate-none m q)) tt
    by_list (g ∷ rest) q =
        let out = subst (NotIn f) q o.not_free in
        subst (Each (λ r. IsOwn f r.1 × (r.0 ≢ f))) (sym (allocate-some m g rest q)) (
          record {
            used = o.used;
            not_free = out.1;
            low = omega (arith, o.low, put_away m.references g 0 f out.0);
          },
          out.0,
        )

Each-and {ℓ κ μ} :
    {A : Type ℓ} (P : A → Type κ) (Q : A → Type μ) (o : Option A)
    → Each P o
    → Each Q o
    → Each (λ a. P a × Q a) o
Each-and P Q none p q = tt
Each-and P Q (some a) p q = (p, q)

clear_in : (pages : ℕ → Entry) (d p : ℕ) → d ≡ p / 1024 → clear_table pages d p ≡ zero_entry
clear_in pages d p q = rw (ap (λ x. x == p / 1024) q, ==_refl (p / 1024)) refl

clear_out : (pages : ℕ → Entry) (d p : ℕ) → d ≢ p / 1024 → clear_table pages d p ≡ pages p
clear_out pages d p n = rw (==_ne d (p / 1024) n) refl

unused : ¬ (is_used zero_entry ≡ true)
unused e = cc

-- A new table has no pages.
table-IsSafe :
    (m : Mem) (d : ℕ) (frames : ℕ → ℕ)
    → IsSafe m
    → IsSafe (record m {
      tables = put m.tables d true;
      table_frames = frames;
      pages = clear_table m.pages d;
    })
table-IsSafe m d frames s =
    let m' : Mem = record m {
      tables = put m.tables d true;
      table_frames = frames;
      pages = clear_table m.pages d;
    } in
    record {
      unreferenced = s.unreferenced;
      distinct = s.distinct;
      not_zero = s.not_zero;
      counted = λ n g h. omega (
        arith,
        mapped-agree n m m' g (λ p l. elim (eq_or_ne d (p / 1024)) [
          | inl q ↦ omega (
            arith,
            ap (λ x. entry_holds (m'.tables (p / 1024)) x g) (clear_in m.pages d p q),
            no_holds (m'.tables (p / 1024)) g,
          )
          | inr o ↦ eq_to_le (
              ap₂ (λ b x. entry_holds b x g) (put_away m.tables d true (p / 1024) o)
                (clear_out m.pages d p o))
        ]),
        s.counted n g h,
      );
      named = λ p t u. elim (eq_or_ne d (p / 1024)) [
        | inl q ↦ absurd (unused (sym (ap (λ x. is_used x) (clear_in m.pages d p q)) ∙ u))
        | inr o ↦
            subst (λ x. x.frame ≢ 0) (sym (clear_out m.pages d p o))
              (s.named p (sym (put_away m.tables d true (p / 1024) o) ∙ t)
                (sym (ap (λ x. is_used x) (clear_out m.pages d p o)) ∙ u))
      ];
      fits = s.fits;
    }

-- A table with its frame.
with_table : (m : Mem) (va g : ℕ) → Mem
with_table m va g = record m {
  references = put m.references g 1;
  tables = put m.tables (pdx va) true;
  table_frames = put m.table_frames (pdx va) g;
  pages = clear_table m.pages (pdx va);
}

with_table-IsSafe : (m : Mem) (va g : ℕ) → IsSafe m → IsFresh g m → IsSafe (with_table m va g)
unfolding with_table
with_table-IsSafe m va g s h =
    table-IsSafe (record m { references = put m.references g 1 }) (pdx va)
      (put m.table_frames (pdx va) g)
      (references-IsSafe m g 1 s h.not_free (omega arith)
        (λ n nz. omega (arith, s.counted n g nz, h.single)))

with_table-IsOwn : (m : Mem) (va g f : ℕ) → g ≢ f → IsOwn f m → IsOwn f (with_table m va g)
unfolding with_table
with_table-IsOwn m va g f n o = record {
  used = o.used;
  not_free = o.not_free;
  low = omega (arith, o.low, put_away m.references g 1 f n);
}

-- `static_cpt` keeps the frames accounted for, and an own frame.
pub static_cpt-IsSafe :
    (m : Mem) (va f : ℕ)
    → IsSafe m
    → IsOwn f m
    → Each (λ m'. IsSafe m' × IsOwn f m') (static_cpt m va)
unfolding static_cpt with_table
static_cpt-IsSafe m va f s o =
    Each-bind (λ r. (IsSafe r.1 × IsFresh r.0 r.1) × (IsOwn f r.1 × (r.0 ≢ f)))
      (λ m'. IsSafe m' × IsOwn f m') (allocate_frame m) (λ r. some (with_table r.1 va r.0))
      (Each-and _ _ (allocate_frame m) (allocate_frame-IsSafe m s) (allocate-IsOwn m f o))
      (λ r h. (with_table-IsSafe r.1 va r.0 h.0.0 h.0.1, with_table-IsOwn r.1 va r.0 f h.1.1 h.1.0))

pub new_table-IsSafe : (m : Mem) (va : ℕ) → IsSafe m → Each IsSafe (static_cpt m va)
unfolding static_cpt with_table
new_table-IsSafe m va s =
    Each-bind {A = ℕ × Mem} (λ r. IsSafe r.1 × IsFresh r.0 r.1) IsSafe (allocate_frame m)
      (λ r. some (with_table r.1 va r.0)) (allocate_frame-IsSafe m s)
      (λ r h. with_table-IsSafe r.1 va r.0 h.0 h.1)

-- An own frame is mapped at a page, with a new table if there is none.
pub map_frame-IsSafe :
    (m : Mem) (f va : ℕ) (perm : Perm) → IsSafe m → IsOwn f m → Each IsSafe (map_frame m f va perm)
unfolding map_frame
map_frame-IsSafe m f va perm s o =
    Each-bind (λ m'. IsSafe m' × IsOwn f m') IsSafe
      (if m.tables (pdx va) then some m else static_cpt m va)
      (λ m1. some (map_in_table m1 f va perm))
      (elim (Bool-cases (m.tables (pdx va))) [
        | inl t ↦ rw t (s, o)
        | inr t ↦ rw t (static_cpt-IsSafe m va f s o)
      ])
      (λ m1 h. map_in_table-IsSafe m1 f va perm h.0 h.1.used h.1.not_free h.1.low)
