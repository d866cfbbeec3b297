-- ===== src/Memory/Unmapping.antt =====
-- Unmapping keeps the frames accounted for.
pub mod Dropped
use fos_simple_os.Prelude.{
  ℕ, ◌+◌, ◌-◌, ◌/◌, ◌≤◌, ◌<◌, ◌≡◌, ◌≢◌, refl, ap, sym, subst, ◌∙◌, List, [], ◌∷◌, Bool, true, false,
  ◌==◌, arith, ◌⊎◌, inl, inr, eq_or_ne, ==_ne, ==_refl, All, NotIn, none, some, sub32, Bool-cases,
}
use fos_simple_os.Memory.{
  Mem, Entry, is_used, put, zero_entry, page, pdx, decrement_references, get_frame_info,
  unmap_frame,
}
use fos_simple_os.Memory.Count.{
  entry_holds, holds, mapped, mapped_mono, mapped-agree, mapped-change,
}
use fos_simple_os.Memory.Safe.{IsSafe, references-IsSafe, put_at, put_away}

pub eq_to_le : {a b : ℕ} → a ≡ b → a ≤ b
eq_to_le e = omega arith

-- Another entry at one page, when the references have room for it.
pub entry-IsSafe :
    (m : Mem) (k : ℕ) (e : Entry)
    → IsSafe m
    → (m.tables (k / 1024) ≡ true → is_used e ≡ true → e.frame ≢ 0)
    → ((n g : ℕ) → g ≢ 0 → mapped n (record m { pages = put m.pages k e }) g ≤ m.references g)
    → IsSafe (record m { pages = put m.pages k e })
entry-IsSafe m k e s name count = record {
  unreferenced = s.unreferenced;
  distinct = s.distinct;
  not_zero = s.not_zero;
  counted = count;
  named = λ p t u. elim (eq_or_ne k p) [
    | inl q ↦
        subst (λ x. x.frame ≢ 0) (sym (put_at m.pages k e p q))
          (name (ap (λ x. m.tables (x / 1024)) q ∙ t)
            (sym (ap (λ x. is_used x) (put_at m.pages k e p q)) ∙ u))
    | inr n ↦
        subst (λ x. x.frame ≢ 0) (sym (put_away m.pages k e p n))
          (s.named p t (sym (ap (λ x. is_used x) (put_away m.pages k e p n)) ∙ u))
  ];
  fits = s.fits;
}

-- The count of a frame after the change, with the one before.
pub entry-count :
    (m : Mem) (k : ℕ) (e : Entry) (n g : ℕ)
    → k < n
    → let m' = record m { pages = put m.pages k e } in
      mapped n m' g + holds m k g ≤ mapped n m g + holds m' k g
entry-count m k e n g l =
    mapped-change n k m (record m { pages = put m.pages k e }) g l
      (λ p n'.
        let same =
          ap (λ x. entry_holds (m.tables (p / 1024)) x g)
            (put_away m.pages k e p (λ q. n' (sym q))) in
        eq_to_le same)

-- A frame with references is not free.
not_listed : (r : ℕ → ℕ) (f : ℕ) (l : List ℕ) → r f ≢ 0 → All (λ g. r g ≡ 0) l → NotIn f l
not_listed r f [] h a = tt
not_listed r f (g ∷ l) h a = (λ e. h (sym (ap r e) ∙ a.0), not_listed r f l h a.1)

freed-IsSafe :
    (m : Mem) (f : ℕ)
    → IsSafe m
    → f ≢ 0
    → NotIn f m.free_frames
    → m.references f ≡ 0
    → IsSafe (record m { free_frames = f ∷ m.free_frames })
freed-IsSafe m f s nz out zero_refs =
    let m' : Mem = record m { free_frames = f ∷ m.free_frames } in
    record {
      unreferenced = (zero_refs, s.unreferenced);
      distinct = (out, s.distinct);
      not_zero = (nz, s.not_zero);
      counted = λ n g h. omega (arith, mapped-agree n m m' g (λ p l. omega arith), s.counted n g h);
      named = s.named;
      fits = s.fits;
    }

-- A reference of a frame may go when its pages need it no more.
pub decrement-IsSafe :
    (m : Mem) (f : ℕ)
    → IsSafe m
    → f ≢ 0
    → ((n : ℕ) → mapped n m f + 1 ≤ m.references f)
    → IsSafe (decrement_references m f)
unfolding decrement_references
decrement-IsSafe m f s nz spare =
    let left : ℕ = sub32 (m.references f) 1 in
    let less : left ≡ m.references f - 1 = omega (arith, s.fits f, spare 0) in
    let out : NotIn f m.free_frames =
      not_listed m.references f m.free_frames (λ z. absurd (omega (arith, spare 0)))
        s.unreferenced in
    let s' : IsSafe (record m { references = put m.references f left }) =
      references-IsSafe m f left s out (omega arith) (λ n h. omega (arith, spare n, less)) in
    elim (eq_or_ne left 0) [
      | inl z ↦
          let s0 : IsSafe (record m { references = put m.references f 0 }) =
            references-IsSafe m f 0 s out (omega arith) (λ n h. omega (arith, spare n, less, z)) in
          rw (ap (λ k. k == 0) z) (
            freed-IsSafe (record m { references = put m.references f 0 }) f s0 nz out
              (put_at m.references f 0 f refl))
      | inr n ↦ rw (==_ne left 0 n) s'
    ]

pub pdx-page : (va : ℕ) → page va / 1024 ≡ pdx va
pdx-page va = omega arith

-- `get_frame_info` finds the frame of an entry that is in use, in a table that is there.
pub get_frame-cases :
    (m : Mem) (va : ℕ)
    → (get_frame_info m va ≡ none)
      ⊎ ((get_frame_info m va ≡ some (m.pages (page va)).frame)
          × (m.tables (pdx va) ≡ true)
          × (is_used (m.pages (page va)) ≡ true))
unfolding get_frame_info
get_frame-cases m va = elim (Bool-cases (m.tables (pdx va))) [
  | inr t ↦ inl (rw t refl)
  | inl t ↦ elim (Bool-cases (is_used (m.pages (page va)))) [
    | inl u ↦ inr (rw (t, u) refl, t, u)
    | inr u ↦ inl (rw (t, u) refl)
  ]
]

pub no_holds : (b : Bool) (g : ℕ) → entry_holds b zero_entry g ≡ 0
no_holds true g = refl
no_holds false g = refl

cleared-count :
    (m : Mem) (k n g : ℕ)
    → mapped n (record m { pages = put m.pages k zero_entry }) g ≤ mapped n m g
cleared-count m k n g =
    mapped-agree n m (record m { pages = put m.pages k zero_entry }) g
      (λ p l. elim (eq_or_ne k p) [
        | inl q ↦ omega (
          arith,
          ap (λ x. entry_holds (m.tables (p / 1024)) x g) (put_at m.pages k zero_entry p q),
          no_holds (m.tables (p / 1024)) g,
        )
        | inr o ↦
            eq_to_le
              (ap (λ x. entry_holds (m.tables (p / 1024)) x g) (put_away m.pages k zero_entry p o))
      ])

-- The entry of a page goes.
pub cleared-IsSafe :
    (m : Mem) (k : ℕ) → IsSafe m → IsSafe (record m { pages = put m.pages k zero_entry })
cleared-IsSafe m k s =
    let m' : Mem = record m { pages = put m.pages k zero_entry } in
    entry-IsSafe m k zero_entry s (λ t u. absurd (cc))
      (λ n g nz. omega (arith, cleared-count m k n g, s.counted n g nz))

-- A page that goes leaves one reference of its frame over.
pub cleared_spare :
    (m : Mem) (k n : ℕ)
    → IsSafe m
    → m.tables (k / 1024) ≡ true
    → is_used (m.pages k) ≡ true
    → let m' = record m { pages = put m.pages k zero_entry } in
      mapped n m' (m.pages k).frame + 1 ≤ m.references (m.pages k).frame
cleared_spare m k n s t u =
    let f : ℕ = (m.pages k).frame in
    let m' : Mem = record m { pages = put m.pages k zero_entry } in
    let one : holds m k f ≡ 1 = rw (t, u, ==_refl f) refl in
    let gone : holds m' k f ≡ 0 =
      ap (λ x. entry_holds (m.tables (k / 1024)) x f) (put_at m.pages k zero_entry k refl)
      ∙ no_holds (m.tables (k / 1024)) f in
    omega (
      arith,
      mapped_mono n (n + k + 1) m' f (omega arith),
      entry-count m k zero_entry (n + k + 1) f (omega arith),
      s.counted (n + k + 1) f (s.named k t u),
      one,
      gone,
    )

decrement-pages :
    (m : Mem) (f : ℕ) (pages : ℕ → Entry)
    → record (decrement_references m f) { pages = pages }
      ≡ decrement_references (record m { pages = pages }) f
unfolding decrement_references
decrement-pages m f pages = elim (eq_or_ne (sub32 (m.references f) 1) 0) [
  | inl z ↦ rw (ap (λ k. k == 0) z) refl
  | inr n ↦ rw (==_ne (sub32 (m.references f) 1) 0 n) refl
]

decrement-same_pages : (m : Mem) (f : ℕ) → (decrement_references m f).pages ≡ m.pages
unfolding decrement_references
decrement-same_pages m f = ground arith

pub unmap-none : (m : Mem) (va : ℕ) → get_frame_info m va ≡ none → unmap_frame m va ≡ m
unfolding unmap_frame
unmap-none m va q = rw (q, unmap_frame) refl

pub unmap-some :
    (m : Mem) (va : ℕ) {f : ℕ}
    → get_frame_info m va ≡ some f
    → unmap_frame m va
      ≡ decrement_references (record m { pages = put m.pages (page va) zero_entry }) f
unfolding unmap_frame
unmap-some m va {f} q =
    let k : ℕ = page va in
    rw (q, unmap_frame)
      (ap (λ g. record (decrement_references m f) { pages = put g k zero_entry })
          (decrement-same_pages m f)
        ∙ decrement-pages m f (put m.pages k zero_entry))

pub unmap-IsSafe : (m : Mem) (va : ℕ) → IsSafe m → IsSafe (unmap_frame m va)
unmap-IsSafe m va s = elim (get_frame-cases m va) [
  | inl q ↦ subst IsSafe (sym (unmap-none m va q)) s
  | inr (q, t, u) ↦
      let k : ℕ = page va in
      let t' : m.tables (k / 1024) ≡ true = ap m.tables (pdx-page va) ∙ t in
      subst IsSafe (sym (unmap-some m va q)) (
        decrement-IsSafe (record m { pages = put m.pages k zero_entry }) (m.pages k).frame
          (cleared-IsSafe m k s) (s.named k t' u) (λ n. cleared_spare m k n s t' u))
]

decrement-other :
    (m : Mem) (g f : ℕ)
    → g ≢ f
    → NotIn f m.free_frames
    → NotIn f (decrement_references m g).free_frames
      × ((decrement_references m g).references f ≡ m.references f)
      × ((decrement_references m g).tables ≡ m.tables)
unfolding decrement_references
decrement-other m g f ne out = elim (eq_or_ne (sub32 (m.references g) 1) 0) [
  | inl z ↦ rw (ap (λ k. k == 0) z) ((ne, out), put_away m.references g 0 f ne, refl)
  | inr n ↦
      rw (==_ne (sub32 (m.references g) 1) 0 n)
        (out, put_away m.references g (sub32 (m.references g) 1) f ne, refl)
]

-- What unmapping leaves of a frame that the page does not hold.
pub unmap-other :
    (m : Mem) (va f : ℕ)
    → (m.pages (page va)).frame ≢ f
    → NotIn f m.free_frames
    → NotIn f (unmap_frame m va).free_frames
      × ((unmap_frame m va).references f ≡ m.references f)
      × ((unmap_frame m va).tables ≡ m.tables)
unmap-other m va f ne out = elim (get_frame-cases m va) [
  | inl q ↦ rw (unmap-none m va q) (out, refl, refl)
  | inr (q, t, u) ↦ rw (unmap-some m va q) (
      decrement-other (record m { pages = put m.pages (page va) zero_entry })
        (m.pages (page va)).frame f ne out)
]
