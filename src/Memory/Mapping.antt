-- ===== src/Memory/Mapping.antt =====
-- Mapping keeps the frames accounted for.
use fos_simple_os.Prelude.{
  ℕ, ◌+◌, ◌/◌, ◌^◌, ◌≤◌, ◌<◌, ◌≡◌, ◌≢◌, refl, ap, sym, ◌∙◌, Bool, true, false, ◌&&◌, if◌then◌else◌,
  ◌==◌, arith, inl, inr, eq_or_ne, ==_ne, ==_refl, NotIn, add32, Bool-cases, some,
}
use fos_simple_os.Memory.{
  Mem, Entry, Perm, is_used, put, page, pdx, unmap_frame, map_in_table, map_frame,
}
use fos_simple_os.Memory.Count.{
  entry_holds, holds, mapped, mapped_mono, mapped-agree, mapped-change,
}
use fos_simple_os.Memory.Safe.{IsSafe, references-IsSafe, put_at, put_away}
use fos_simple_os.Memory.Unmapping.{
  eq_to_le, pdx-page, entry-IsSafe, entry-count, unmap-IsSafe, unmap-other,
}

one_at_most : (b : Bool) (e : Entry) (g : ℕ) → entry_holds b e g ≤ 1
one_at_most b e g = elim (Bool-cases (b && (is_used e && (e.frame == g)))) [
  | inl q ↦ rw q (omega arith)
  | inr q ↦ rw q (omega arith)
]

pub other_frame : (b : Bool) (e : Entry) (g : ℕ) → e.frame ≢ g → entry_holds b e g ≡ 0
other_frame b e g n = rw (==_ne e.frame g n) (no_two b (is_used e))
  where
    entry_no : Bool → Bool → ℕ
    entry_no b u = if b && (u && false) then 1 else 0

    no_two : (b u : Bool) → entry_no b u ≡ 0
    no_two true true = refl
    no_two true false = refl
    no_two false u = refl

abbrev attached : Mem → ℕ → ℕ → Perm → Mem
attached m f k perm = record m {
  references = put m.references f (add32 (m.references f) 1);
  pages = put m.pages k (record { frame = f; perm = perm });
}

-- A frame gets one reference and one page more.
attached-IsSafe :
    (m : Mem) (f k : ℕ) (perm : Perm)
    → IsSafe m
    → f ≢ 0
    → NotIn f m.free_frames
    → m.references f + 1 < 2 ^ 32
    → IsSafe (attached m f k perm)
attached-IsSafe m f k perm s nz out fit =
    let more : ℕ = add32 (m.references f) 1 in
    let e : Entry = record { frame = f; perm = perm } in
    let m2 : Mem = record m { references = put m.references f more } in
    let m3 : Mem = record m2 { pages = put m.pages k e } in
    let s2 : IsSafe m2 =
      references-IsSafe m f more s out (omega arith) (λ n h. omega (arith, s.counted n f h)) in
    let before : (n g : ℕ) → mapped n m2 g ≤ mapped n m g =
      λ n g. mapped-agree n m m2 g (λ p l. omega arith) in
    let grow : (n g : ℕ) → mapped n m3 g ≤ mapped (n + k + 1) m g + holds m3 k g = λ n g. omega (
      arith,
      mapped_mono n (n + k + 1) m3 g (omega arith),
      entry-count m2 k e (n + k + 1) g (omega arith),
      before (n + k + 1) g,
    ) in
    entry-IsSafe m2 k e s2 (λ t u. nz)
      (λ n g h. elim (eq_or_ne f g) [
        | inl q ↦ omega (
          arith,
          grow n g,
          s.counted (n + k + 1) g h,
          one_at_most (m.tables (k / 1024)) (put m.pages k e k) g,
          put_at m.references f more g q,
          ap m.references q,
        )
        | inr o ↦ omega (
          arith,
          grow n g,
          s.counted (n + k + 1) g h,
          ap (λ x. entry_holds (m.tables (k / 1024)) x g) (put_at m.pages k e k refl)
              ∙ other_frame (m.tables (k / 1024)) e g o,
          put_away m.references f more g o,
        )
      ])

-- A frame of its own is mapped at a page.
pub map_in_table-IsSafe :
    (m : Mem) (f va : ℕ) (perm : Perm)
    → IsSafe m
    → f ≢ 0
    → NotIn f m.free_frames
    → m.references f + 1 < 2 ^ 32
    → IsSafe (map_in_table m f va perm)
unfolding map_in_table
map_in_table-IsSafe m f va perm s nz out fit =
    let perm' : Perm = record perm { present = true } in
    elim (Bool-cases (m.pages (page va)).perm.present) [
      | inr a ↦ rw a (attached-IsSafe m f (page va) perm' s nz out fit)
      | inl b ↦ elim (eq_or_ne (m.pages (page va)).frame f) [
        | inl q ↦ rw (b, ap (λ x. x == f) q, ==_refl f) s
        | inr n ↦
            let (out', refs, tables) = unmap-other m va f n out in
            rw (b, ==_ne (m.pages (page va)).frame f n)
              (attached-IsSafe (unmap_frame m va) f (page va) perm' (unmap-IsSafe m va s) nz out'
                (omega (arith, refs)))
      ]
    ]

-- The count of a frame that a page gives away to another one.
given_away :
    (m m' : Mem) (n k g : ℕ)
    → k < n
    → ((p : ℕ) → p ≢ k → holds m' p g ≡ holds m p g)
    → holds m k g ≡ 1
    → holds m' k g ≡ 0
    → mapped n m' g + 1 ≡ mapped n m g
given_away m m' n k g l same one none = omega (
  arith,
  mapped-change n k m m' g l (λ p o. eq_to_le (same p o)),
  mapped-change n k m' m g l (λ p o. eq_to_le (sym (same p o))),
  one,
  none,
)

-- map_frame over an entry in use of another frame that is not present returns, and leaks a reference:
-- of all pages one fewer holds the other frame, which keeps all its references.
pub map_frame-leaks :
    (m : Mem) (f va n : ℕ) (perm : Perm)
    → page va < n
    → m.tables (pdx va) ≡ true
    → is_used (m.pages (page va)) ≡ true
    → (m.pages (page va)).perm.present ≡ false
    → (m.pages (page va)).frame ≢ f
    → (m' : Mem) × (map_frame m f va perm ≡ some m')
      × (m'.references (m.pages (page va)).frame ≡ m.references (m.pages (page va)).frame)
      × (mapped n m' (m.pages (page va)).frame + 1 ≡ mapped n m (m.pages (page va)).frame)
unfolding map_frame map_in_table
map_frame-leaks m f va n perm l t u absent other =
    let k : ℕ = page va in
    let g : ℕ = (m.pages k).frame in
    let perm' : Perm = record perm { present = true } in
    let m' : Mem = attached m f k perm' in
    let e : Entry = record { frame = f; perm = perm' } in
    let there : m.tables (k / 1024) ≡ true = ap m.tables (pdx-page va) ∙ t in
    (
      m',
      rw (map_frame, t, absent) refl,
      put_away m.references f (add32 (m.references f) 1) g (λ q. other (sym q)),
      given_away m m' n k g l
          (λ p o.
            ap (λ x. entry_holds (m.tables (p / 1024)) x g)
              (put_away m.pages k e p (λ q. o (sym q))))
          (rw (there, u, ==_refl g) refl)
          (ap (λ x. entry_holds (m.tables (k / 1024)) x g) (put_at m.pages k e k refl)
            ∙ other_frame (m.tables (k / 1024)) e g (λ q. other (sym q))),
    )
