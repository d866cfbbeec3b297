-- ===== src/Memory/Safe.antt =====
-- Frames are accounted for: no free frame is mapped, and a frame has at least as many references as
-- pages that hold it.
use fos_simple_os.Prelude.{
  ℕ, ◌/◌, ◌^◌, ◌≤◌, ◌<◌, ◌≡◌, ◌≢◌, refl, ap, sym, subst, ◌∙◌, List, [], ◌∷◌, true, arith, inl, inr,
  eq_or_ne, ==_ne, ==_refl, All, NotIn, Distinct, none, some, Each,
}
use fos_simple_os.Memory.{Mem, is_used, put, allocate_frame}
use fos_simple_os.Memory.Count.{mapped, mapped-agree}

-- Frame 0 is never handed out.
pub record IsSafe (m : Mem) : Type 0 where
  pub unreferenced : All (λ f. m.references f ≡ 0) m.free_frames
  pub distinct : Distinct m.free_frames
  pub not_zero : NotIn 0 m.free_frames
  pub counted : (n f : ℕ) → f ≢ 0 → mapped n m f ≤ m.references f
  pub named :
      (p : ℕ) → m.tables (p / 1024) ≡ true → is_used (m.pages p) ≡ true → (m.pages p).frame ≢ 0
  pub fits : (f : ℕ) → m.references f < 2 ^ 32

-- The references of frames that are not in a list may change.
kept_free :
    (l : List ℕ) (r r' : ℕ → ℕ) (f : ℕ)
    → NotIn f l
    → ((g : ℕ) → g ≢ f → r' g ≡ r g)
    → All (λ g. r g ≡ 0) l
    → All (λ g. r' g ≡ 0) l
kept_free [] r r' f n h a = tt
kept_free (g ∷ l) r r' f n h a = (h g n.0 ∙ a.0, kept_free l r r' f n.1 h a.1)

-- What an allocation hands out: a frame of its own.
pub record IsFresh (f : ℕ) (m : Mem) : Type 0 where
  pub used : f ≢ 0
  pub not_free : NotIn f m.free_frames
  pub single : m.references f ≡ 0

pub put_at {ℓ} : {A : Type ℓ} (r : ℕ → A) (f : ℕ) (v : A) (g : ℕ) → f ≡ g → put r f v g ≡ v
put_at r f v g e = rw (e, ==_refl g) refl

pub put_away {ℓ} : {A : Type ℓ} (r : ℕ → A) (f : ℕ) (v : A) (g : ℕ) → f ≢ g → put r f v g ≡ r g
put_away r f v g n = rw (==_ne f g n) refl

put_self : (r : ℕ → ℕ) (f v : ℕ) → put r f v f ≡ v
put_self r f v = put_at r f v f refl

put_other : (r : ℕ → ℕ) (f v g : ℕ) → g ≢ f → put r f v g ≡ r g
put_other r f v g n = put_away r f v g (λ e. n (sym e))

-- Another number of references for a frame that is not free, which its pages do not exceed.
pub references-IsSafe :
    (m : Mem) (f v : ℕ)
    → IsSafe m
    → NotIn f m.free_frames
    → v < 2 ^ 32
    → ((n : ℕ) → f ≢ 0 → mapped n m f ≤ v)
    → IsSafe (record m { references = put m.references f v })
references-IsSafe m f v s out fit enough =
    let m' : Mem = record m { references = put m.references f v } in
    record {
      unreferenced =
          kept_free m.free_frames m.references m'.references f out
            (λ g n. put_other m.references f v g n) s.unreferenced;
      distinct = s.distinct;
      not_zero = s.not_zero;
      counted = λ n g nz. elim (eq_or_ne g f) [
        | inl e ↦ omega (
          arith,
          mapped-agree n m m' g (λ p l. omega arith),
          ap (mapped n m) e,
          enough n (λ z. nz (e ∙ z)),
          ap m'.references e ∙ put_self m.references f v,
        )
        | inr o ↦ omega (
          arith,
          mapped-agree n m m' g (λ p l. omega arith),
          s.counted n g nz,
          put_other m.references f v g o,
        )
      ];
      named = s.named;
      fits = λ g. elim (eq_or_ne g f) [
        | inl e ↦ omega (arith, ap m'.references e ∙ put_self m.references f v)
        | inr o ↦ omega (arith, s.fits g, put_other m.references f v g o)
      ];
    }

pub allocate-none : (m : Mem) → m.free_frames ≡ [] → allocate_frame m ≡ none
unfolding allocate_frame
allocate-none m q = rw q refl

pub allocate-some :
    (m : Mem) (f : ℕ) (rest : List ℕ)
    → m.free_frames ≡ f ∷ rest
    → allocate_frame m
      ≡ some (f, record m { free_frames = rest; references = put m.references f 0 })
unfolding allocate_frame
allocate-some m f rest q = rw q refl

allocated :
    (m : Mem) (f : ℕ) (rest : List ℕ)
    → IsSafe m
    → m.free_frames ≡ f ∷ rest
    → let m' = record m { free_frames = rest; references = put m.references f 0 } in
      IsSafe m' × IsFresh f m'
allocated m f rest s q =
    let un = subst (All (λ g. m.references g ≡ 0)) q s.unreferenced in
    let di = subst Distinct q s.distinct in
    let nz = subst (NotIn 0) q s.not_zero in
    let m0 : Mem = record m { free_frames = rest } in
    let s0 : IsSafe m0 = record {
      unreferenced = un.1;
      distinct = di.1;
      not_zero = nz.1;
      counted = λ n g h. omega (arith, mapped-agree n m m0 g (λ p l. omega arith), s.counted n g h);
      named = s.named;
      fits = s.fits;
    } in
    (
      references-IsSafe m0 f 0 s0 di.0 (omega arith) (λ n h. omega (arith, s0.counted n f h, un.0)),
      record { used = nz.0; not_free = di.0; single = put_self m.references f 0 },
    )

pub allocate_frame-IsSafe :
    (m : Mem) → IsSafe m → Each (λ r. IsSafe r.1 × IsFresh r.0 r.1) (allocate_frame m)
allocate_frame-IsSafe m s = by_list m.free_frames refl
  where
    by_list :
        (l : List ℕ)
        → m.free_frames ≡ l
        → Each (λ r. IsSafe r.1 × IsFresh r.0 r.1) (allocate_frame m)
    by_list [] q = subst (Each (λ r. IsSafe r.1 × IsFresh r.0 r.1)) (sym (allocate-none m q)) tt
    by_list (f ∷ rest) q =
        subst (Each (λ r. IsSafe r.1 × IsFresh r.0 r.1)) (sym (allocate-some m f rest q))
          (allocated m f rest s q)
