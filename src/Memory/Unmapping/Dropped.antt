-- ===== src/Memory/Unmapping/Dropped.antt =====
-- What unmap_frame of PROJECT_template/kern/memory_manager.c does to the page and to its frame.
use fos_simple_os.Prelude.{
  ℕ, ◌+◌, ◌^◌, ◌<◌, ◌≡◌, ◌≢◌, refl, ap, sym, subst, ◌∙◌, ◌∷◌, true, ◌==◌, arith, ◌⊎◌, inl, inr,
  eq_or_ne, ==_ne, none, sub32,
}
use fos_simple_os.Memory.{
  Mem, is_used, put, zero_entry, page, pdx, decrement_references, get_frame_info, unmap_frame,
}
use fos_simple_os.Memory.Safe.{IsSafe, put_at, put_away}
use fos_simple_os.Memory.Unmapping.{
  get_frame-cases, unmap-none, unmap-some, unmap-IsSafe, cleared_spare, pdx-page,
}

-- The references of a frame go down by one, those of the others stay, and the frame is free from
-- then on if that was the last one.
pub record IsDropped (m m' : Mem) (f : ℕ) : Type 0 where
  pub one_less : m'.references f + 1 ≡ m.references f
  pub others : (g : ℕ) → f ≢ g → m'.references g ≡ m.references g
  pub last : m.references f ≡ 1 → m'.free_frames ≡ f ∷ m.free_frames
  pub not_last : m.references f ≢ 1 → m'.free_frames ≡ m.free_frames

decrement-IsDropped :
    (m : Mem) (f : ℕ)
    → m.references f ≢ 0
    → m.references f < 2 ^ 32
    → IsDropped m (decrement_references m f) f
unfolding decrement_references
decrement-IsDropped m f nz fits =
    let r : ℕ → ℕ = m.references in
    let left : ℕ = sub32 (r f) 1 in
    let less : left + 1 ≡ r f = omega (arith, nz, fits) in
    elim (eq_or_ne left 0) [
      | inl z ↦ rw (ap (λ k. k == 0) z) (record {
        one_less = ap (λ v. v + 1) (put_at r f 0 f refl) ∙ omega (arith, z, less);
        others = λ g n. put_away r f 0 g n;
        last = λ e. refl;
        not_last = λ n. absurd (n (omega (arith, z, less)));
      })
      | inr nz' ↦ rw (==_ne left 0 nz') (record {
        one_less = ap (λ v. v + 1) (put_at r f left f refl) ∙ less;
        others = λ g n. put_away r f left g n;
        last = λ e. absurd (nz' (omega (arith, e, less)));
        not_last = λ n. refl;
      })
    ]

decrement-pages_kept : (m : Mem) (f : ℕ) → (decrement_references m f).pages ≡ m.pages
unfolding decrement_references
decrement-pages_kept m f = ground arith

-- Where frames are accounted for, they stay so. unmap_frame of an address whose page table is there
-- and whose entry is in use clears that entry and no other, takes one reference from its frame and
-- none from any other, and frees the frame exactly if that was its last reference. Of any other
-- address it changes nothing.
pub unmap_cases :
    (m : Mem) (va : ℕ)
    → IsSafe m
    → IsSafe (unmap_frame m va)
      × (((get_frame_info m va ≡ none) × (unmap_frame m va ≡ m))
          ⊎ ((m.tables (pdx va) ≡ true)
              × (is_used (m.pages (page va)) ≡ true)
              × ((unmap_frame m va).pages ≡ put m.pages (page va) zero_entry)
              × IsDropped m (unmap_frame m va) (m.pages (page va)).frame))
unmap_cases m va s = elim (get_frame-cases m va) [
  | inl q ↦ (unmap-IsSafe m va s, inl (q, unmap-none m va q))
  | inr (q, t, u) ↦
      let k : ℕ = page va in
      let f : ℕ = (m.pages k).frame in
      let m1 : Mem = record m { pages = put m.pages k zero_entry } in
      let spare = cleared_spare m k 0 s (ap m.tables (pdx-page va) ∙ t) u in
      let d : IsDropped m (decrement_references m1 f) f =
        dropped_before m m1 (decrement_references m1 f) f
          (decrement-IsDropped m1 f (λ z. omega (arith, spare, z)) (s.fits f)) refl refl in
      (
        unmap-IsSafe m va s,
        inr (
          t,
          u,
          ap (λ x. x.pages) (unmap-some m va q) ∙ decrement-pages_kept m1 f,
          subst (λ x. IsDropped m x f) (sym (unmap-some m va q)) d,
        ),
      )
]
  where
    dropped_before :
        (m m1 m2 : Mem) (f : ℕ)
        → IsDropped m1 m2 f
        → m1.references ≡ m.references
        → m1.free_frames ≡ m.free_frames
        → IsDropped m m2 f
    dropped_before m m1 m2 f d r l = record {
      one_less = d.one_less ∙ ap (λ h. h f) r;
      others = λ g n. d.others g n ∙ ap (λ h. h g) r;
      last = λ e. d.last (ap (λ h. h f) r ∙ e) ∙ ap (λ x. f ∷ x) l;
      not_last = λ n. d.not_last (λ e. n (sym (ap (λ h. h f) r) ∙ e)) ∙ l;
    }
