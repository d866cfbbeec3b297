-- ===== src/UserHeap/Search.antt =====
-- The search loop of `malloc` finds a best fit.
use fos_simple_os.Prelude.{
  ℕ, ◌+◌, ◌-◌, ◌^◌, ◌<◌, ◌≤◌, ◌≡◌, refl, subst, ◌⊎◌, inl, inr, List, [], ◌∷◌, ◌++◌, true, false,
  Option, none, some, arith, length, length-append, get_elem?, All, All-append, All-map,
  append_assoc, append-nil, get_elem?-append, get_elem?-middle, Bool-cases, sub32,
}
use fos_simple_os.UserHeap.{Space, num_pages, improves, search}
use fos_simple_os.UserHeap.Layout.{IsSpace}

-- A free entry with enough pages.
abbrev pub Fits : ℕ → Space → Type 0
Fits req sp = (sp.is_free ≡ true) × (req ≤ sp.pages)

-- Entry `j` is `x`, which fits, and no fitting entry has fewer pages.
pub record IsBestFit (req : ℕ) (l : List Space) (j : ℕ) (x : Space) : Type 0 where
  pub at : get_elem? l j ≡ some x
  pub fits : Fits req x
  pub least : All (λ sp. Fits req sp → x.pages ≤ sp.pages) l

abbrev pub NoFit : ℕ → List Space → Type 0
NoFit req = All (λ sp. ¬ Fits req sp)

-- What `min_diff` and `index` say of the entries already searched.
abbrev pub Searched : ℕ → List Space → ℕ → Option ℕ → Type 0
Searched req l min_diff index =
    ((min_diff ≡ num_pages + 1) × (index ≡ none) × NoFit req l)
    ⊎ ((j : ℕ) × (x : Space) × (index ≡ some j)
        × IsBestFit req l j x
        × (min_diff ≡ x.pages - req)
        × (x.pages ≤ num_pages))

improves-true :
    (req m : ℕ) (sp : Space)
    → IsSpace sp
    → req < 2 ^ 31
    → m ≤ num_pages + 1
    → improves req m sp ≡ true
    → Fits req sp
      × (sp.pages - req < m)
      × (sub32 sp.pages req ≡ sp.pages - req)
      × (sp.pages ≤ num_pages)
unfolding improves
improves-true req m sp (inl d) r b h = ground arith
improves-true req m sp (inr d) r b h = ground arith

improves-false :
    (req m : ℕ) (sp : Space)
    → IsSpace sp
    → req < 2 ^ 31
    → m ≤ num_pages + 1
    → improves req m sp ≡ false
    → Fits req sp
    → m ≤ sp.pages - req
unfolding improves
improves-false req m sp (inl d) r b h f = ground arith
improves-false req m sp (inr d) r b h f = ground arith

pages-le : (sp : Space) → IsSpace sp → sp.is_free ≡ true → sp.pages ≤ num_pages
pages-le sp (inl d) f = ground arith
pages-le sp (inr d) f = omega (arith, d.above, d.below, d.sized)

-- One round of the loop on an entry that becomes the best fit so far.
search_hit :
    (req m : ℕ) (index : Option ℕ) (pre : List Space) (sp : Space)
    → IsSpace sp
    → req < 2 ^ 31
    → m ≤ num_pages + 1
    → Searched req pre m index
    → improves req m sp ≡ true
    → Searched req (pre ++ sp ∷ []) (sub32 sp.pages req) (some (length pre))
search_hit req m index pre sp d r b v t =
    let k = improves-true req m sp d r b t in
    inr (
      length pre,
      sp,
      refl,
      record {
        at = get_elem?-middle pre [] sp;
        fits = k.0;
        least =
            All-append (λ y. Fits req y → sp.pages ≤ y.pages) pre (sp ∷ []) (before k v)
              ((λ _. omega arith), tt);
      },
      k.2,
      k.3,
    )
  where
    before :
        Fits req sp
          × (sp.pages - req < m)
          × (sub32 sp.pages req ≡ sp.pages - req)
          × (sp.pages ≤ num_pages)
        → Searched req pre m index
        → All (λ y. Fits req y → sp.pages ≤ y.pages) pre
    before k (inl (e, i, n)) = All-map _ _ pre (λ y none_fits fits. absurd (none_fits fits)) n
    before k (inr (j, x, i, best, e, c)) =
        All-map _ _ pre (λ y least fits. omega (arith, least fits, k.1, k.0.1, e, best.fits.1))
          best.least

search_miss :
    (req m : ℕ) (index : Option ℕ) (pre : List Space) (sp : Space)
    → IsSpace sp
    → req < 2 ^ 31
    → m ≤ num_pages + 1
    → Searched req pre m index
    → improves req m sp ≡ false
    → Searched req (pre ++ sp ∷ []) m index
search_miss req m index pre sp d r b (inl (e, i, n)) t = inl (
  e,
  i,
  All-append _ pre (sp ∷ []) n
      ((λ fits. omega (arith, improves-false req m sp d r b t fits, pages-le sp d fits.0, e)), tt),
)
search_miss req m index pre sp d r b (inr (j, x, i, best, e, c)) t = inr (
  j,
  x,
  i,
  record {
    at = get_elem?-append pre (sp ∷ []) j x best.at;
    fits = best.fits;
    least =
        All-append (λ y. Fits req y → x.pages ≤ y.pages) pre (sp ∷ []) best.least
          (
            (λ fits. omega (arith, improves-false req m sp d r b t fits, best.fits.1, e, fits.1)),
            tt,
          );
  },
  e,
  c,
)

Searched-le :
    (req m : ℕ) (index : Option ℕ) (l : List Space) → Searched req l m index → m ≤ num_pages + 1
Searched-le req m index l (inl (e, i, n)) = omega (arith, e)
Searched-le req m index l (inr (j, x, i, best, e, c)) = omega (arith, e, c)

search-Searched :
    (req i m : ℕ) (index : Option ℕ) (pre l : List Space)
    → All IsSpace l
    → req < 2 ^ 31
    → i ≡ length pre
    → Searched req pre m index
    → let (m', index') = search req i m index l in Searched req (pre ++ l) m' index'
unfolding search
search-Searched req i m index pre [] d r e v = rw append-nil v
search-Searched req i m index pre (sp ∷ l) d r e v =
    let shift = append_assoc pre (sp ∷ []) l in
    let len : i + 1 ≡ length (pre ++ sp ∷ []) = omega (arith, length-append pre (sp ∷ [])) in
    let b = Searched-le req m index pre v in
    elim (Bool-cases (improves req m sp)) [
      | inl t ↦
          rw (t, search)
            (subst
              (λ k.
                let (m', index') = search req (i + 1) (sub32 sp.pages req) (some i) l in
                Searched req k m' index')
              shift
              (search-Searched req (i + 1) (sub32 sp.pages req) (some i) (pre ++ sp ∷ []) l d.1 r
                len (rw e (search_hit req m index pre sp d.0 r b v t))))
      | inr t ↦
          rw (t, search)
            (subst
              (λ k. let (m', index') = search req (i + 1) m index l in Searched req k m' index')
              shift
              (search-Searched req (i + 1) m index (pre ++ sp ∷ []) l d.1 r len
                (search_miss req m index pre sp d.0 r b v t)))
    ]

-- What the search of `malloc` returns: no index if nothing fits, else a best fit.
abbrev pub Chosen : ℕ → List Space → Option ℕ → Type 0
Chosen req l index =
    ((index ≡ none) × NoFit req l)
    ⊎ ((j : ℕ) × (x : Space) × (index ≡ some j) × IsBestFit req l j x)

pub search-Chosen :
    (req : ℕ) (l : List Space)
    → All IsSpace l
    → req < 2 ^ 31
    → Chosen req l (search req 0 (num_pages + 1) none l).1
search-Chosen req l d r =
    chosen (search-Searched req 0 (num_pages + 1) none [] l d r refl (inl (refl, refl, tt)))
  where
    chosen : {m : ℕ} {index : Option ℕ} → Searched req l m index → Chosen req l index
    chosen (inl (e, i, n)) = inl (i, n)
    chosen (inr (j, x, i, best, e, c)) = inr (j, x, i, best)
