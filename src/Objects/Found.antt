-- ===== src/Objects/Found.antt =====
-- What the searches for objects find, after an allocation and after a removal.
use fos_simple_os.Prelude.{
  ℕ, zero, suc, ◌<◌, ◌≡◌, ◌≢◌, refl, ap, sym, subst, ◌∙◌, Bool, true, false, not, ◌&&◌, ==_refl,
  if◌then◌else◌, List, [], ◌∷◌, Option, none, some, ◌>>=◌, get_elem?, set, length,
  get_elem?-set_self, All, arith, leb, Bool-cases, inl, inr, ◌⊎◌, set-set, get_elem?-lt,
  All-get_elem?,
}
use mathlib.Core.Option.{some-injective}
use fos_simple_os.Strings.Text.Compare.{strcmp-same}
use fos_simple_os.Objects.{
  Kind, Allocated, allocated, panic, max_objects, first_empty, is_named, find_object, take_at,
  allocate_object, get_object_id, free_object,
}

absurd_bool : true ≢ false
absurd_bool e = cc

-- The index of the first element that passes a test.
first_with {ℓ} : {A : Type ℓ} → (A → Bool) → List A → Option ℕ
first_with test [] = none
first_with test (a ∷ objects) =
    if test a then some 0 else (first_with test objects >>= λ i. some (suc i))

module _ {A : Type 0} (test : A → Bool) where
  -- The elements before an index fail the test.
  abbrev pub NoneBefore : List A → ℕ → Type 0
  NoneBefore [] i = Unit
  NoneBefore (a ∷ objects) zero = Unit
  NoneBefore (a ∷ objects) (suc i) = (test a ≡ false) × NoneBefore objects i

  -- `o` is the index of the first element that passes the test.
  abbrev pub IsFirst : List A → Option ℕ → Type 0
  IsFirst objects none = All (λ a. test a ≡ false) objects
  IsFirst objects (some i) =
      (a : A) × (get_elem? objects i ≡ some a) × (test a ≡ true) × NoneBefore objects i

  IsFirst-next :
      (a : A) (objects : List A) (o : Option ℕ)
      → test a ≡ false
      → IsFirst objects o
      → IsFirst (a ∷ objects) (o >>= λ i. some (suc i))
  IsFirst-next a objects none u h = (u, h)
  IsFirst-next a objects (some i) u h = let (b, at, e, before) = h in (b, at, e, (u, before))

  first_with-IsFirst : (objects : List A) → IsFirst objects (first_with test objects)
  unfolding first_with
  first_with-IsFirst [] = tt
  first_with-IsFirst (a ∷ objects) = elim (Bool-cases (test a)) [
    | inl e ↦ rw e (a, refl, e, tt)
    | inr u ↦ rw u (IsFirst-next a objects _ u (first_with-IsFirst objects))
  ]

  -- After a write of an element that passes, in place of the first or where there was none.
  first_with-set_new :
      (objects : List A) (i : ℕ) (a : A)
      → All (λ b. test b ≡ false) objects
      → i < length objects
      → test a ≡ true
      → first_with test (set objects i a) ≡ some i
  unfolding first_with
  first_with-set_new [] i a others lt p = absurd (omega arith)
  first_with-set_new (b ∷ objects) zero a others lt p = rw p refl
  first_with-set_new (b ∷ objects) (suc i) a others lt p =
      let rest : first_with test (set objects i a) ≡ some i =
        first_with-set_new objects i a others.1 (omega arith) p in
      rw (others.0, rest) refl

  -- An index whose element fails is not found.
  first_with-ne :
      (objects : List A) (i : ℕ) (a : A)
      → get_elem? objects i ≡ some a
      → test a ≡ false
      → first_with test objects ≢ some i
  first_with-ne objects i a at e found =
      let h : IsFirst objects (some i) =
        subst (IsFirst objects) found (first_with-IsFirst objects) in
      let (b, at', p, before) = h in cc

module _ {A : Type 0} (k : Kind A) where
  abbrev pub is_object : ℕ → List ℕ → A → Bool
  is_object owner name a = not (k.is_empty a) && is_named k owner name a

  first_empty-first_with :
      (objects : List A) → first_empty k objects ≡ first_with k.is_empty objects
  unfolding first_empty first_with
  first_empty-first_with [] = refl
  first_empty-first_with (a ∷ objects) = rw (first_empty-first_with objects) refl

  find_object-first_with :
      (owner : ℕ) (name : List ℕ) (objects : List A)
      → find_object k owner name objects ≡ first_with (is_object owner name) objects
  unfolding find_object first_with
  find_object-first_with owner name [] = refl
  find_object-first_with owner name (a ∷ objects) = elim (Bool-cases (k.is_empty a)) [
    | inl e ↦ rw (e, find_object-first_with owner name objects) refl
    | inr u ↦ rw (u, find_object-first_with owner name objects) refl
  ]

  -- What an allocation comes to: the first empty object is taken and nothing else changes, or none is
  -- empty.
  abbrev pub AllocatedFirst : List A → Allocated A → Type 0
  AllocatedFirst objects (allocated objects1 i) =
      (a : A) × (get_elem? objects i ≡ some a)
      × (k.is_empty a ≡ true)
      × NoneBefore k.is_empty objects i
      × (objects1 ≡ set objects i (k.taken a))
  AllocatedFirst objects panic = All (λ a. k.is_empty a ≡ false) objects

  take_at-some :
      (objects : List A) (i : ℕ) (a : A)
      → get_elem? objects i ≡ some a
      → take_at k objects i ≡ set objects i (k.taken a)
  unfolding take_at
  take_at-some objects i a at = rw (take_at, at) refl

  -- An allocation takes the first empty object, with nothing else changed, and it panics exactly when
  -- no object is empty.
  pub allocate_object-AllocatedFirst :
      (objects : List A) → AllocatedFirst objects (allocate_object k objects)
  unfolding allocate_object
  allocate_object-AllocatedFirst objects = cases (first_empty k objects) (
      subst (IsFirst k.is_empty objects) (sym (first_empty-first_with objects))
        (first_with-IsFirst k.is_empty objects))
    where
      cases :
          (o : Option ℕ)
          → IsFirst k.is_empty objects o
          → AllocatedFirst objects
              (elim o [ none ↦ panic | some i ↦ allocated (take_at k objects i) i ])
      cases none h = h
      cases (some i) h =
          let (a, at, e, before) = h in (a, at, e, before, take_at-some objects i a at)

  find_object-IsFirst :
      (owner : ℕ) (name : List ℕ) (objects : List A)
      → IsFirst (is_object owner name) objects (find_object k owner name objects)
  find_object-IsFirst owner name objects =
      subst (IsFirst (is_object owner name) objects)
        (sym (find_object-first_with owner name objects))
        (first_with-IsFirst (is_object owner name) objects)

  -- The ID of an owner and a name is the index of the first used object with both, or it is the error
  -- and there is none.
  pub get_object_id-IsFirst :
      (missing owner : ℕ) (name : List ℕ) (objects : List A)
      → IsFirst (is_object owner name) objects (some (get_object_id k missing owner name objects))
        ⊎ ((get_object_id k missing owner name objects ≡ missing)
            × IsFirst (is_object owner name) objects none)
  unfolding get_object_id
  get_object_id-IsFirst missing owner name objects =
      cases (find_object k owner name objects) (find_object-IsFirst owner name objects)
    where
      cases :
          (o : Option ℕ)
          → IsFirst (is_object owner name) objects o
          → IsFirst (is_object owner name) objects (some (elim o [ none ↦ missing | some i ↦ i ]))
            ⊎ (((elim o [ none ↦ missing | some i ↦ i ]) ≡ missing)
                × IsFirst (is_object owner name) objects none)
      cases none h = inr (refl, h)
      cases (some i) h = inl h

  -- A used object has its own owner and name.
  is_object-own : (a : A) → k.is_empty a ≡ false → is_object (k.owner a) (k.name a) a ≡ true
  unfolding is_named
  is_object-own a u = rw (u, ==_refl (k.owner a), strcmp-same (k.name a)) refl

  is_object-freed : (owner : ℕ) (name : List ℕ) → is_object owner name k.freed ≡ false
  is_object-freed owner name = rw k.freed_empty refl

  -- The slot `b` that an allocation leaves, and an object `a` written over it that takes over the
  -- field `empty` and has an owner and a name that no used object had: the slot was empty before and no
  -- other has changed, and `a` is found under the index that the allocation returned.
  pub allocate_object-get_object_id :
      (missing i : ℕ) (objects objects1 : List A) (b a : A)
      → allocate_object k objects ≡ allocated objects1 i
      → get_elem? objects1 i ≡ some b
      → k.is_empty a ≡ k.is_empty b
      → All (λ c. is_object (k.owner a) (k.name a) c ≡ false) objects
      → ((c : A) × (get_elem? objects i ≡ some c) × (k.is_empty c ≡ true))
        × (objects1 ≡ set objects i b)
        × (get_object_id k missing (k.owner a) (k.name a) (set objects1 i a) ≡ i)
  unfolding get_object_id
  allocate_object-get_object_id missing i objects objects1 b a e slot u others =
      let h : AllocatedFirst objects (allocated objects1 i) =
        subst (AllocatedFirst objects) e (allocate_object-AllocatedFirst objects) in
      let (c, at, empty, before, same) = h in
      let lt : i < length objects = get_elem?-lt objects i c at in
      let taken : k.taken c ≡ b = some-injective (k.taken c) b (
        sym (get_elem?-set_self objects i (k.taken c) lt)
        ∙ ap (λ l. get_elem? l i) (sym same)
        ∙ slot) in
      let used : k.is_empty a ≡ false = u ∙ ap k.is_empty (sym taken) ∙ k.taken_full c in
      let found : find_object k (k.owner a) (k.name a) (set objects1 i a) ≡ some i =
        find_object-first_with (k.owner a) (k.name a) (set objects1 i a)
        ∙ ap (λ l. first_with (is_object (k.owner a) (k.name a)) (set l i a)) same
        ∙ ap (first_with (is_object (k.owner a) (k.name a))) (set-set objects i (k.taken c) a)
        ∙ first_with-set_new (is_object (k.owner a) (k.name a)) objects i a others lt
            (is_object-own a used) in
      ((c, at, empty), same ∙ ap (set objects i) taken, rw (get_object_id, found) refl)

  -- An object that was freed is not found under any owner and name, the removal returns 0, and the
  -- next allocation does not panic.
  pub free_object-get_object_id :
      (missing i owner : ℕ) (name : List ℕ) (objects : List A)
      → i < length objects
      → i < max_objects
      → missing ≢ i
      → ((free_object k missing i objects).1 ≡ 0)
        × (get_object_id k missing owner name (free_object k missing i objects).0 ≢ i)
        × (allocate_object k (free_object k missing i objects).0 ≢ panic)
  unfolding free_object max_objects
  free_object-get_object_id missing i owner name objects lt small ne =
      let inside : leb 100 i ≡ false = ground arith in
      let freed : get_elem? (set objects i k.freed) i ≡ some k.freed =
        get_elem?-set_self objects i k.freed lt in
      rw inside (
        refl,
        unfound owner name (set objects i k.freed) freed,
        (λ e. full (set objects i k.freed) freed (
            subst (AllocatedFirst (set objects i k.freed)) e
              (allocate_object-AllocatedFirst (set objects i k.freed)))),
      )
    where
      unfound :
          (owner : ℕ) (name : List ℕ) (objects : List A)
          → get_elem? objects i ≡ some k.freed
          → get_object_id k missing owner name objects ≢ i
      unfound owner name objects at e = elim (get_object_id-IsFirst missing owner name objects) [
        | inl h ↦
            let (b, at', p, before) = h in
            absurd_bool (
              sym p
              ∙ ap (is_object owner name)
                  (some-injective b k.freed (sym at' ∙ ap (get_elem? objects) e ∙ at))
              ∙ is_object-freed owner name)
        | inr h ↦ ne (sym h.0 ∙ e)
      ]

      full :
          (objects : List A)
          → get_elem? objects i ≡ some k.freed
          → All (λ a. k.is_empty a ≡ false) objects
          → ⊥
      full objects at h =
          absurd_bool
            (sym k.freed_empty ∙ All-get_elem? (λ a. k.is_empty a ≡ false) objects i k.freed h at)
