-- ===== src/Objects.antt =====
-- The arrays of named objects of kern/semaphore_manager.c and kern/shared_memory_manager.c: the search
-- for a free object, the search by owner and name and the removal, which both files write out for
-- their own type. The kernel is built with USE_KHEAP 0.
pub mod Found
pub mod Semaphores
pub mod Shares
mod Tests
use fos_simple_os.Prelude.{
  ℕ, zero, suc, ◌+◌, Bool, true, false, ◌&&◌, if◌then◌else◌, ◌==◌, leb, List, [], ◌∷◌, Option, none,
  some, ◌>>=◌, get_elem?, set, ◌≡◌,
}
use fos_simple_os.Strings.Text.{strcmp}

-- What the two kinds of objects share: the test of `empty`, the fields that a search compares, the
-- object with `empty` cleared, and the one that is left when it is freed.
pub record Kind (A : Type 0) : Type 0 where
  pub is_empty : A → Bool
  pub owner : A → ℕ
  pub name : A → List ℕ
  pub taken : A → A
  pub freed : A
  pub taken_full : (a : A) → is_empty (taken a) ≡ false
  pub taken_owner : (a : A) → owner (taken a) ≡ owner a
  pub taken_name : (a : A) → name (taken a) ≡ name a
  pub freed_empty : is_empty freed ≡ true

pub max_objects : ℕ
max_objects = 100

-- The objects, and the index of the one that was allocated; or the panic with a full array.
pub data Allocated (A : Type 0) : Type 0 where
  allocated : List A → ℕ → Allocated A
  panic : Allocated A

module _ {A : Type 0} (k : Kind A) where
  -- The loop for a free object.
  pub first_empty : List A → Option ℕ
  first_empty [] = none
  first_empty (a ∷ objects) =
      let rest : Option ℕ = first_empty objects in
      if k.is_empty a then some 0 else (rest >>= λ i. some (suc i))

  pub is_named : ℕ → List ℕ → A → Bool
  unfolding strcmp
  is_named owner name a = k.owner a == owner && strcmp name (k.name a) == 0

  -- The loop for an object with an owner and a name.
  pub find_object : ℕ → List ℕ → List A → Option ℕ
  unfolding is_named
  find_object owner name [] = none
  find_object owner name (a ∷ objects) =
      let rest : Option ℕ = find_object owner name objects >>= λ i. some (suc i) in
      if k.is_empty a then rest else if is_named owner name a then some 0 else rest

  pub take_at : List A → ℕ → List A
  take_at objects i = elim (get_elem? objects i) [
    | none ↦ objects
    | some a ↦ set objects i (k.taken a)
  ]

  -- `allocate_..._object`
  pub allocate_object : List A → Allocated A
  unfolding first_empty take_at
  allocate_object objects = elim (first_empty objects) [
    | none ↦ panic
    | some i ↦ allocated (take_at objects i) i
  ]

  -- `get_..._object_id`; `missing` is the error as a word.
  pub get_object_id : ℕ → ℕ → List ℕ → List A → ℕ
  unfolding find_object
  get_object_id missing owner name objects = elim (find_object owner name objects) [
    | none ↦ missing
    | some i ↦ i
  ]

  -- `free_..._object`: the objects and the result.
  pub free_object : ℕ → ℕ → List A → List A × ℕ
  unfolding max_objects
  free_object missing i objects =
      if leb max_objects i then (objects, missing) else (set objects i k.freed, 0)
