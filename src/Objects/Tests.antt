-- ===== src/Objects/Tests.antt =====
-- The searches for objects at two semaphores, the second of which is empty.
use fos_simple_os.Prelude.{
  ◌≡◌, ◌≢◌, ◌^◌, ◌-◌, refl, true, false, some, get_elem?, List, [], ◌∷◌, codes, set, arith,
}
use fos_simple_os.Objects.{
  allocated, panic, max_objects, is_named, allocate_object, get_object_id, free_object,
}
use fos_simple_os.Objects.Found.{allocate_object-get_object_id, free_object-get_object_id}
use fos_simple_os.Objects.Semaphores.{
  Semaphore, semaphore_kind, semaphore_not_exists, allocate_semaphore_object,
  get_semaphore_object_id, free_semaphore_object,
}
use fos_simple_os.Objects.Shares.{
  Share, taken_share, freed_share, allocate_share_object, get_share_object_id, free_share_object,
}
use fos_simple_os.Memory.Tests.{one_page}

abbrev used : Semaphore
used = record { owner_id = 7; name = codes "a"; env_queue = []; value = 1; empty = false }

abbrev other : Semaphore
other = record { owner_id = 7; name = codes "b"; env_queue = []; value = 3; empty = false }

abbrev two : List Semaphore
two = used ∷ semaphore_kind.freed ∷ []

taken :
    allocate_object semaphore_kind two
    ≡ allocated (used ∷ semaphore_kind.taken semaphore_kind.freed ∷ []) 1
unfolding allocate_object
taken = refl

allocate_object-get_object_id_example :
    ((c : Semaphore) × (get_elem? two 1 ≡ some c) × (semaphore_kind.is_empty c ≡ true))
    × (used ∷ semaphore_kind.taken semaphore_kind.freed ∷ []
        ≡ set two 1 (semaphore_kind.taken semaphore_kind.freed))
    × (get_object_id semaphore_kind semaphore_not_exists 7
          (codes "b")
          (set (used ∷ semaphore_kind.taken semaphore_kind.freed ∷ []) 1 other)
        ≡ 1)
unfolding is_named
allocate_object-get_object_id_example =
    allocate_object-get_object_id semaphore_kind semaphore_not_exists 1 two _ _ other taken refl
      refl (refl, (refl, tt))

free_object-get_object_id_example :
    ((free_object semaphore_kind semaphore_not_exists 0 two).1 ≡ 0)
    × (get_object_id semaphore_kind semaphore_not_exists 7
          (codes "a")
          (free_object semaphore_kind semaphore_not_exists 0 two).0
        ≢ 0)
    × (allocate_object semaphore_kind (free_object semaphore_kind semaphore_not_exists 0 two).0
        ≢ panic)
unfolding max_objects
free_object-get_object_id_example =
    free_object-get_object_id semaphore_kind semaphore_not_exists 0 7 (codes "a") two (omega arith)
      (omega arith) (λ e. absurd (omega arith))

-- The functions of the two files at concrete objects.
semaphores_run :
    (allocate_semaphore_object two
      ≡ allocated (used ∷ semaphore_kind.taken semaphore_kind.freed ∷ []) 1)
    × (get_semaphore_object_id 7 (codes "a") two ≡ 0)
    × (get_semaphore_object_id 7 (codes "b") two ≡ semaphore_not_exists)
    × ((free_semaphore_object 100 two).1 ≡ semaphore_not_exists)
unfolding allocate_semaphore_object get_semaphore_object_id free_semaphore_object
semaphores_run = (refl, refl, refl, refl)

abbrev one_share : List Share
one_share = freed_share ∷ []

shares_run :
    (allocate_share_object one_share ≡ allocated (taken_share freed_share ∷ []) 0)
    × (get_share_object_id 0 [] one_share ≡ 2 ^ 32 - 16)
    × ((free_share_object 0 one_share one_page).0 ≡ (one_share, 0))
unfolding allocate_share_object get_share_object_id free_share_object
shares_run = (refl, refl, refl)
