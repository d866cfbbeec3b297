-- ===== src/Objects/Semaphores.antt =====
-- PROJECT_template/kern/semaphore_manager.c. createSemaphore, waitSemaphore and signalSemaphore only
-- panic.
use fos_simple_os.Prelude.{ℕ, ◌-◌, ◌^◌, refl, Bool, true, false, List, []}
use fos_simple_os.Objects.{Kind, Allocated, allocate_object, get_object_id, free_object}

-- `struct Semaphore`; `env_queue` holds the blocked environments.
pub record Semaphore : Type 0 where
  pub owner_id : ℕ
  pub name : List ℕ
  pub env_queue : List ℕ
  pub value : ℕ
  pub empty : Bool

abbrev pub taken_semaphore : Semaphore → Semaphore
taken_semaphore s = record s { empty = false }

abbrev pub freed_semaphore : Semaphore
freed_semaphore = record { owner_id = 0; name = []; env_queue = []; value = 0; empty = true }

abbrev pub semaphore_kind : Kind Semaphore
semaphore_kind = record {
  is_empty = λ s. s.empty;
  owner = λ s. s.owner_id;
  name = λ s. s.name;
  taken = taken_semaphore;
  freed = freed_semaphore;
  taken_full = λ s. refl;
  taken_owner = λ s. refl;
  taken_name = λ s. refl;
  freed_empty = refl;
}

-- E_SEMAPHORE_NOT_EXISTS, as a word
abbrev pub semaphore_not_exists : ℕ
semaphore_not_exists = 2 ^ 32 - 13

unfoldable pub allocate_semaphore_object : List Semaphore → Allocated Semaphore
unfolding allocate_object
allocate_semaphore_object = allocate_object semaphore_kind

unfoldable pub get_semaphore_object_id : ℕ → List ℕ → List Semaphore → ℕ
unfolding get_object_id
get_semaphore_object_id = get_object_id semaphore_kind semaphore_not_exists

unfoldable pub free_semaphore_object : ℕ → List Semaphore → List Semaphore × ℕ
unfolding free_object
free_semaphore_object = free_object semaphore_kind semaphore_not_exists
