-- ===== src/Objects/Shares.antt =====
-- PROJECT_template/kern/shared_memory_manager.c, with clear_frames_storage of kern/memory_manager.c.
-- createSharedObject, getSizeOfSharedObject, getSharedObject and freeSharedObject only panic.
use fos_simple_os.Prelude.{
  ℕ, zero, suc, ◌-◌, ◌/◌, ◌^◌, refl, Bool, true, false, List, [], ◌∷◌, none, some, get_elem?,
  if◌then◌else◌, ◌==◌, leb,
}
use fos_simple_os.Memory.{Mem, free_frame}
use fos_simple_os.Objects.{
  Kind, Allocated, max_objects, allocate_object, get_object_id, free_object,
}

-- `struct Share`; `frames_storage` has 1024 entries.
pub record Share : Type 0 where
  pub owner_id : ℕ
  pub name : List ℕ
  pub size : ℕ
  pub references : ℕ
  pub is_writable : ℕ
  pub empty : Bool
  pub frames_storage : List ℕ

abbrev pub zeros : ℕ → List ℕ
zeros zero = []
zeros (suc n) = 0 ∷ zeros n

-- `empty` is cleared, and the storage set to 0.
abbrev pub taken_share : Share → Share
taken_share s = record s { empty = false; frames_storage = zeros 1024 }

abbrev pub freed_share : Share
freed_share = record {
  owner_id = 0;
  name = [];
  size = 0;
  references = 0;
  is_writable = 0;
  empty = true;
  frames_storage = zeros 1024;
}

abbrev pub share_kind : Kind Share
share_kind = record {
  is_empty = λ s. s.empty;
  owner = λ s. s.owner_id;
  name = λ s. s.name;
  taken = taken_share;
  freed = freed_share;
  taken_full = λ s. refl;
  taken_owner = λ s. refl;
  taken_name = λ s. refl;
  freed_empty = refl;
}

-- E_SHARED_MEM_NOT_EXISTS, as a word
abbrev pub share_not_exists : ℕ
share_not_exists = 2 ^ 32 - 16

unfoldable pub allocate_share_object : List Share → Allocated Share
unfolding allocate_object
allocate_share_object = allocate_object share_kind

unfoldable pub get_share_object_id : ℕ → List ℕ → List Share → ℕ
unfolding get_object_id
get_share_object_id = get_object_id share_kind share_not_exists

-- `clear_frames_storage`: the frames of the entries that are not 0; the frames exist. What stands in
-- the storage afterwards is 0.
pub clear_frames_storage : List ℕ → Mem → Mem
unfolding free_frame
clear_frames_storage [] m = m
clear_frames_storage (entry ∷ storage) m =
    clear_frames_storage storage (if entry == 0 then m else free_frame m (entry / 4096))

-- `free_share_object`: the objects, the result and the memory.
unfoldable pub free_share_object : ℕ → List Share → Mem → (List Share × ℕ) × Mem
unfolding clear_frames_storage free_object max_objects
free_share_object i objects m = (
  free_object share_kind share_not_exists i objects,
  if leb max_objects i then m else elim (get_elem? objects i) [
    | none ↦ m
    | some s ↦ clear_frames_storage s.frames_storage m
  ],
)
