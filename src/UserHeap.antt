-- ===== src/UserHeap.antt =====
-- PROJECT_template/lib/uheap.c: `malloc` (best fit) and `free` of the user heap.
-- `spaces` is the used part of the global array, so its length is `arraySize`; the entries behind
-- it are never read. `calls` are the system calls made, latest first. `int` fields are 32-bit
-- patterns, and -1 is 2 ^ 32 - 1.
pub mod Arrays
pub mod Layout
pub mod Search
pub mod Malloc
pub mod Free
pub mod Merge
pub mod Release
pub mod Backed
pub mod Faults
mod Tests
use fos_simple_os.Prelude.{
  ℕ, suc, zero, ◌+◌, ◌-◌, ◌*◌, ◌/◌, ◌^◌, List, [], ◌∷◌, ◌++◌, Bool, true, false, ◌&&◌, ◌||◌, not,
  Option, none, some, if◌then◌else◌, ◌==◌, leb, slt, sle, u32, add32, sub32, round_up, page_size,
  length, get_elem?, set,
}

-- `struct info`
pub record Space : Type 0 where
  pub str_address : ℕ
  pub end_address : ℕ
  pub pages : ℕ
  pub is_free : Bool

-- `sys_allocateMem` and `sys_freeMem`, with the address and the size passed to the kernel.
pub data Call : Type 0 where
  allocate_mem : ℕ → ℕ → Call
  free_mem : ℕ → ℕ → Call

pub record Heap : Type 0 where
  pub spaces : List Space
  pub calls : List Call

-- What a call ends in: a return value, `panic`, or a write behind the end of the array `spaces`,
-- after which C promises nothing.
pub data Outcome : Type 0 where
  returned : ℕ → Heap → Outcome
  panicked : Outcome
  overrun : Outcome

abbrev pub user_heap_start : ℕ
user_heap_start = 0x80000000

abbrev pub user_heap_max : ℕ
user_heap_max = 0xA0000000

-- `numPages`
abbrev pub num_pages : ℕ
num_pages = (user_heap_max - user_heap_start) / page_size

abbrev pub whole : Space
whole = record {
  str_address = user_heap_start;
  end_address = user_heap_max;
  pages = num_pages;
  is_free = true;
}

-- What `free` writes to an entry that it merged away: `pages` is -1.
abbrev pub dead : Space
dead = record { str_address = 0; end_address = 0; pages = 2 ^ 32 - 1; is_free = false }

-- `if (arraySize == 0) { … }` at the head of `malloc`
pub set_up : List Space → List Space
set_up [] = whole ∷ []
set_up (sp ∷ l) = sp ∷ l

-- The tests of the search loop of `malloc` on one entry.
pub improves : ℕ → ℕ → Space → Bool
improves req min_diff sp = sp.is_free && (sle req sp.pages && slt (sub32 sp.pages req) min_diff)

-- The search loop from entry `i` on, with `min_diff` and `index` (-1 is `none`).
pub search : ℕ → ℕ → ℕ → Option ℕ → List Space → ℕ × Option ℕ
search req i min_diff index [] = (min_diff, index)
search req i min_diff index (sp ∷ l) =
    let hit : Bool = improves req min_diff sp in
    search req (i + 1) (if hit then sub32 sp.pages req else min_diff)
      (if hit then some i else index) l

abbrev pub req_pages : ℕ → ℕ
req_pages size = round_up size page_size / page_size

-- The block taken by `malloc` is `spaces[index]`, here `sp`.
pub place : Heap → List Space → ℕ → ℕ → Space → Outcome
place h spaces req index sp =
    let bytes : ℕ = u32 (req * page_size) in
    let call : Call = allocate_mem sp.str_address bytes in
    if req == sp.pages
    then returned sp.str_address (record {
      spaces = set spaces index (record sp { is_free = false });
      calls = call ∷ h.calls;
    })
    else (let new_end : ℕ = add32 sp.str_address bytes in
        let rest : Space = record {
          str_address = new_end;
          end_address = sp.end_address;
          pages = sub32 sp.pages req;
          is_free = true;
        } in
        let taken : Space = record {
          str_address = sp.str_address;
          end_address = new_end;
          pages = req;
          is_free = false;
        } in
        if leb num_pages (length spaces)
        then overrun
        else returned sp.str_address
            (record { spaces = set spaces index taken ++ rest ∷ []; calls = call ∷ h.calls }))

-- The end of `malloc`: NULL, or the block at `index`.
pub finish : Heap → List Space → ℕ → Option ℕ → Outcome
unfolding place
finish h spaces req none = returned 0 (record h { spaces = spaces })
finish h spaces req (some index) = elim (get_elem? spaces index) [
  | none ↦ overrun
  | some sp ↦ place h spaces req index sp
]

pub malloc : Heap → ℕ → Outcome
unfolding set_up search improves finish
malloc h size =
    let spaces : List Space = set_up h.spaces in
    let req : ℕ = req_pages size in finish h spaces req (search req 0 (num_pages + 1) none spaces).1

-- A `for` loop over `spaces` that stops at the first entry with the property: that entry.
pub find : (Space → Bool) → List Space → Option (ℕ × Space)
find p [] = none
find p (sp ∷ l) =
    let later : Option (ℕ × Space) = elim (find p l) [
      | none ↦ none
      | some (i, x) ↦ some (i + 1, x)
    ] in
    if p sp then some (0, sp) else later

-- The second loop of `free`: the freed entry goes into the free one that ends where it starts.
-- The result is the array, entry `index` read again, and whether a merge was made.
pub merge_left : List Space → ℕ → Space → List Space × Space × Bool
unfolding find
merge_left spaces index freed =
    elim (find (λ sp. sp.is_free && (freed.str_address == sp.end_address)) spaces) [
      | none ↦ (spaces, freed, false)
      | some (i, sp) ↦
          let merged : Space = record sp {
            end_address = freed.end_address;
            pages = add32 sp.pages freed.pages;
          } in
          (set (set spaces i merged) index dead, dead, true)
    ]

-- The third loop of `free`: into the free entry that starts where the freed one ends.
pub merge_right : List Space → ℕ → Space → List Space × Space × Bool
unfolding find
merge_right spaces index freed =
    elim (find (λ sp. sp.is_free && (freed.end_address == sp.str_address)) spaces) [
      | none ↦ (spaces, freed, false)
      | some (i, sp) ↦
          let merged : Space = record sp {
            str_address = freed.str_address;
            pages = add32 sp.pages freed.pages;
          } in
          (set (set spaces i merged) index dead, dead, true)
    ]

-- The loops behind the search, and `if (noMerge == 1)`.
pub release : List Space → ℕ → Space → List Space
unfolding merge_left merge_right
release spaces index freed =
    let (s1, freed1, left) = merge_left spaces index freed in
    let (s2, freed2, right) = merge_right s1 index freed1 in
    if left || right then s2 else set s2 index (record freed2 { is_free = true })

pub free : Heap → ℕ → Outcome
unfolding find release
free h va = elim (find (λ sp. sp.str_address == va) h.spaces) [
  | none ↦ panicked
  | some (index, freed) ↦ returned 0 (record {
    spaces = release h.spaces index freed;
    calls = free_mem va (u32 (freed.pages * page_size)) ∷ h.calls;
  })
]
