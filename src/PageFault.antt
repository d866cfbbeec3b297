-- ===== src/PageFault.antt =====
-- page_fault_handler of PROJECT_template/kern/trap.c: page replacement with an active list and a
-- second list, an approximation of LRU. The lists are in the order of their nodes, and a node that
-- moves from list to list is its contents. allocate_frame panics when no frame is free and map_frame
-- returns 0, so the branches on E_NO_MEM are never taken. `none` is a kernel panic, or the fault of
-- the kernel at a NULL node.
pub mod Steps
pub mod Lru
pub mod Sound
pub mod Served
pub mod Replaced
pub mod Handler
pub mod Illegal
pub mod Safety
mod Tests
use fos_simple_os.Prelude.{
  ℕ, zero, suc, ◌+◌, ◌-◌, ◌*◌, ◌/◌, ◌%◌, ◌^◌, List, [], ◌∷◌, Bool, true, false, not, ◌&&◌, ◌||◌,
  if◌then◌else◌, ◌==◌, ltb, leb, u32, Option, none, some, ◌>>=◌, round_down, round_up, length,
}
use fos_simple_os.Memory.{
  Mem, Perm, allocate_frame, map_frame, unmap_frame, get_frame_info, pt_set_page_permissions,
  pt_get_page_permissions, user_page, user_top, only_present, no_perm,
}
use fos_simple_os.Memory.PageFile.{pf_read_env_page, pf_add_empty_env_page, pf_update_env_page}

pub record WorkingSetElement : Type 0 where
  pub virtual_address : ℕ
  pub empty : Bool

pub record Env : Type 0 where
  pub mem : Mem
  pub page_list : List WorkingSetElement  -- PageWorkingSetList
  pub active : List WorkingSetElement
  pub second : List WorkingSetElement
  pub active_size : ℕ  -- ActiveListSize
  pub second_size : ℕ  -- SecondListSize

-- USTACKTOP, and USTACKBOTTOM: a WorkingSetElement has 16 bytes, and the product wraps.
abbrev pub user_stack_top : ℕ
user_stack_top = user_top - 2 * 4096

abbrev pub user_stack_bottom : ℕ
user_stack_bottom = round_up (2684354560 + u32 (16 * user_top) / 4096) 4096

-- LIST_LAST and LIST_REMOVE of it: the rest, and the last node.
pub take_last {ℓ} : {A : Type ℓ} → List A → Option (List A × A)
take_last [] = none
take_last (x ∷ l) = elim (take_last l) [ none ↦ some ([], x) | some (rest, y) ↦ some (x ∷ rest, y) ]

-- The walk for the element of a page and LIST_REMOVE of it: the rest, and the element.
pub take_page : ℕ → List WorkingSetElement → Option (List WorkingSetElement × WorkingSetElement)
take_page va [] = none
take_page va (x ∷ l) =
    let later : Option (List WorkingSetElement × WorkingSetElement) = elim (take_page va l) [
      | none ↦ none
      | some (rest, y) ↦ some (x ∷ rest, y)
    ] in
    if x.virtual_address == va then some (l, x) else later

-- A page that is not in the page file: the stack grows, or the program has made an illegal access.
pub new_stack_page : Mem → ℕ → ℕ → Option Mem
new_stack_page m va fault_va =
    if ltb fault_va user_stack_top && leb user_stack_bottom fault_va
    then (do (m1, added) ← pf_add_empty_env_page m va; some m1)
    else none

-- From allocate_frame on: `fault` has been taken from its list and goes to the head of the active
-- list.
pub load : Env → WorkingSetElement → ℕ → Option Env
load e fault fault_va = do
  (f, m1) ← allocate_frame e.mem
  m2 ← map_frame m1 f fault.virtual_address user_page
  (m3, there) ← pf_read_env_page m2 fault.virtual_address
  m4 ← if there then some m3 else new_stack_page m3 fault.virtual_address fault_va
  some (record e { mem = m4; active = fault ∷ e.active })

-- The tail of the active list goes to the head of the second list and is no longer present.
pub demote : Env → Option Env
demote e = do
  (rest, tail) ← take_last e.active
  m1 ← pt_set_page_permissions e.mem tail.virtual_address no_perm only_present
  some (record e { mem = m1; active = rest; second = tail ∷ e.second })

-- The fault is in the second list.
pub promote : Env → List WorkingSetElement → WorkingSetElement → Option Env
promote e rest fault = do
  m1 ← pt_set_page_permissions e.mem fault.virtual_address only_present no_perm
  e1 ← demote (record e { mem = m1; second = rest })
  some (record e1 { active = fault ∷ e1.active })

-- The page of an element is written back if it is modified, and unmapped.
pub evict : Mem → ℕ → Option Mem
evict m va = do
  m1 ←
      if (pt_get_page_permissions m va).modified
      then elim (get_frame_info m va) [ none ↦ none | some f ↦ pf_update_env_page m va f ]
      else some m
  some (unmap_frame m1 va)

pub replace_active : Env → ℕ → Option Env
replace_active e fault_va = do
  (rest, tail) ← take_last e.active
  m1 ← evict e.mem tail.virtual_address
  load (record e { mem = m1; active = rest }) (record tail { virtual_address = fault_va }) fault_va

pub replace_second : Env → ℕ → Option Env
replace_second e fault_va = do
  (rest, tail) ← take_last e.second
  m1 ← evict e.mem tail.virtual_address
  e1 ← demote (record e { mem = m1; second = rest })
  load e1 (record tail { virtual_address = fault_va }) fault_va

-- A new element is taken from the tail of PageWorkingSetList.
pub place : Env → ℕ → Option Env
place e fault_va = do
  (rest, fault) ← take_last e.page_list
  load (record e { page_list = rest }) (record fault { virtual_address = fault_va }) fault_va

-- PageWorkingSetList is not empty.
pub fault_with_room : Env → ℕ → Option Env
fault_with_room e va =
    if length e.active == e.active_size
    then elim (take_page va e.second) [
      | some (rest, fault) ↦ promote e rest fault
      | none ↦ do e1 ← demote e; place e1 va
    ]
    else place e va

-- PageWorkingSetList is empty.
pub fault_when_full : Env → ℕ → Option Env
fault_when_full e va = elim (take_page va e.second) [
  | some (rest, fault) ↦ promote e rest fault
  | none ↦ if e.second_size == 0 then replace_active e va else replace_second e va
]

pub page_fault_handler : Env → ℕ → Option Env
page_fault_handler e fault_va =
    let va : ℕ = round_down fault_va 4096 in
    if length e.page_list == 0 then fault_when_full e va else fault_with_room e va
