-- ===== src/Queue.antt =====
-- PROJECT_template/inc/queue.h: the doubly linked lists that every queue of the kernel is made of.
-- A pointer to a node is its address, a number, and NULL is 0. `next` and `prev` are the `le_next`
-- and `le_prev` fields of all nodes; a list's head is its `lh_first`, `lh_last` and `size`. Each
-- macro is the sequence of its assignments, in the source's order.
mod Once
pub mod Seg
pub mod Insert
pub mod Remove
pub mod Walk
mod Tests
use fos_simple_os.Prelude.{
  ℕ, suc, zero, ◌+◌, List, [], ◌∷◌, Bool, true, false, if◌then◌else◌, ◌==◌, add32, sub32, ◌||◌, not,
}

-- `LIST_ENTRY` of every node, and one `LIST_HEAD`.
pub record Lists : Type 0 where
  pub next : ℕ → ℕ
  pub prev : ℕ → ℕ
  pub first : ℕ
  pub last : ℕ
  pub size : ℕ

abbrev pub null : ℕ
null = 0

abbrev pub update : (ℕ → ℕ) → ℕ → ℕ → ℕ → ℕ
update f p v q = if p == q then v else f q

-- `LIST_INIT`
pub init : Lists → Lists
init s = record s { first = null; last = null; size = 0 }

-- `LIST_EMPTY`
pub is_empty : Lists → Bool
is_empty s = s.first == null

-- `LIST_INSERT_HEAD`
pub insert_head : Lists → ℕ → Lists
insert_head s elm =
    let s1 : Lists = record s { next = update s.next elm s.first } in
    let s2 : Lists =
      if s1.next elm == null
      then record s1 { last = elm }
      else record s1 { prev = update s1.prev s1.first elm } in
    let s3 : Lists = record s2 { first = elm } in
    record s3 { prev = update s3.prev elm null; size = add32 s3.size 1 }

-- `LIST_INSERT_TAIL`
pub insert_tail : Lists → ℕ → Lists
insert_tail s elm =
    let s1 : Lists = record s { prev = update s.prev elm s.last } in
    let s2 : Lists =
      if s1.prev elm == null
      then record s1 { first = elm }
      else record s1 { next = update s1.next s1.last elm } in
    let s3 : Lists = record s2 { last = elm } in
    record s3 { next = update s3.next elm null; size = add32 s3.size 1 }

-- `LIST_REMOVE`
pub remove : Lists → ℕ → Lists
remove s elm =
    let s1 : Lists =
      if s.next elm == null
      then record s { last = s.prev elm }
      else record s { prev = update s.prev (s.next elm) (s.prev elm) } in
    let s2 : Lists =
      if s1.prev elm == null
      then record s1 { first = s1.next elm }
      else record s1 { next = update s1.next (s1.prev elm) (s1.next elm) } in
    record s2 {
      next = update s2.next elm null;
      prev = update s2.prev elm null;
      size = sub32 s2.size 1;
    }

-- `LIST_INSERT_AFTER`
unfoldable pub insert_after : Lists → ℕ → ℕ → Lists
insert_after s listelm elm =
    let s1 : Lists = record s { next = update s.next elm (s.next listelm) } in
    let s2 : Lists =
      if s1.next elm == null
      then s1
      else record s1 { prev = update s1.prev (s1.next listelm) elm } in
    let s3 : Lists = record s2 { next = update s2.next listelm elm } in
    let s4 : Lists = record s3 { prev = update s3.prev elm listelm } in
    let s5 : Lists = if s4.next elm == null then record s4 { last = elm } else s4 in
    record s5 { size = add32 s5.size 1 }

-- `LIST_INSERT_BEFORE`
unfoldable pub insert_before : Lists → ℕ → ℕ → Lists
insert_before s listelm elm =
    let s1 : Lists = record s { prev = update s.prev elm (s.prev listelm) } in
    let s2 : Lists = record s1 { next = update s1.next elm listelm } in
    let s3 : Lists =
      if s2.prev listelm == null
      then record s2 { first = elm }
      else record s2 { next = update s2.next (s2.prev listelm) elm } in
    record s3 { prev = update s3.prev listelm elm; size = add32 s3.size 1 }

-- A second `LIST_HEAD` over the same nodes.
pub record Head : Type 0 where
  pub first : ℕ
  pub last : ℕ
  pub size : ℕ

-- The last assignment of `LIST_CONCAT`
abbrev pub add_size : Lists × Head → Lists × Head
add_size (s, h) = (record s { size = add32 s.size h.size }, h)

-- `LIST_CONCAT`: both lists.
unfoldable pub concat : Lists → Head → Lists × Head
concat s h = add_size (
    if s.first == null
    then (record s { first = h.first; last = h.last }, h)
    else if h.first == null
    then (s, h)
    else (
      record s {
        next = update s.next s.last h.first;
        prev = update s.prev h.first s.last;
        last = h.last;
      },
      record { first = null; last = null; size = 0 },
    ))

-- `LIST_FOREACH` with a body that returns the new lists. The saved `___ptr_next` of the element is
-- read before the body runs. Fuel bounds the rounds; the second part is what was visited.
pub foreach : ℕ → (Lists → ℕ → Lists) → ℕ → Lists → Lists × List ℕ
foreach zero body var s = (s, [])
foreach (suc fuel) body var s =
    let saved : ℕ = if var == null then null else s.next var in
    elim (not (saved == null) || not (var == null)) [
      | true ↦ let (s', rest) = foreach fuel body saved (body s var) in (s', var ∷ rest)
      | false ↦ (s, [])
    ]

-- A walk over the whole list.
pub for_all : ℕ → (Lists → ℕ → Lists) → Lists → Lists × List ℕ
unfolding foreach
for_all fuel body s = foreach fuel body s.first s
