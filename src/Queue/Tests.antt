-- ===== src/Queue/Tests.antt =====
-- A list of two nodes built by the macros, and the theorems about it.
use fos_simple_os.Prelude.{◌≡◌, refl, [], ◌∷◌, arith}
use fos_simple_os.Queue.{
  Lists, init, insert_head, insert_tail, insert_after, insert_before, remove, concat, for_all,
}
use fos_simple_os.Queue.Seg.{Holds}
use fos_simple_os.Queue.Insert.{init-Holds, insert_head-Holds, insert_tail-Holds}
use fos_simple_os.Queue.Remove.{remove-Holds}
use fos_simple_os.Queue.Walk.{for_all-remove}

abbrev raw : Lists
raw = record { next = λ p. 0; prev = λ p. 0; first = 9; last = 9; size = 9 }

two : Lists
unfolding init insert_head insert_tail
two = insert_tail (insert_head (init raw) 16) 24

two-Holds : Holds two (16 ∷ 24 ∷ [])
unfolding two
two-Holds =
    insert_tail-Holds (insert_head (init raw) 16) (16 ∷ []) 24
      (insert_head-Holds (init raw) [] 16 (init-Holds raw) (λ e. omega (arith, e)) tt)
      (λ e. omega (arith, e)) ((λ e. omega (arith, e)), tt)

-- The links that the macros wrote.
two_links : (two.first ≡ 16) × (two.next 16 ≡ 24) × (two.prev 24 ≡ 16) × (two.last ≡ 24)
unfolding two
two_links = (refl, refl, refl, refl)

remove-Holds_example : Holds (remove two 24) (16 ∷ [])
remove-Holds_example = remove-Holds two (16 ∷ []) [] 24 two-Holds

for_all-remove_example :
    ((for_all 5 remove two).1 ≡ 16 ∷ 24 ∷ []) × Holds (for_all 5 remove two).0 []
for_all-remove_example = for_all-remove 5 two (16 ∷ 24 ∷ []) two-Holds (omega arith)

insert_runs :
    ((for_all 5 remove (insert_after two 16 32)).1 ≡ 16 ∷ 32 ∷ 24 ∷ [])
    × ((for_all 5 remove (insert_before two 16 32)).1 ≡ 32 ∷ 16 ∷ 24 ∷ [])
    × ((insert_after two 24 32).last ≡ 32)
unfolding for_all remove insert_after insert_before two
insert_runs = (refl, refl, refl)

-- A list of one node, appended: the nodes are there, and the size is that of the first list.
concat_run :
    ((for_all 5 remove (concat two (record { first = 40; last = 40; size = 1 })).0).1
      ≡ 16 ∷ 24 ∷ 40 ∷ [])
    × ((concat two (record { first = 40; last = 40; size = 1 })).0.size ≡ 2)
unfolding for_all remove concat two
concat_run = (refl, refl)
