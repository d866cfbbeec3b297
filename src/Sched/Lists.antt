-- ===== src/Sched/Lists.antt =====
-- Queues as lists of nodes: LIST_LAST, and LIST_REMOVE of a node that stands in the list.
use fos_simple_os.Prelude.{ℕ, List, [], ◌∷◌, if◌then◌else◌, ◌==◌}

-- `LIST_LAST`
unfoldable pub last_or_null : List ℕ → ℕ
last_or_null [] = 0
last_or_null (x ∷ []) = x
last_or_null (x ∷ y ∷ l) = last_or_null (y ∷ l)

-- `LIST_REMOVE`
unfoldable pub unlink : ℕ → List ℕ → List ℕ
unlink x [] = []
unlink x (y ∷ l) = if y == x then l else y ∷ unlink x l
