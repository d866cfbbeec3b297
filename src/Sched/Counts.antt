-- ===== src/Sched/Counts.antt =====
-- How often a node stands in a queue, and what the queue operations do to it.
use fos_simple_os.Prelude.{
  ℕ, ◌+◌, ◌≡◌, ◌≢◌, ◌<◌, refl, List, [], ◌∷◌, ◌++◌, arith, if◌then◌else◌, ◌==◌,
}
use fos_simple_os.Sched.{enqueue, find_env_in_queue}
use fos_simple_os.Sched.Lists.{last_or_null, unlink}

abbrev pub one_if : ℕ → ℕ → ℕ
one_if x y = if x == y then 1 else 0

unfoldable pub count : ℕ → List ℕ → ℕ
count x [] = 0
count x (y ∷ l) = one_if y x + count x l

pub count-append : (x : ℕ) (l r : List ℕ) → count x (l ++ r) ≡ count x l + count x r
unfolding count
count-append x [] r = omega arith
count-append x (y ∷ l) r = omega (arith, count-append x l r)

pub count-unlink :
    (x y : ℕ) (l : List ℕ) → 0 < count y l → count x (unlink y l) + one_if y x ≡ count x l
unfolding count unlink
count-unlink x y [] h = absurd (omega arith)
count-unlink x y (z ∷ l) h = ground (arith, count-unlink x y l)

pub count-enqueue : (x e : ℕ) (l : List ℕ) → x ≢ 0 → count x (enqueue l e) ≡ one_if e x + count x l
unfolding count enqueue
count-enqueue x e l nz = ground arith

pub last-counts : (l : List ℕ) → last_or_null l ≢ 0 → 0 < count (last_or_null l) l
unfolding count last_or_null
last-counts [] h = absurd (h refl)
last-counts (x ∷ []) h = ground arith
last-counts (x ∷ y ∷ l) h = omega (arith, last-counts (y ∷ l) h)

pub find-counts :
    (id : ℕ → ℕ) (l : List ℕ) (want : ℕ)
    → find_env_in_queue id l want ≢ 0
    → (0 < count (find_env_in_queue id l want) l) × (id (find_env_in_queue id l want) ≡ want)
unfolding count find_env_in_queue
find-counts id [] want h = absurd (h refl)
find-counts id (x ∷ l) want h = ground (arith, find-counts id l want)
