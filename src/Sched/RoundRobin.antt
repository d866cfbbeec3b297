-- ===== src/Sched/RoundRobin.antt =====
-- Round robin serves every waiting environment in its turn.
use fos_simple_os.Prelude.{
  ℕ, suc, zero, ◌+◌, ◌≡◌, ap, sym, ◌∙◌, ◌≢◌, ◌≤◌, refl, List, [], ◌∷◌, ◌++◌, arith, length,
  append_assoc, ==_refl,
}
use fos_simple_os.Sched.{
  Sched, rr, Outcome, done, panicked, null_read, enqueue, dequeue, fos_scheduler,
}
use fos_simple_os.Sched.Lists.{last_or_null, unlink}
use fos_simple_os.Sched.Counts.{one_if, count, count-append}
use fos_simple_os.Sched.Conserve.{fos_scheduler-IsDispatched}

-- `n` clock interrupts in a row.
pub ticks : ℕ → Sched → Outcome
ticks zero s = done s
ticks (suc n) s = elim (ticks n s) [
  | done s' ↦ fos_scheduler s'
  | panicked ↦ panicked
  | null_read ↦ null_read
]

last_or_null-snoc : (l : List ℕ) (x : ℕ) → last_or_null (l ++ x ∷ []) ≡ x
unfolding last_or_null
last_or_null-snoc [] x = refl
last_or_null-snoc (y ∷ []) x = refl
last_or_null-snoc (y ∷ z ∷ l) x = last_or_null-snoc (z ∷ l) x

unlink-snoc : (l : List ℕ) (x : ℕ) → count x l ≡ 0 → unlink x (l ++ x ∷ []) ≡ l
unfolding unlink count
unlink-snoc [] x h = ground arith
unlink-snoc (y ∷ l) x h = ground (arith, unlink-snoc l x)

dequeue-snoc : (l : List ℕ) (x : ℕ) → x ≢ 0 → count x l ≡ 0 → dequeue (l ++ x ∷ []) ≡ (x, l)
unfolding dequeue
dequeue-snoc l x nz h = ground (arith, last_or_null-snoc l x, unlink-snoc l x h)

-- A tick with environment `c` running and `x` at the tail of the ready queue.
tick-snoc :
    (s : Sched) (l : List ℕ) (x : ℕ)
    → s.method ≡ rr
    → s.curenv ≢ 0
    → s.ready_queue ≡ l ++ x ∷ []
    → x ≢ 0
    → count x (s.curenv ∷ l) ≡ 0
    → (s' : Sched) × (fos_scheduler s ≡ done s')
      × (s'.curenv ≡ x)
      × (s'.ready_queue ≡ s.curenv ∷ l)
      × (s'.method ≡ rr)
unfolding enqueue
tick-snoc s l x m nz e xz h =
    let (s', f, d) = fos_scheduler-IsDispatched s m in
    let queue : enqueue s.ready_queue s.curenv ≡ (s.curenv ∷ l) ++ x ∷ [] = ground arith in
    let taken = ap dequeue queue ∙ dequeue-snoc (s.curenv ∷ l) x xz h in
    (s', f, d.runs ∙ ap (λ r. r.0) taken, d.ready_kept ∙ ap (λ r. r.1) taken, d.method_kept ∙ m)

-- The state that a rotation of the queue leaves.
abbrev pub Rotated : Outcome → ℕ → List ℕ → Type 0
Rotated o e queue =
    (s' : Sched) × (o ≡ done s') × (s'.curenv ≡ e) × (s'.ready_queue ≡ queue) × (s'.method ≡ rr)

-- An environment in the queue is not NULL, if NULL is not, and stands there only once.
queued-ne-null : (q : List ℕ) (e : ℕ) (r : List ℕ) → count 0 (q ++ e ∷ r) ≡ 0 → e ≢ 0
unfolding count
queued-ne-null q e r z w =
    let one : one_if e 0 ≡ 1 = rw w in omega (arith, count-append 0 q (e ∷ r), one)

queued_once :
    (c : ℕ) (q : List ℕ) (e : ℕ) (r : List ℕ)
    → count e (c ∷ (q ++ e ∷ r)) ≤ 1
    → count e (r ++ c ∷ q) ≡ 0
unfolding count
queued_once c q e r h =
    let one : one_if e e ≡ 1 = rw (==_refl e) in
    omega (arith, count-append e q (e ∷ r), count-append e r (c ∷ q), one)

ticks-zero : (s : Sched) → ticks 0 s ≡ done s
unfolding ticks
ticks-zero s = refl

ticks-suc :
    (n : ℕ) (s : Sched) {s1 s2 : Sched}
    → ticks n s ≡ done s1
    → fos_scheduler s1 ≡ done s2
    → ticks (suc n) s ≡ done s2
unfolding ticks
ticks-suc n s g h = rw (g, ticks) h

turn :
    (s : Sched) (q : List ℕ) (e : ℕ) (r : List ℕ)
    → s.method ≡ rr
    → s.curenv ≢ 0
    → s.ready_queue ≡ q ++ e ∷ r
    → count 0 (q ++ e ∷ r) ≡ 0
    → ((x : ℕ) → count x (s.curenv ∷ (q ++ e ∷ r)) ≤ 1)
    → Rotated (ticks (length (e ∷ r)) s) e (r ++ s.curenv ∷ q)
turn s q e [] m nz f z once =
    let (s1, g, c1, r1, m1) =
      tick-snoc s q e m nz f (queued-ne-null q e [] z) (queued_once s.curenv q e [] (once e)) in
    (s1, ticks-suc 0 s (ticks-zero s) g, c1, r1, m1)
turn s q e (x ∷ r) m nz f z once =
    let shift = append_assoc q (e ∷ []) (x ∷ r) in
    let (s1, g, c1, r1, m1) =
      turn s (q ++ e ∷ []) x r m nz (f ∙ sym shift) (ap (count 0) shift ∙ z)
        (λ y. rw shift (once y)) in
    let absent : count e (s1.curenv ∷ (r ++ s.curenv ∷ q)) ≡ 0 =
      rw c1 (queued_once s.curenv q e (x ∷ r) (once e)) in
    let (s2, h, c2, r2, m2) =
      tick-snoc s1 (r ++ s.curenv ∷ q) e m1
        (λ w. queued-ne-null (q ++ e ∷ []) x r (ap (count 0) shift ∙ z) (sym c1 ∙ w))
        (r1 ∙ sym (append_assoc r (s.curenv ∷ q) (e ∷ []))) (queued-ne-null q e (x ∷ r) z) absent in
    (s2, ticks-suc (length (x ∷ r)) s g h, c2, r2 ∙ ap (λ t. t ∷ (r ++ s.curenv ∷ q)) c1, m2)

-- With `c` running and the ready queue `q ++ e ∷ r`, newest first, `e` runs after exactly as many
-- clock interrupts as it has environments before it, and one; those before it and `c` are queued
-- again in the order in which they ran. NULL is not queued and nothing is queued twice.
pub round_robin_turn :
    (s : Sched) (q : List ℕ) (e : ℕ) (r : List ℕ)
    → s.method ≡ rr
    → s.curenv ≢ 0
    → s.ready_queue ≡ q ++ e ∷ r
    → count 0 (q ++ e ∷ r) ≡ 0
    → ((x : ℕ) → count x (s.curenv ∷ (q ++ e ∷ r)) ≤ 1)
    → Rotated (ticks (length r + 1) s) e (r ++ s.curenv ∷ q)
round_robin_turn s q e r m nz f z once =
    let n : length r + 1 ≡ length (e ∷ r) = omega arith in rw n (turn s q e r m nz f z once)
