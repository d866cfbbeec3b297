-- ===== src/Sched/Conserve.antt =====
-- The scheduler keeps every environment: where each one stands before and after a tick.
use fos_simple_os.Prelude.{
  ℕ, ◌+◌, ◌≡◌, ap, ◌∙◌, ◌≢◌, refl, List, arith, inl, inr, eq_or_ne, true, false,
}
use fos_simple_os.Sched.{
  Sched, EnvStatus, rr, done, enqueue, dequeue, env_run, dispatch, round_robin, fos_scheduler,
}
use fos_simple_os.Sched.Lists.{last_or_null}
use fos_simple_os.Sched.Counts.{one_if, count, count-unlink, count-enqueue, last-counts}

-- In how many places the scheduler holds an environment: its three queues and `curenv`.
abbrev pub places : Sched → ℕ → ℕ
places s x = count x s.new_queue + count x s.ready_queue + count x s.exit_queue + one_if s.curenv x

pub dequeue-counts :
    (x : ℕ) (q : List ℕ) → x ≢ 0 → count x (dequeue q).1 + one_if (dequeue q).0 x ≡ count x q
unfolding dequeue
dequeue-counts x q nz = elim (eq_or_ne (last_or_null q) 0) [
  | inl e ↦ ground arith
  | inr n ↦ ground (arith, count-unlink x (last_or_null q) q, last-counts q n)
]

-- The environment that a tick picks, and the ready queue that it leaves.
abbrev pub picked : Sched → ℕ
picked s = (dequeue (enqueue s.ready_queue s.curenv)).0

abbrev pub left_ready : Sched → List ℕ
left_ready s = (dequeue (enqueue s.ready_queue s.curenv)).1

abbrev before_dispatch : Sched → Sched
before_dispatch s = record s { started = true; ready_queue = left_ready s; clock = s.quantum }

round_robin-started :
    (s : Sched)
    → round_robin (record s { started = true }) ≡ dispatch (before_dispatch s) (picked s)
unfolding round_robin
round_robin-started s = refl

round_robin-dispatch :
    (s : Sched) → s.method ≡ rr → fos_scheduler s ≡ dispatch (before_dispatch s) (picked s)
unfolding fos_scheduler
round_robin-dispatch s m = ground arith ∙ round_robin-started s

-- What `dispatch` leaves, whether it runs an environment or falls back to the prompt.
pub record IsDispatched (s : Sched) (next : ℕ) (s' : Sched) : Type 0 where
  pub runs : s'.curenv ≡ next
  pub new_kept : s'.new_queue ≡ s.new_queue
  pub ready_kept : s'.ready_queue ≡ s.ready_queue
  pub exit_kept : s'.exit_queue ≡ s.exit_queue
  pub status_kept : (x : ℕ) → x ≢ next → s'.env_status x ≡ s.env_status x
  pub running : next ≢ 0 → s'.env_status next ≡ EnvStatus.runnable
  pub active : next ≢ 0 → s'.started ≡ s.started
  pub idle : next ≡ 0 → s'.started ≡ false
  pub method_kept : s'.method ≡ s.method

dispatch-IsDispatched :
    (s : Sched) (next : ℕ) → (s' : Sched) × (dispatch s next ≡ done s') × IsDispatched s next s'
unfolding dispatch
dispatch-IsDispatched s next = elim (eq_or_ne next 0) [
  | inl e ↦ (
    record s { curenv = 0; started = false },
    ground arith,
    record {
      runs = ground arith;
      new_kept = refl;
      ready_kept = refl;
      exit_kept = refl;
      status_kept = λ x h. refl;
      running = λ h. absurd (h e);
      active = λ h. absurd (h e);
      idle = λ h. refl;
      method_kept = refl;
    },
  )
  | inr n ↦ (
    env_run s next,
    ground arith,
    record {
      runs = ground arith;
      new_kept = ground arith;
      ready_kept = ground arith;
      exit_kept = ground arith;
      status_kept = λ x h. ground arith;
      running = λ h. ground arith;
      active = λ h. ground arith;
      idle = λ h. absurd (n h);
      method_kept = ground arith;
    },
  )
]

-- With round robin `fos_scheduler` always ends by dispatching the environment that it picks.
pub fos_scheduler-IsDispatched :
    (s : Sched)
    → s.method ≡ rr
    → (s' : Sched) × (fos_scheduler s ≡ done s') × IsDispatched (before_dispatch s) (picked s) s'
fos_scheduler-IsDispatched s m =
    let (s', e, d) = dispatch-IsDispatched (before_dispatch s) (picked s) in
    (s', round_robin-dispatch s m ∙ e, d)

left-counts :
    (s : Sched) (x : ℕ)
    → x ≢ 0
    → count x (left_ready s) + one_if (picked s) x ≡ count x s.ready_queue + one_if s.curenv x
left-counts s x nz = omega (
  arith,
  dequeue-counts x (enqueue s.ready_queue s.curenv) nz,
  count-enqueue x s.curenv s.ready_queue nz,
)

-- A tick of round robin ends, runs what it picks, and keeps an environment in as many places as it
-- was: it is not lost and not doubled.
pub fos_scheduler_conserves :
    (s : Sched) (x : ℕ)
    → s.method ≡ rr
    → x ≢ 0
    → (s' : Sched) × (fos_scheduler s ≡ done s')
      × (s'.curenv ≡ picked s)
      × (places s' x ≡ places s x)
fos_scheduler_conserves s x m nz =
    let (s', e, d) = fos_scheduler-IsDispatched s m in
    (
      s',
      e,
      d.runs,
      omega (
        arith,
        ap (count x) d.new_kept,
        ap (count x) d.ready_kept,
        ap (count x) d.exit_kept,
        ap (λ c. one_if c x) d.runs,
        left-counts s x nz,
      ),
    )
