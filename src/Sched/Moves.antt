-- ===== src/Sched/Moves.antt =====
-- What sched_run_all and sched_exit_env move between the queues.
use fos_simple_os.Prelude.{
  ℕ, ◌≡◌, ap, sym, ◌∙◌, ◌≢◌, refl, List, [], ◌∷◌, ◌++◌, arith, All, append_assoc,
}
use mathlib.Core.List.{reverse, reverse-cons}
use fos_simple_os.Sched.{
  Sched, EnvStatus, for_each, move_to_ready, sched_run_all, start_if_stopped, move_to_exit,
  sched_exit_all_ready_envs,
}
use fos_simple_os.Sched.Lists.{unlink}

-- What moving all of the NEW queue leaves, the scheduler aside.
pub record IsMoved (s s' : Sched) (l : List ℕ) : Type 0 where
  pub no_new : s'.new_queue ≡ []
  pub moved : s'.ready_queue ≡ reverse l ++ s.ready_queue
  pub exit_kept : s'.exit_queue ≡ s.exit_queue
  pub current : s'.curenv ≡ s.curenv
  pub state_kept : s'.started ≡ s.started
  pub method_kept : s'.method ≡ s.method

move_one :
    (s : Sched) (e : ℕ) (l : List ℕ)
    → e ≢ 0
    → s.new_queue ≡ e ∷ l
    → let t = move_to_ready s e in
      (t.new_queue ≡ l)
      × (t.ready_queue ≡ e ∷ s.ready_queue)
      × (t.exit_queue ≡ s.exit_queue)
      × (t.curenv ≡ s.curenv)
      × (t.started ≡ s.started)
      × (t.method ≡ s.method)
unfolding move_to_ready unlink
move_one s e l nz q = ground arith

for_each-move_to_ready :
    (l : List ℕ) (s : Sched)
    → All (λ e. e ≢ 0) l
    → s.new_queue ≡ l
    → IsMoved s (for_each move_to_ready l s) l
unfolding for_each
for_each-move_to_ready [] s nz q = record {
  no_new = q;
  moved = refl;
  exit_kept = refl;
  current = refl;
  state_kept = refl;
  method_kept = refl;
}
for_each-move_to_ready (e ∷ l) s nz q =
    let (n, r, x, c, t, m) = move_one s e l nz.0 q in
    let ih = for_each-move_to_ready l (move_to_ready s e) nz.1 n in
    record {
      no_new = ih.no_new;
      moved =
          ih.moved
          ∙ ap (λ k. reverse l ++ k) r
          ∙ sym (append_assoc (reverse l) (e ∷ []) s.ready_queue)
          ∙ ap (λ k. k ++ s.ready_queue) (sym (reverse-cons e l));
      exit_kept = ih.exit_kept ∙ x;
      current = ih.current ∙ c;
      state_kept = ih.state_kept ∙ t;
      method_kept = ih.method_kept ∙ m;
    }

-- sched_run_all moves the whole NEW queue, none of whose nodes is NULL, before the ready ones: the
-- newest of them is served first. Then it starts the scheduler if that is stopped.
pub sched_run_all_moves :
    (s : Sched)
    → All (λ e. e ≢ 0) s.new_queue
    → (s' : Sched) × (sched_run_all s ≡ start_if_stopped s') × IsMoved s s' s.new_queue
unfolding sched_run_all
sched_run_all_moves s nz =
    (for_each move_to_ready s.new_queue s, refl, for_each-move_to_ready s.new_queue s nz refl)

-- What moving all of the READY queue to the EXIT queue leaves.
pub record IsExitedAll (s s' : Sched) (l : List ℕ) : Type 0 where
  pub no_ready : s'.ready_queue ≡ []
  pub moved : s'.exit_queue ≡ reverse l ++ s.exit_queue
  pub new_kept : s'.new_queue ≡ s.new_queue
  pub current : s'.curenv ≡ s.curenv
  pub marked : All (λ e. s'.env_status e ≡ EnvStatus.exit) l

exit_one :
    (s : Sched) (e : ℕ) (l : List ℕ)
    → e ≢ 0
    → s.ready_queue ≡ e ∷ l
    → let t = move_to_exit s e in
      (t.ready_queue ≡ l)
      × (t.exit_queue ≡ e ∷ s.exit_queue)
      × (t.new_queue ≡ s.new_queue)
      × (t.curenv ≡ s.curenv)
      × (t.env_status e ≡ EnvStatus.exit)
unfolding move_to_exit unlink
exit_one s e l nz q = ground arith

exit_one-status :
    (s : Sched) (e x : ℕ)
    → s.env_status x ≡ EnvStatus.exit
    → (move_to_exit s e).env_status x ≡ EnvStatus.exit
unfolding move_to_exit
exit_one-status s e x h = ground arith

for_each-status :
    (l : List ℕ) (s : Sched) (x : ℕ)
    → s.env_status x ≡ EnvStatus.exit
    → (for_each move_to_exit l s).env_status x ≡ EnvStatus.exit
unfolding for_each
for_each-status [] s x h = h
for_each-status (e ∷ l) s x h = for_each-status l (move_to_exit s e) x (exit_one-status s e x h)

for_each-move_to_exit :
    (l : List ℕ) (s : Sched)
    → All (λ e. e ≢ 0) l
    → s.ready_queue ≡ l
    → IsExitedAll s (for_each move_to_exit l s) l
unfolding for_each
for_each-move_to_exit [] s nz q = record {
  no_ready = q;
  moved = refl;
  new_kept = refl;
  current = refl;
  marked = tt;
}
for_each-move_to_exit (e ∷ l) s nz q =
    let (r, x, n, c, m) = exit_one s e l nz.0 q in
    let ih = for_each-move_to_exit l (move_to_exit s e) nz.1 r in
    record {
      no_ready = ih.no_ready;
      moved =
          ih.moved
          ∙ ap (λ k. reverse l ++ k) x
          ∙ sym (append_assoc (reverse l) (e ∷ []) s.exit_queue)
          ∙ ap (λ k. k ++ s.exit_queue) (sym (reverse-cons e l));
      new_kept = ih.new_kept ∙ n;
      current = ih.current ∙ c;
      marked = (for_each-status l (move_to_exit s e) e m, ih.marked);
    }

-- sched_exit_all_ready_envs moves the whole READY queue, none of whose nodes is NULL, before the
-- exited ones with status ENV_EXIT, and leaves the NEW queue and the running environment.
pub sched_exit_all_ready_envs-moves :
    (s : Sched)
    → All (λ e. e ≢ 0) s.ready_queue
    → IsExitedAll s (sched_exit_all_ready_envs s) s.ready_queue
unfolding sched_exit_all_ready_envs
sched_exit_all_ready_envs-moves s nz = for_each-move_to_exit s.ready_queue s nz refl
