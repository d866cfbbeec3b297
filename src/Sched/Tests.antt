-- ===== src/Sched/Tests.antt =====
-- The scheduler's theorems at concrete states.
use fos_simple_os.Prelude.{ℕ, ◌+◌, ◌≡◌, ◌≢◌, ◌≤◌, refl, [], ◌∷◌, arith, true, false, All}
use fos_simple_os.Sched.{
  Sched, EnvStatus, rr, done, dequeue, fos_scheduler, sched_run_all, start_if_stopped,
  sched_exit_env, env_exit, find_env_in_queue,
}
use fos_simple_os.Sched.Lists.{last_or_null}
use fos_simple_os.Sched.Counts.{count}
use fos_simple_os.Sched.Conserve.{places, picked, fos_scheduler_conserves}
use fos_simple_os.Sched.RoundRobin.{ticks, Rotated, round_robin_turn}
use fos_simple_os.Sched.Moves.{IsMoved, sched_run_all_moves}
use fos_simple_os.Sched.Sweep.{has_id, others}
use fos_simple_os.Sched.Exit.{exit_from_new, env_exit_hands_over}

-- Environment 10 runs, 20 and 30 are ready, 30 before 20, and 40 and 50 are new.
abbrev ids : ℕ → ℕ
ids p = p + 1

abbrev running : Sched
running = record {
  env_id = ids;
  env_status = λ p. EnvStatus.runnable;
  env_runs = λ p. 1;
  new_queue = 40 ∷ 50 ∷ [];
  ready_queue = 20 ∷ 30 ∷ [];
  exit_queue = [];
  free_list = [];
  curenv = 10;
  started = true;
  method = rr;
  quantum = 10;
  clock = 10;
}

fos_scheduler_conserves_example :
    (s' : Sched) × (fos_scheduler running ≡ done s')
    × (s'.curenv ≡ picked running)
    × (places s' 20 ≡ places running 20)
fos_scheduler_conserves_example =
    fos_scheduler_conserves running 20 refl (λ e. absurd (omega arith))

few : (x : ℕ) → count x (10 ∷ 20 ∷ 30 ∷ []) ≤ 1
unfolding count
few x = ground arith

no_null : count 0 (20 ∷ 30 ∷ []) ≡ 0
unfolding count
no_null = refl

round_robin_turn_example : Rotated (ticks 2 running) 20 (30 ∷ 10 ∷ [])
round_robin_turn_example =
    round_robin_turn running [] 20 (30 ∷ []) refl (λ e. absurd (omega arith)) refl no_null few

sched_run_all_moves_example :
    (s' : Sched) × (sched_run_all running ≡ start_if_stopped s') × IsMoved running s' (40 ∷ 50 ∷ [])
sched_run_all_moves_example =
    sched_run_all_moves running (λ e. absurd (omega arith), (λ e. absurd (omega arith), tt))

new-NotNull : All {A = ℕ} (λ x. x ≢ 0) (40 ∷ 50 ∷ [])
new-NotNull = (λ e. absurd (omega arith), (λ e. absurd (omega arith), tt))

has_id-new : has_id ids 51 (40 ∷ 50 ∷ []) ≡ true
unfolding has_id
has_id-new = refl

exit_from_new_example :
    (s' : Sched) × (sched_exit_env running 51 ≡ done s')
    × (s'.new_queue ≡ others ids 51 (40 ∷ 50 ∷ []))
    × (s'.ready_queue ≡ 20 ∷ 30 ∷ [])
    × (s'.exit_queue ≡ [])
    × (s'.curenv ≡ 10)
exit_from_new_example =
    exit_from_new running 51 new-NotNull has_id-new (λ e. absurd (omega arith))
      (λ e. absurd (omega arith))

has_id-ready : has_id ids 31 (40 ∷ 50 ∷ []) ≡ false
unfolding has_id
has_id-ready = refl

has_id-current : has_id ids 11 (40 ∷ 50 ∷ []) ≡ false
unfolding has_id
has_id-current = refl

find-current : find_env_in_queue ids (20 ∷ 30 ∷ []) 11 ≡ 0
unfolding find_env_in_queue
find-current = refl

env_exit_hands_over_example :
    (s' : Sched) × (env_exit running ≡ done s')
    × (s'.exit_queue ≡ 10 ∷ [])
    × (s'.curenv ≡ last_or_null (20 ∷ 30 ∷ []))
    × (s'.ready_queue ≡ (dequeue (20 ∷ 30 ∷ [])).1)
    × (s'.new_queue ≡ 40 ∷ 50 ∷ [])
    × (s'.env_status 10 ≡ EnvStatus.exit)
env_exit_hands_over_example =
    env_exit_hands_over running refl new-NotNull
      (λ e. absurd (omega arith), (λ e. absurd (omega arith), tt)) has_id-current find-current
      (λ e. absurd (omega arith))
