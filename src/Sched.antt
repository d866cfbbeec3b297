-- ===== src/Sched.antt =====
-- PROJECT_template/kern/sched.c, with env_run, env_exit, allocate_environment and free_environment
-- of kern/user_environment.c: the queues of environments and the round-robin scheduler.
-- USE_KHEAP is 0, so there is one ready queue. An `Env` is its address and NULL is 0. A queue is the
-- list of its nodes from `lh_first` on, which the proofs about Queue.antt allow. What only prints,
-- the run-time checks chk1 and chk2, the page directory register and the clock's hardware are left
-- out; `cleanup_buffers`, which sched_insert_exit calls with buffering on, touches no queue here.
pub mod Lists
pub mod Counts
pub mod Conserve
pub mod RoundRobin
pub mod Moves
pub mod Sweep
pub mod Exit
mod Tests
use fos_simple_os.Prelude.{
  ℕ, suc, zero, ◌+◌, List, [], ◌∷◌, Bool, true, false, if◌then◌else◌, ◌==◌, add32, Option, none,
  some,
}
use Lists.{last_or_null, unlink}

-- `env_status`
pub data EnvStatus : Type 0 where
  free ready runnable blocked new exit unknown : EnvStatus

-- `scheduler_method`
pub data Method : Type 0 where
  rr mlfq : Method

pub record Sched : Type 0 where
  pub env_id : ℕ → ℕ
  pub env_status : ℕ → EnvStatus
  pub env_runs : ℕ → ℕ
  pub new_queue : List ℕ
  pub ready_queue : List ℕ
  pub exit_queue : List ℕ
  pub free_list : List ℕ
  pub curenv : ℕ
  pub started : Bool
  pub method : Method
  pub quantum : ℕ  -- quantums[0]
  pub clock : ℕ  -- the interval last given to the clock

-- How a kernel function ends. `fos_scheduler` does not return: `done` then holds the state in which
-- it enters user code or the command prompt. `null_read` is a read through a NULL `curenv`.
pub data Outcome : Type 0 where
  done : Sched → Outcome
  panicked : Outcome
  null_read : Outcome

abbrev pub set_status : Sched → ℕ → EnvStatus → Sched
set_status s e st = record s { env_status = λ p. if e == p then st else s.env_status p }

-- `enqueue`, `dequeue` and `find_env_in_queue`
pub enqueue : List ℕ → ℕ → List ℕ
enqueue queue env = if env == 0 then queue else env ∷ queue

pub dequeue : List ℕ → ℕ × List ℕ
dequeue queue =
    let item : ℕ = last_or_null queue in (item, if item == 0 then queue else unlink item queue)

pub find_env_in_queue : (ℕ → ℕ) → List ℕ → ℕ → ℕ
find_env_in_queue id [] want = 0
find_env_in_queue id (e ∷ queue) want = if id e == want then e else find_env_in_queue id queue want

pub env_run : Sched → ℕ → Sched
env_run s e =
    let s1 : Sched = if s.curenv == e then s else record s {
      curenv = e;
      env_runs = λ p. if e == p then add32 (s.env_runs p) 1 else s.env_runs p;
    } in
    set_status s1 s1.curenv runnable

-- The end of `fos_scheduler`: run the next environment, or fall back to the command prompt.
pub dispatch : Sched → ℕ → Outcome
unfolding env_run
dispatch s next =
    if next == 0 then done (record s { curenv = 0; started = false }) else done (env_run s next)

pub round_robin : Sched → Outcome
round_robin s =
    let queue : List ℕ = enqueue s.ready_queue s.curenv in
    let (next, rest) = dequeue queue in
    dispatch (record s { ready_queue = rest; clock = s.quantum }) next

-- `fos_scheduler_MLFQ` panics.
pub fos_scheduler : Sched → Outcome
fos_scheduler s =
    let s1 : Sched = record s { started = true } in
    elim s.method [ rr ↦ round_robin s1 | mlfq ↦ panicked ]

-- `clock_interrupt_handler`
pub clock_interrupt : Sched → Outcome
clock_interrupt s = fos_scheduler s

pub sched_init_rr : Sched → ℕ → Sched
sched_init_rr s quantum = record s {
  started = false;
  method = rr;
  quantum = quantum;
  clock = quantum;
  ready_queue = [];
}

pub sched_init : Sched → Sched
unfolding sched_init_rr
sched_init s = record (sched_init_rr s 10) { new_queue = []; exit_queue = [] }

pub sched_insert_ready : Sched → ℕ → Sched
unfolding enqueue
sched_insert_ready s env =
    if env == 0
    then s
    else record (set_status s env ready) { ready_queue = enqueue s.ready_queue env }

pub sched_remove_ready : Sched → ℕ → Sched
unfolding find_env_in_queue
sched_remove_ready s env =
    if env == 0
    then s
    else (if find_env_in_queue s.env_id s.ready_queue (s.env_id env) == 0
        then s
        else set_status (record s { ready_queue = unlink env s.ready_queue }) env unknown)

pub sched_insert_new : Sched → ℕ → Sched
unfolding enqueue
sched_insert_new s env =
    if env == 0 then s else record (set_status s env new) { new_queue = enqueue s.new_queue env }

pub sched_remove_new : Sched → ℕ → Sched
sched_remove_new s env =
    if env == 0 then s else set_status (record s { new_queue = unlink env s.new_queue }) env unknown

pub sched_insert_exit : Sched → ℕ → Sched
unfolding enqueue
sched_insert_exit s env =
    if env == 0 then s else record (set_status s env exit) { exit_queue = enqueue s.exit_queue env }

pub sched_remove_exit : Sched → ℕ → Sched
sched_remove_exit s env =
    if env == 0
    then s
    else set_status (record s { exit_queue = unlink env s.exit_queue }) env unknown

-- `sched_new_env`
pub sched_new_env : Sched → ℕ → Sched
unfolding sched_insert_new
sched_new_env s e = if e == 0 then s else sched_insert_new s e

-- `if (scheduler_status == SCH_STOPPED) fos_scheduler();`
pub start_if_stopped : Sched → Outcome
start_if_stopped s = if s.started then done s else fos_scheduler s

-- The body of the walk of `sched_run_all`.
pub move_to_ready : Sched → ℕ → Sched
unfolding sched_remove_new sched_insert_ready
move_to_ready s env = sched_insert_ready (sched_remove_new s env) env

-- LIST_FOREACH over a queue whose nodes the body may move: the nodes are those at its start.
pub for_each : (Sched → ℕ → Sched) → List ℕ → Sched → Sched
for_each body [] s = s
for_each body (e ∷ queue) s = for_each body queue (body s e)

pub sched_run_all : Sched → Outcome
unfolding for_each move_to_ready start_if_stopped
sched_run_all s = start_if_stopped (for_each move_to_ready s.new_queue s)

pub sched_run_env : Sched → ℕ → Outcome
unfolding find_env_in_queue move_to_ready start_if_stopped
sched_run_env s id =
    let env : ℕ = find_env_in_queue s.env_id s.new_queue id in
    if env == 0 then done s else start_if_stopped (move_to_ready s env)

-- The body of the walk of `sched_exit_all_ready_envs`.
pub move_to_exit : Sched → ℕ → Sched
unfolding sched_insert_exit
move_to_exit s env = sched_insert_exit (record s { ready_queue = unlink env s.ready_queue }) env

pub sched_exit_all_ready_envs : Sched → Sched
unfolding for_each move_to_exit
sched_exit_all_ready_envs s = for_each move_to_exit s.ready_queue s

-- The first walk of `sched_exit_env`, over the NEW queue. It has no `break`: it removes every node
-- with the id, and leaves `ptr_env` NULL. The flag is `found`.
pub remove_new_by_id : ℕ → List ℕ → Sched → Sched × Bool
unfolding sched_remove_new
remove_new_by_id id [] s = (s, false)
remove_new_by_id id (e ∷ queue) s =
    let hit : Bool = s.env_id e == id in
    let (s', found) = remove_new_by_id id queue (if hit then sched_remove_new s e else s) in
    (s', if hit then true else found)

-- The end of `sched_exit_env`, with what `ptr_env` holds.
pub exit_found : Sched → ℕ → ℕ → Outcome
unfolding sched_insert_exit
exit_found s ptr_env id =
    let s1 : Sched = sched_insert_exit s ptr_env in
    if s1.curenv == 0
    then null_read
    else (if s1.env_id s1.curenv == id then fos_scheduler (record s1 { curenv = 0 }) else done s1)

-- The searches of `sched_exit_env` behind the NEW queue: the READY queue, then `curenv`.
pub exit_elsewhere : Sched → ℕ → Outcome
unfolding find_env_in_queue exit_found
exit_elsewhere s id =
    let env : ℕ = find_env_in_queue s.env_id s.ready_queue id in
    if env == 0
    then (if s.curenv == 0
        then null_read
        else (if s.env_id s.curenv == id then exit_found s s.curenv id else done s))
    else exit_found (record s { ready_queue = unlink env s.ready_queue }) env id

pub sched_exit_env : Sched → ℕ → Outcome
unfolding remove_new_by_id exit_elsewhere exit_found
sched_exit_env s id =
    let (s1, found) = remove_new_by_id id s.new_queue s in
    if found then exit_found s1 0 id else exit_elsewhere s1 id

-- `env_exit`. When `sched_exit_env` has called the scheduler, it does not come back.
pub env_exit : Sched → Outcome
unfolding sched_exit_env
env_exit s = if s.curenv == 0 then null_read else sched_exit_env s (s.env_id s.curenv)

-- `allocate_environment`: the environment, or NULL with E_NO_FREE_ENV. The list keeps it.
pub allocate_environment : Sched → Sched × ℕ
allocate_environment s = elim s.free_list [ [] ↦ (s, 0) | e ∷ rest ↦ (set_status s e unknown, e) ]

-- `free_environment`, as far as the fields kept here go.
pub free_environment : Sched → ℕ → Sched
free_environment s e = record s {
  env_id = λ p. if e == p then 0 else s.env_id p;
  env_runs = λ p. if e == p then 0 else s.env_runs p;
  env_status = λ p. if e == p then free else s.env_status p;
  free_list = e ∷ s.free_list;
}
