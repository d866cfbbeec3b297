-- ===== src/Sched/Exit.antt =====
-- What sched_exit_env and env_exit do with an environment, by where it stands.
use fos_simple_os.Prelude.{
  ℕ, ◌≡◌, ap, sym, ◌∙◌, ◌≢◌, refl, List, [], ◌∷◌, ◌++◌, arith, true, false, ==_ne, eq_or_ne, inl,
  inr, All,
}
use fos_simple_os.Sched.{
  Sched, EnvStatus, rr, done, remove_new_by_id, exit_found, exit_elsewhere, sched_exit_env,
  sched_insert_exit, find_env_in_queue, fos_scheduler, env_exit, enqueue, dequeue,
}
use fos_simple_os.Sched.Lists.{unlink, last_or_null}
use fos_simple_os.Sched.Sweep.{
  others, has_id, sweep, other_id, others_none, current_id, unlink-middle,
}
use fos_simple_os.Sched.Conserve.{picked, fos_scheduler-IsDispatched}

exit_found-other :
    (s : Sched) (e id : ℕ)
    → s.curenv ≢ 0
    → s.env_id s.curenv ≢ id
    → exit_found s e id ≡ done (sched_insert_exit s e)
unfolding exit_found sched_insert_exit
exit_found-other s e id nz h = ground arith

exit_env-found :
    (s : Sched) (id : ℕ)
    → (remove_new_by_id id s.new_queue s).1 ≡ true
    → sched_exit_env s id ≡ exit_found (remove_new_by_id id s.new_queue s).0 0 id
unfolding sched_exit_env
exit_env-found s id h = rw h

exit_env-elsewhere :
    (s : Sched) (id : ℕ)
    → (remove_new_by_id id s.new_queue s).1 ≡ false
    → sched_exit_env s id ≡ exit_elsewhere (remove_new_by_id id s.new_queue s).0 id
unfolding sched_exit_env
exit_env-elsewhere s id h = rw h

insert_exit-null : (s : Sched) → sched_insert_exit s 0 ≡ s
unfolding sched_insert_exit
insert_exit-null s = refl

-- sched_exit_env of an environment that stands in the NEW queue, while another one runs: it leaves
-- the NEW queue, but no queue gets it, the EXIT queue neither.
pub exit_from_new :
    (s : Sched) (id : ℕ)
    → All (λ e. e ≢ 0) s.new_queue
    → has_id s.env_id id s.new_queue ≡ true
    → s.curenv ≢ 0
    → s.env_id s.curenv ≢ id
    → (s' : Sched) × (sched_exit_env s id ≡ done s')
      × (s'.new_queue ≡ others s.env_id id s.new_queue)
      × (s'.ready_queue ≡ s.ready_queue)
      × (s'.exit_queue ≡ s.exit_queue)
      × (s'.curenv ≡ s.curenv)
exit_from_new s id nz h c other =
    let (sw, found) = sweep id s.new_queue [] s nz tt refl in
    let s' : Sched = (remove_new_by_id id s.new_queue s).0 in
    (
      s',
      exit_env-found s id (found ∙ h)
          ∙ exit_found-other s' 0 id (λ z. c (sym sw.current ∙ z))
              (λ z. other (sym (current_id sw) ∙ z))
          ∙ ap done (insert_exit-null s'),
      sw.new_left,
      sw.ready_kept,
      sw.exit_kept,
      sw.current,
    )

find_middle :
    (id : ℕ → ℕ) (want e : ℕ) (pre l : List ℕ)
    → All (λ y. id y ≢ want) pre
    → id e ≡ want
    → find_env_in_queue id (pre ++ e ∷ l) want ≡ e
unfolding find_env_in_queue
find_middle id want e [] l a h = ground arith
find_middle id want e (y ∷ pre) l a h =
    rw (==_ne (id y) want a.0) (find_middle id want e pre l a.1 h)

elsewhere-ready :
    (s : Sched) (id : ℕ)
    → find_env_in_queue s.env_id s.ready_queue id ≢ 0
    → let e = find_env_in_queue s.env_id s.ready_queue id in
      exit_elsewhere s id ≡ exit_found (record s { ready_queue = unlink e s.ready_queue }) e id
unfolding exit_elsewhere
elsewhere-ready s id h = ground arith

elsewhere-current :
    (s : Sched) (id : ℕ)
    → find_env_in_queue s.env_id s.ready_queue id ≡ 0
    → s.curenv ≢ 0
    → s.env_id s.curenv ≡ id
    → exit_elsewhere s id ≡ exit_found s s.curenv id
unfolding exit_elsewhere
elsewhere-current s id f c h = ground arith

exit_found-current :
    (s : Sched) (e id : ℕ)
    → s.curenv ≢ 0
    → s.env_id s.curenv ≡ id
    → exit_found s e id ≡ fos_scheduler (record (sched_insert_exit s e) { curenv = 0 })
unfolding exit_found sched_insert_exit
exit_found-current s e id nz h = ground arith

-- What sched_insert_exit of an environment leaves.
record IsExited (s : Sched) (e : ℕ) (s' : Sched) : Type 0 where
  new_kept : s'.new_queue ≡ s.new_queue
  ready_kept : s'.ready_queue ≡ s.ready_queue
  exited : s'.exit_queue ≡ e ∷ s.exit_queue
  marked : s'.env_status e ≡ EnvStatus.exit
  current : s'.curenv ≡ s.curenv
  method_kept : s'.method ≡ s.method

insert_exit-IsExited : (s : Sched) (e : ℕ) → e ≢ 0 → IsExited s e (sched_insert_exit s e)
unfolding sched_insert_exit enqueue
insert_exit-IsExited s e nz = record {
  new_kept = ground arith;
  ready_kept = ground arith;
  exited = ground arith;
  marked = ground arith;
  current = ground arith;
  method_kept = ground arith;
}

-- sched_exit_env of an environment that waits in the READY queue, while another one runs and no
-- new one has its id: it moves to the head of the EXIT queue with status ENV_EXIT, and the others
-- stay as they are.
pub exit_from_ready :
    (s : Sched) (pre : List ℕ) (e : ℕ) (l : List ℕ)
    → All (λ x. x ≢ 0) s.new_queue
    → has_id s.env_id (s.env_id e) s.new_queue ≡ false
    → s.ready_queue ≡ pre ++ e ∷ l
    → All (λ y. s.env_id y ≢ s.env_id e) pre
    → e ≢ 0
    → s.curenv ≢ 0
    → s.env_id s.curenv ≢ s.env_id e
    → (s' : Sched) × (sched_exit_env s (s.env_id e) ≡ done s')
      × (s'.ready_queue ≡ pre ++ l)
      × (s'.exit_queue ≡ e ∷ s.exit_queue)
      × (s'.env_status e ≡ EnvStatus.exit)
      × (s'.new_queue ≡ s.new_queue)
      × (s'.curenv ≡ s.curenv)
exit_from_ready s pre e l nz h q a ne c other =
    let id : ℕ = s.env_id e in
    let (sw, found) = sweep id s.new_queue [] s nz tt refl in
    let s1 : Sched = (remove_new_by_id id s.new_queue s).0 in
    let at : find_env_in_queue s1.env_id s1.ready_queue id ≡ e =
      rw (sw.ids_kept, sw.ready_kept, q) (find_middle s.env_id id e pre l a refl) in
    let s2 : Sched = record s1 { ready_queue = unlink e s1.ready_queue } in
    let x = insert_exit-IsExited s2 e ne in
    (
      sched_insert_exit s2 e,
      exit_env-elsewhere s id (found ∙ h)
          ∙ elsewhere-ready s1 id (λ z. ne (sym at ∙ z))
          ∙ ap (λ p. exit_found (record s1 { ready_queue = unlink p s1.ready_queue }) p id) at
          ∙ exit_found-other s2 e id (λ z. c (sym sw.current ∙ z))
              (λ z. other (sym (current_id sw) ∙ z)),
      x.ready_kept
          ∙ ap (unlink e) (sw.ready_kept ∙ q)
          ∙ unlink-middle pre e l (other_id s.env_id id e pre refl a),
      x.exited ∙ ap (λ t. e ∷ t) sw.exit_kept,
      x.marked,
      x.new_kept ∙ sw.new_left ∙ others_none s.env_id id s.new_queue h,
      x.current ∙ sw.current,
    )

env_exit-current : (s : Sched) → s.curenv ≢ 0 → env_exit s ≡ sched_exit_env s (s.env_id s.curenv)
unfolding env_exit
env_exit-current s c = ground arith

enqueue-null : (q : List ℕ) → enqueue q 0 ≡ q
unfolding enqueue
enqueue-null q = refl

dequeue-last : (q : List ℕ) → (dequeue q).0 ≡ last_or_null q
unfolding dequeue
dequeue-last q = refl

not-waiting :
    (id : ℕ → ℕ) (c : ℕ) (q : List ℕ)
    → All (λ x. x ≢ 0) q
    → c ≢ 0
    → find_env_in_queue id q (id c) ≡ 0
    → c ≢ last_or_null q
unfolding find_env_in_queue last_or_null
not-waiting id c [] a nz f w = nz w
not-waiting id c (x ∷ []) a nz f w = nz (ground (arith, ap id w))
not-waiting id c (x ∷ y ∷ q) a nz f w = elim (eq_or_ne (id x) (id c)) [
  | inl e ↦ a.0 (ground arith)
  | inr n ↦ not-waiting id c (y ∷ q) a.1 nz (ground arith) w
]

-- env_exit of the running environment, whose id no new or ready one has, with round robin: it goes
-- to the head of the EXIT queue with status ENV_EXIT, and the scheduler runs the longest waiting
-- ready environment, or none if there is none. NULL is in no queue.
pub env_exit_hands_over :
    (s : Sched)
    → s.method ≡ rr
    → All (λ x. x ≢ 0) s.new_queue
    → All (λ x. x ≢ 0) s.ready_queue
    → has_id s.env_id (s.env_id s.curenv) s.new_queue ≡ false
    → find_env_in_queue s.env_id s.ready_queue (s.env_id s.curenv) ≡ 0
    → s.curenv ≢ 0
    → (s' : Sched) × (env_exit s ≡ done s')
      × (s'.exit_queue ≡ s.curenv ∷ s.exit_queue)
      × (s'.curenv ≡ last_or_null s.ready_queue)
      × (s'.ready_queue ≡ (dequeue s.ready_queue).1)
      × (s'.new_queue ≡ s.new_queue)
      × (s'.env_status s.curenv ≡ EnvStatus.exit)
env_exit_hands_over s m nz rz h f c =
    let id : ℕ = s.env_id s.curenv in
    let (sw, found) = sweep id s.new_queue [] s nz tt refl in
    let s1 : Sched = (remove_new_by_id id s.new_queue s).0 in
    let x = insert_exit-IsExited s1 s.curenv c in
    let s2 : Sched = record (sched_insert_exit s1 s.curenv) { curenv = 0 } in
    let (s', run, d) = fos_scheduler-IsDispatched s2 (x.method_kept ∙ sw.method_kept ∙ m) in
    let waiting : enqueue s2.ready_queue 0 ≡ s.ready_queue =
      enqueue-null s2.ready_queue ∙ x.ready_kept ∙ sw.ready_kept in
    let next : picked s2 ≡ last_or_null s.ready_queue =
      ap (λ q. (dequeue q).0) waiting ∙ dequeue-last s.ready_queue in
    let c1 : s1.curenv ≢ 0 = λ z. c (sym sw.current ∙ z) in
    (
      s',
      env_exit-current s c
          ∙ exit_env-elsewhere s id (found ∙ h)
          ∙ elsewhere-current s1 id (rw (sw.ids_kept, sw.ready_kept) f) c1 (current_id sw)
          ∙ ap (λ p. exit_found s1 p id) sw.current
          ∙ exit_found-current s1 s.curenv id c1 (current_id sw)
          ∙ run,
      d.exit_kept ∙ x.exited ∙ ap (λ t. s.curenv ∷ t) sw.exit_kept,
      d.runs ∙ next,
      d.ready_kept ∙ ap (λ q. (dequeue q).1) waiting,
      d.new_kept ∙ x.new_kept ∙ sw.new_left ∙ others_none s.env_id id s.new_queue h,
      d.status_kept s.curenv (λ z. not-waiting s.env_id s.curenv s.ready_queue rz c f (z ∙ next))
          ∙ x.marked,
    )
