-- ===== src/Sched/Sweep.antt =====
-- The walk of sched_exit_env over the NEW queue: it removes every environment with the id.
use fos_simple_os.Prelude.{
  ℕ, ◌≡◌, ap, sym, subst, ◌∙◌, ◌≢◌, refl, List, [], ◌∷◌, ◌++◌, arith, Bool, true, false,
  if◌then◌else◌, ◌==◌, ==_refl, ==_ne, eq_or_ne, inl, inr, All, All-append, append_assoc,
}
use fos_simple_os.Sched.{Sched, remove_new_by_id, sched_remove_new}
use fos_simple_os.Sched.Lists.{unlink}

-- The nodes of a queue without those of the id.
pub others : (ℕ → ℕ) → ℕ → List ℕ → List ℕ
others id want [] = []
others id want (e ∷ l) = if id e == want then others id want l else e ∷ others id want l

pub unlink-middle :
    (pre : List ℕ) (e : ℕ) (l : List ℕ) → All (λ y. y ≢ e) pre → unlink e (pre ++ e ∷ l) ≡ pre ++ l
unfolding unlink
unlink-middle [] e l h = rw (==_refl e)
unlink-middle (y ∷ pre) e l h = rw (==_ne y e h.0) (ap (λ t. y ∷ t) (unlink-middle pre e l h.1))

-- Whether a queue holds a node with the id.
unfoldable pub has_id : (ℕ → ℕ) → ℕ → List ℕ → Bool
has_id id want [] = false
has_id id want (e ∷ l) = if id e == want then true else has_id id want l

-- What the walk of `sched_exit_env` over the NEW queue leaves.
pub record IsSwept (s : Sched) (queue : List ℕ) (s' : Sched) : Type 0 where
  pub new_left : s'.new_queue ≡ queue
  pub ready_kept : s'.ready_queue ≡ s.ready_queue
  pub exit_kept : s'.exit_queue ≡ s.exit_queue
  pub current : s'.curenv ≡ s.curenv
  pub ids_kept : s'.env_id ≡ s.env_id
  pub method_kept : s'.method ≡ s.method

remove_one :
    (s : Sched) (e : ℕ) (pre l : List ℕ)
    → e ≢ 0
    → All (λ y. y ≢ e) pre
    → s.new_queue ≡ pre ++ e ∷ l
    → IsSwept s (pre ++ l) (sched_remove_new s e)
unfolding sched_remove_new
remove_one s e pre l nz h q = record {
  new_left = ground (arith, ap (unlink e) q ∙ unlink-middle pre e l h);
  ready_kept = ground arith;
  exit_kept = ground arith;
  current = ground arith;
  ids_kept = ground arith;
  method_kept = ground arith;
}

pub other_id :
    (id : ℕ → ℕ) (want e : ℕ) (pre : List ℕ)
    → id e ≡ want
    → All (λ y. id y ≢ want) pre
    → All (λ y. y ≢ e) pre
other_id id want e [] h a = tt
other_id id want e (y ∷ pre) h a = (λ q. a.0 (ap id q ∙ h), other_id id want e pre h a.1)

sweep-hit :
    (want e : ℕ) (l : List ℕ) (s : Sched)
    → s.env_id e ≡ want
    → remove_new_by_id want (e ∷ l) s ≡ ((remove_new_by_id want l (sched_remove_new s e)).0, true)
unfolding remove_new_by_id
sweep-hit want e l s h = ground arith

sweep-miss :
    (want e : ℕ) (l : List ℕ) (s : Sched)
    → s.env_id e ≢ want
    → remove_new_by_id want (e ∷ l) s ≡ remove_new_by_id want l s
unfolding remove_new_by_id
sweep-miss want e l s h = ground arith

abbrev pub Sweeps : Sched → ℕ → List ℕ → List ℕ → Type 0
Sweeps s want pre l =
    IsSwept s (pre ++ others s.env_id want l) (remove_new_by_id want l s).0
    × ((remove_new_by_id want l s).1 ≡ has_id s.env_id want l)

others-hit :
    (id : ℕ → ℕ) (want e : ℕ) (l : List ℕ)
    → id e ≡ want
    → (others id want (e ∷ l) ≡ others id want l) × (has_id id want (e ∷ l) ≡ true)
unfolding others has_id
others-hit id want e l h = ground arith

others-miss :
    (id : ℕ → ℕ) (want e : ℕ) (l : List ℕ)
    → id e ≢ want
    → (others id want (e ∷ l) ≡ e ∷ others id want l) × (has_id id want (e ∷ l) ≡ has_id id want l)
unfolding others has_id
others-miss id want e l h = ground arith

sweep_nil : (want : ℕ) (pre : List ℕ) (s : Sched) → s.new_queue ≡ pre ++ [] → Sweeps s want pre []
unfolding remove_new_by_id others has_id
sweep_nil want pre s q = (
  record {
    new_left = q;
    ready_kept = refl;
    exit_kept = refl;
    current = refl;
    ids_kept = refl;
    method_kept = refl;
  },
  refl,
)

after :
    {s s1 s2 : Sched} {k queue : List ℕ} → IsSwept s k s1 → IsSwept s1 queue s2 → IsSwept s queue s2
after a b = record {
  new_left = b.new_left;
  ready_kept = b.ready_kept ∙ a.ready_kept;
  exit_kept = b.exit_kept ∙ a.exit_kept;
  current = b.current ∙ a.current;
  ids_kept = b.ids_kept ∙ a.ids_kept;
  method_kept = b.method_kept ∙ a.method_kept;
}

pub sweep :
    (want : ℕ) (l pre : List ℕ) (s : Sched)
    → All (λ e. e ≢ 0) l
    → All (λ y. s.env_id y ≢ want) pre
    → s.new_queue ≡ pre ++ l
    → Sweeps s want pre l
sweep want [] pre s nz h q = sweep_nil want pre s q
sweep want (e ∷ l) pre s nz h q = elim (eq_or_ne (s.env_id e) want) [
  | inl hit ↦
      let one = remove_one s e pre l nz.0 (other_id s.env_id want e pre hit h) q in
      let (rest, has) =
        sweep want l pre (sched_remove_new s e) nz.1
          (subst (λ id. All (λ y. id y ≢ want) pre) (sym one.ids_kept) h) one.new_left in
      let left =
        ap (λ k. pre ++ k)
          (ap (λ id. others id want l) one.ids_kept ∙ sym (others-hit s.env_id want e l hit).0) in
      let step = sweep-hit want e l s hit in
      (
        subst (λ r. IsSwept s (pre ++ others s.env_id want (e ∷ l)) r) (sym (ap (λ r. r.0) step))
            (subst (λ k. IsSwept s k (remove_new_by_id want l (sched_remove_new s e)).0) left
              (after one rest)),
        ap (λ r. r.1) step ∙ sym (others-hit s.env_id want e l hit).1,
      )
  | inr miss ↦
      let (rest, has) =
        sweep want l (pre ++ e ∷ []) s nz.1
          (All-append (λ y. s.env_id y ≢ want) pre (e ∷ []) h (miss, tt))
          (q ∙ sym (append_assoc pre (e ∷ []) l)) in
      let left =
        append_assoc pre (e ∷ []) (others s.env_id want l)
        ∙ ap (λ k. pre ++ k) (sym (others-miss s.env_id want e l miss).0) in
      let step = sweep-miss want e l s miss in
      (
        subst (λ r. IsSwept s (pre ++ others s.env_id want (e ∷ l)) r) (sym (ap (λ r. r.0) step))
            (subst (λ k. IsSwept s k (remove_new_by_id want l s).0) left rest),
        ap (λ r. r.1) step ∙ has ∙ sym (others-miss s.env_id want e l miss).1,
      )
]

pub current_id :
    {s s' : Sched} {k : List ℕ} → IsSwept s k s' → s'.env_id s'.curenv ≡ s.env_id s.curenv
current_id {s} {s'} sw = ap (λ f. f s'.curenv) sw.ids_kept ∙ ap s.env_id sw.current

pub others_none :
    (id : ℕ → ℕ) (want : ℕ) (l : List ℕ) → has_id id want l ≡ false → others id want l ≡ l
unfolding others has_id
others_none id want [] h = refl
others_none id want (e ∷ l) h = ground (arith, others_none id want l)
