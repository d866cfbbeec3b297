-- ===== src/Environments/Identifiers.antt =====
-- The identifiers of environments: env_init and complete_environment_initialization of
-- PROJECT_template/kern/user_environment.c and envid2env of PROJECT_template/kern/helpers.c.
-- `struct Env` has more than 80,000 bytes, so NENV is 12, which is not a power of 2.
use Prim.Native.Nat.{bit_and, bit_or}
use fos_simple_os.Prelude.{
  ℕ, zero, suc, ◌+◌, ◌-◌, ◌^◌, ◌<◌, ◌≡◌, ◌≢◌, refl, ap, ◌∙◌, Bool, true, false, not, ◌&&◌, ◌||◌,
  ◌==◌, ==_iff, ==_ne, Bool-cases, inl, inr, leb, if◌then◌else◌, u32, sle, arith, Option, none,
  some,
}

abbrev pub nenv : ℕ
nenv = 12

-- The fields of `struct Env` that identifiers use, with whether `env_status` is ENV_FREE.
pub record Slot : Type 0 where
  pub env_id : ℕ
  pub env_parent_id : ℕ
  pub is_free : Bool

-- `n & (NENV - 1)`, the index of an identifier, and `n & ~(NENV - 1)`
abbrev pub envx : ℕ → ℕ
envx n = bit_and n (nenv - 1)

abbrev pub without_envx : ℕ → ℕ
without_envx n = n - envx n

-- The identifier that the environment at an index gets, from the one it had.
unfoldable pub next_id : ℕ → ℕ → ℕ
next_id env_id index =
    let generation : ℕ = without_envx (u32 (env_id + 2 ^ 12)) in
    bit_or (if sle generation 0 then 2 ^ 12 else generation) index

-- That part of `complete_environment_initialization`; `parent` is the identifier of the running
-- environment, if there is one. ENV_NEW is not ENV_FREE.
unfoldable pub identify : Option ℕ → ℕ → Slot → Slot
unfolding next_id
identify parent index e = record {
  env_id = next_id e.env_id index;
  env_parent_id = elim parent [ none ↦ 0 | some id ↦ id ];
  is_free = false;
}

-- `free_environment` fills the structure with zeros.
abbrev pub freed : Slot
freed = record { env_id = 0; env_parent_id = 0; is_free = true }

-- The result of `envid2env` and what it stores: E_BAD_ENV and NULL, or an environment, which for the
-- identifier 0 is the running one, if any.
pub data Looked : Type 0 where
  bad_env : Looked
  found : Option ℕ → Looked

-- `checkperm && e != curenv && e->env_parent_id != curenv->env_id`; no caller asks for a
-- check of permissions.
abbrev pub forbidden : (ℕ → Slot) → Option ℕ → ℕ → Bool → Bool
forbidden envs none e checkperm = false
forbidden envs (some cur) e checkperm =
    checkperm && (not (e == cur) && not ((envs e).env_parent_id == (envs cur).env_id))

unfoldable pub envid2env : (ℕ → Slot) → Option ℕ → ℕ → Bool → Looked
envid2env envs curenv envid checkperm =
    if envid == 0
    then found curenv
    else if (envs (envx envid)).is_free || not ((envs (envx envid)).env_id == envid)
    then bad_env
    else if forbidden envs curenv (envx envid) checkperm
    then bad_env
    else found (some (envx envid))

-- A test that holds below a bound.
holds_below : ℕ → (ℕ → Bool) → Bool
holds_below zero p = true
holds_below (suc n) p = p n && holds_below n p

holds_below_lem : (n : ℕ) (p : ℕ → Bool) (x : ℕ) → holds_below n p ≡ true → x < n → p x ≡ true
unfolding holds_below
holds_below_lem zero p x h lt = absurd (omega arith)
holds_below_lem (suc n) p x h lt = ground (arith, holds_below_lem n p x)

first_id : (i : ℕ) → i < nenv → next_id 0 i ≡ 4096 + i
unfolding next_id holds_below
first_id i h =
    (==_iff (next_id 0 i) (4096 + i)).0
      (holds_below_lem nenv (λ j. next_id 0 j == 4096 + j) i refl h)

-- The index that ENVX makes of such an identifier.
abbrev pub looked_at : ℕ → ℕ
looked_at i = if leb 4 i && leb i 7 then i - 4 else i

envx-first_id : (i : ℕ) → i < nenv → envx (4096 + i) ≡ looked_at i
unfolding holds_below
envx-first_id i h =
    (==_iff (envx (4096 + i)) (looked_at i)).0
      (holds_below_lem nenv (λ j. envx (4096 + j) == looked_at j) i refl h)

-- No permission is asked for.
allowed : (envs : ℕ → Slot) (curenv : Option ℕ) (e : ℕ) → forbidden envs curenv e false ≡ false
allowed envs none e = refl
allowed envs (some cur) e = refl

envid2env_at :
    (envs : ℕ → Slot) (curenv : Option ℕ) (envid x : ℕ)
    → envid ≢ 0
    → envx envid ≡ x
    → (envs x).is_free ≡ false
    → envid2env envs curenv envid false
      ≡ (if (envs x).env_id == envid then found (some x) else bad_env)
unfolding envid2env
envid2env_at envs curenv envid x n at busy =
    let nonzero : (envid == 0) ≡ false = ==_ne envid 0 n in
    elim (Bool-cases ((envs x).env_id == envid)) [
      | inl e ↦ rw (envid2env, nonzero, at, busy, e, allowed envs curenv x) refl
      | inr e ↦ rw (envid2env, nonzero, at, busy, e) refl
    ]

same_id :
    (i : ℕ)
    → i < nenv
    → (if 4096 + looked_at i == 4096 + i then found (some (looked_at i)) else bad_env)
      ≡ (if leb 4 i && leb i 7 then bad_env else found (some i))
same_id i h = ground arith

-- Among environments that all have the identifiers that new environments get, envid2env finds the one
-- with the identifier of index `i`, but for the indices 4 to 7: to these it says E_BAD_ENV.
pub envid2env-first :
    (envs : ℕ → Slot) (curenv : Option ℕ) (i : ℕ)
    → ((j : ℕ) → j < nenv → envs j ≡ identify none j freed)
    → i < nenv
    → envid2env envs curenv (next_id 0 i) false
      ≡ (if leb 4 i && leb i 7 then bad_env else found (some i))
unfolding identify
envid2env-first envs curenv i h lt =
    let x : ℕ = looked_at i in
    let below : x < nenv = ground arith in
    let id : next_id 0 i ≡ 4096 + i = first_id i lt in
    let slot : envs x ≡ identify none x freed = h x below in
    let own : (envs x).env_id ≡ 4096 + x = ap (λ s. s.env_id) slot ∙ first_id x below in
    ap (λ n. envid2env envs curenv n false) id
    ∙ envid2env_at envs curenv (4096 + i) x (λ e. omega (arith, e)) (envx-first_id i lt)
        (ap (λ s. s.is_free) slot)
    ∙ ap (λ n. if n == 4096 + i then found (some x) else bad_env) own
    ∙ same_id i lt
