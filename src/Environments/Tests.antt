-- ===== src/Environments/Tests.antt =====
-- Environments at concrete states.
use fos_simple_os.Prelude.{
  ℕ, ◌*◌, ◌≡◌, refl, [], ◌∷◌, true, false, none, some, arith, ◌==◌, if◌then◌else◌,
}
use fos_simple_os.Memory.{Mem, zero_entry}
use fos_simple_os.PageFault.{Env, WorkingSetElement}
use fos_simple_os.Environments.{release, env_free, start_env_free}
use fos_simple_os.Environments.Freed.{IsFreed, env_free-releases}
use fos_simple_os.Environments.Identifiers.{
  Slot, identify, freed, next_id, bad_env, found, envid2env, envid2env-first,
}

abbrev element : ℕ → WorkingSetElement
element p = record { virtual_address = p * 4096; empty = false }

-- Page 1 is active and page 2 in the second list; page 3 has the disk frame 9.
abbrev memory : Mem
memory = record {
  free_frames = 7 ∷ [];
  references = λ f. 1;
  tables = λ d. d == 0;
  table_frames = λ d. 5;
  pages = λ p. zero_entry;
  ram = λ f. 0;
  disk_directory = true;
  directory_frame = 6;
  disk_tables = λ d. d == 0;
  disk_table_frames = λ d. 4;
  disk_pages = λ p. if p == 3 then 9 else 0;
  disk_free = [];
  disk = λ d. d;
  page_in = 0;
  page_out = 0;
}

abbrev process : Env
process = record {
  mem = memory;
  page_list = [];
  active = element 1 ∷ [];
  second = element 2 ∷ [];
  active_size = 1;
  second_size = 1;
}

env_free-releases_example :
    (e' : Env) × (env_free process 3 2 (5 ∷ []) ≡ some (e', 2 ∷ 5 ∷ [])) × IsFreed process e'
env_free-releases_example =
    env_free-releases process 3 2 (5 ∷ []) (refl, tt) (refl, tt) (λ d t e. omega (arith, e)) refl

release_run :
    (release memory process.second []).page_list
    ≡ record { virtual_address = 8192; empty = true } ∷ []
unfolding release
release_run = refl

buffering_run : start_env_free true process 3 2 [] ≡ none
unfolding start_env_free
buffering_run = refl

-- All twelve environments are new.
abbrev new_envs : ℕ → Slot
new_envs j = identify none j freed

envid2env-first_example : envid2env new_envs none (next_id 0 5) false ≡ bad_env
envid2env-first_example = envid2env-first new_envs none 5 (λ j h. refl) (omega arith)

envid2env_run :
    (envid2env new_envs none 4097 false ≡ found (some 1))
    × (envid2env new_envs none 4100 false ≡ bad_env)
unfolding envid2env identify next_id
envid2env_run = (refl, refl)
