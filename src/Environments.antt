-- ===== src/Environments.antt =====
-- The end of an environment in PROJECT_template/kern/user_environment.c, and the identifier that a new
-- one gets. The free environments are a list of indices in `envs`. `none` is a kernel panic, or the
-- fault of the kernel at a NULL directory. The refresh of the TLB is left out.
pub mod Freed
pub mod Identifiers
mod Tests
use fos_simple_os.Prelude.{
  ℕ, zero, suc, ◌+◌, ◌-◌, ◌*◌, ◌/◌, ◌%◌, ◌^◌, List, [], ◌∷◌, Bool, true, false, not, ◌&&◌, ◌||◌,
  ◌==◌, leb, if◌then◌else◌, Option, none, some, ◌>>=◌, u32,
}
use fos_simple_os.Memory.{Mem, put, pdx, free_frame, unmap_frame}
use fos_simple_os.Memory.Releasing.{user_tables, pf_free_env}
use fos_simple_os.PageFault.{Env, WorkingSetElement}

-- The memory, the elements that stay in their list, and PageWorkingSetList.
pub record Released : Type 0 where
  pub mem : Mem
  pub kept : List WorkingSetElement
  pub page_list : List WorkingSetElement

-- The walk over a list: a page whose table is there is unmapped, and its element goes to the head of
-- PageWorkingSetList.
unfoldable pub release : Mem → List WorkingSetElement → List WorkingSetElement → Released
unfolding unmap_frame
release m [] page_list = record { mem = m; kept = []; page_list = page_list }
release m (x ∷ l) page_list = elim (m.tables (pdx x.virtual_address)) [
  | true ↦ release (unmap_frame m x.virtual_address) l (record x { empty = true } ∷ page_list)
  | false ↦ let r : Released = release m l page_list in record r { kept = x ∷ r.kept }
]

-- The page tables from directory entry `d` on.
unfoldable pub free_table : Mem → ℕ → Mem
unfolding free_frame
free_table m d = elim (m.tables d && not (m.table_frames d == 0)) [
  | false ↦ m
  | true ↦
      let m1 : Mem =
        if m.references (m.table_frames d) == 0 then m else free_frame m (m.table_frames d) in
      record m1 { tables = put m1.tables d false; table_frames = put m1.table_frames d 0 }
]

unfoldable pub free_tables : ℕ → ℕ → Mem → Mem
unfolding free_table
free_tables zero d m = m
free_tables (suc n) d m = free_tables n (d + 1) (free_table m d)

-- `env_free` up to pf_free_env: the memory and the lists. `directory` is the frame at `env_cr3`.
unfoldable pub release_memory : Env → ℕ → Env
unfolding release free_tables free_frame
release_memory e directory =
    let s : Released = release e.mem e.second e.page_list in
    let a : Released = release s.mem e.active s.page_list in
    record e {
      mem = free_frame (free_tables user_tables 0 a.mem) directory;
      second = s.kept;
      active = a.kept;
      page_list = a.page_list;
    }

-- `env_free`: the environment as free_environment finds it, which then makes its fields 0, and the free
-- environments, with the environment `index`.
unfoldable pub env_free : Env → ℕ → ℕ → List ℕ → Option (Env × List ℕ)
unfolding release_memory pf_free_env
env_free e directory index free_envs = do
  m ← pf_free_env (release_memory e directory).mem
  some (record (release_memory e directory) { mem = m }, index ∷ free_envs)

-- `start_env_free` by isBufferingEnabled; __env_free_with_buffering panics.
unfoldable pub start_env_free : Bool → Env → ℕ → ℕ → List ℕ → Option (Env × List ℕ)
unfolding env_free
start_env_free true e directory index free_envs = none
start_env_free false e directory index free_envs = env_free e directory index free_envs
