-- ===== src/Traps.antt =====
-- fault_handler of PROJECT_template/kern/trap.c: which fault a fault is, and its counters. `none` is a
-- kernel panic. USE_KHEAP is 0. The refresh of the TLB is left out.
pub mod Faults
mod Tests
use fos_simple_os.Prelude.{
  ℕ, ◌-◌, ◌*◌, List, [], ◌∷◌, Bool, true, false, ◌&&◌, if◌then◌else◌, ltb, leb, add32, Option, none,
  some, ◌>>=◌,
}
use fos_simple_os.Memory.{pdx, static_cpt}
use fos_simple_os.PageFault.{Env, user_stack_top, page_fault_handler}

-- KERNEL_STACK_TOP - KERNEL_STACK_SIZE, and USER_LIMIT
abbrev pub kernel_stack_bottom : ℕ
kernel_stack_bottom = 0xEFC00000 - 8 * 4096

abbrev pub user_limit : ℕ
user_limit = 0xEF800000

-- The running environment with its counters, and `_EnableBuffering`.
pub record Running : Type 0 where
  pub env : Env
  pub table_faults : ℕ  -- tableFaultsCounter
  pub page_faults : ℕ  -- pageFaultsCounter
  pub buffering : Bool

-- The two checks of the stacks, by whether the fault comes from a user program.
abbrev pub off_stack : Bool → ℕ → Bool
off_stack false fault_va = ltb fault_va kernel_stack_bottom && leb user_limit fault_va
off_stack true fault_va = leb user_stack_top fault_va

-- `table_fault_handler`, which makes a page table.
unfoldable pub table_fault_handler : Env → ℕ → Option Env
table_fault_handler e fault_va = do m ← static_cpt e.mem fault_va; some (record e { mem = m })

-- `__page_fault_handler_with_buffering` panics.
unfoldable pub with_buffering : Bool → Env → ℕ → Option Env
with_buffering true e fault_va = none
with_buffering false e fault_va = page_fault_handler e fault_va

-- The fault by the directory entry.
unfoldable pub serve : Running → ℕ → Option Running
unfolding table_fault_handler with_buffering
serve r fault_va =
    if r.env.mem.tables (pdx fault_va)
    then (do
      e ← with_buffering r.buffering r.env fault_va
      some (record r { env = e; page_faults = add32 r.page_faults 1 }))
    else (do
      e ← table_fault_handler r.env fault_va
      some (record r { env = e; table_faults = add32 r.table_faults 1 }))

unfoldable pub fault_handler : Bool → ℕ → Running → Option Running
unfolding serve
fault_handler user fault_va r = if off_stack user fault_va then none else serve r fault_va

-- Faults one after the other.
unfoldable pub faults : Bool → List ℕ → Running → Option Running
unfolding fault_handler
faults user [] r = some r
faults user (va ∷ vas) r = fault_handler user va r >>= λ r1. faults user vas r1
