-- ===== src/Traps/Tests.antt =====
-- Faults at concrete states.
use fos_simple_os.Prelude.{
  ℕ, ◌+◌, ◌*◌, ◌==◌, ◌≡◌, refl, [], ◌∷◌, true, false, none, some, inl, arith, round_down,
}
use fos_simple_os.Memory.{Mem, zero_entry}
use fos_simple_os.Memory.PageFile.{disk_frame_of}
use fos_simple_os.Memory.Tests.{one_page, one_page-IsSafe}
use fos_simple_os.PageFault.{Env, WorkingSetElement}
use fos_simple_os.PageFault.Lru.{lru, has, pages_of}
use fos_simple_os.PageFault.Sound.{IsSound, resident}
use fos_simple_os.Traps.{Running, fault_handler, faults}
use fos_simple_os.Traps.Faults.{SafelyRun, IsAwaited, fault_handler-IsSafe, table_then_page}

abbrev element : ℕ → WorkingSetElement
element p = record { virtual_address = p * 4096; empty = false }

-- Page 1 is active, and only the first page table is there.
abbrev memory : Mem
memory = record {
  free_frames = 7 ∷ 8 ∷ 9 ∷ [];
  references = λ f. 1;
  tables = λ d. d == 0;
  table_frames = λ d. 5;
  pages = λ p. zero_entry;
  ram = λ f. 0;
  disk_directory = true;
  directory_frame = 6;
  disk_tables = λ d. true;
  disk_table_frames = λ d. 4;
  disk_pages = λ p. p + 1;
  disk_free = [];
  disk = λ d. d;
  page_in = 0;
  page_out = 0;
}

abbrev process : Env
process = record {
  mem = memory;
  page_list = element 0 ∷ [];
  active = element 1 ∷ [];
  second = [];
  active_size = 2;
  second_size = 0;
}

abbrev running : Running
running = record { env = process; table_faults = 0; page_faults = 0; buffering = false }

process-IsSound : IsSound process
process-IsSound = record {
  sizes = refl;
  bounded = omega arith;
  filled = inl refl;
  room = omega arith;
}

-- An address in page 2048, of the third page table.
process-IsAwaited : IsAwaited process (round_down 8388609 4096)
unfolding has pages_of disk_frame_of
process-IsAwaited = record {
  missing = refl;
  low = omega arith;
  aligned = refl;
  directory = refl;
  known = inl refl;
  frames = omega arith;
  absent = refl;
  active_backed = (record { table = refl; low = omega arith }, tt);
  second_backed = tt;
}

table_then_page_example :
    (r' : Running) × (faults true (8388609 ∷ 8388609 ∷ []) running ≡ some r')
    × (resident r'.env ≡ lru 2 8388608 (resident process))
    × IsSound r'.env
    × (r'.table_faults ≡ 1)
    × (r'.page_faults ≡ 1)
table_then_page_example =
    table_then_page 8388609 running process-IsSound process-IsAwaited (omega arith) refl

-- The second list is empty.
abbrev small : Running
small = record running { env = record process { mem = one_page } }

fault_handler-IsSafe_example : SafelyRun (fault_handler true 12288 small)
fault_handler-IsSafe_example = fault_handler-IsSafe true 12288 small one_page-IsSafe tt

-- Above the stack, and below the stack of the kernel.
stack_runs :
    (fault_handler true 4005552128 running ≡ none) × (fault_handler false 0xEF800000 running ≡ none)
unfolding fault_handler
stack_runs = (refl, refl)
