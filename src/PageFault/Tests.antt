-- ===== src/PageFault/Tests.antt =====
-- Page faults at concrete states: pages 1 and 2 are active, 3 is in the second list.
use fos_simple_os.Prelude.{
  ℕ, ◌>>=◌, ◌+◌, ◌*◌, ◌<◌, ◌≡◌, refl, [], ◌∷◌, true, false, none, some, inl, inr, arith, round_down,
}
use fos_simple_os.Memory.{Mem, zero_entry, map_in_table}
use fos_simple_os.Memory.PageFile.{
  disk_frame_of, pf_add_empty_env_page, get_disk_page_directory, create_disk_page_table,
  allocate_disk_frame,
}
use fos_simple_os.PageFault.{Env, WorkingSetElement, new_stack_page, page_fault_handler}
use fos_simple_os.PageFault.Lru.{pages_of, has, lru, but_last}
use fos_simple_os.PageFault.Sound.{IsSound, IsReady, IsBacked, resident}
use fos_simple_os.PageFault.Illegal.{IsIllegal, page_fault_handler-illegal}
use fos_simple_os.PageFault.Safety.{HasFrame}
use fos_simple_os.Memory.Tests.{one_page}
use fos_simple_os.PageFault.Handler.{page_fault_handler-lru}

abbrev element : ℕ → WorkingSetElement
element p = record { virtual_address = p * 4096; empty = false }

abbrev memory : Mem
memory = record {
  free_frames = 7 ∷ 8 ∷ [];
  references = λ f. 1;
  tables = λ d. true;
  table_frames = λ d. 0;
  pages = λ p. zero_entry;
  ram = λ f. 0;
  disk_directory = true;
  directory_frame = 0;
  disk_tables = λ d. true;
  disk_table_frames = λ d. 0;
  disk_pages = λ p. p + 1;
  disk_free = [];
  disk = λ d. d;
  page_in = 0;
  page_out = 0;
}

abbrev process : Env
process = record {
  mem = memory;
  page_list = [];
  active = element 1 ∷ element 2 ∷ [];
  second = element 3 ∷ [];
  active_size = 2;
  second_size = 1;
}

process-IsSound : IsSound process
process-IsSound = record {
  sizes = refl;
  bounded = omega arith;
  filled = inr refl;
  room = omega arith;
}

backed : (p : ℕ) → p < 10 → IsBacked memory (p * 4096)
backed p h = record { table = refl; low = omega arith }

process-IsReady : IsReady process (round_down 20771 4096)
unfolding has pages_of disk_frame_of
process-IsReady = record {
  loadable = record {
    table = refl;
    low = omega arith;
    aligned = refl;
    directory = refl;
    known = inl refl;
  };
  frames = omega arith;
  absent = refl;
  active_backed = (backed 1 (omega arith), (backed 2 (omega arith), tt));
  second_backed = (backed 3 (omega arith), tt);
}

page_fault_handler-lru_example :
    (e' : Env) × (page_fault_handler process 20771 ≡ some e')
    × (resident e' ≡ lru 3 20480 (resident process))
    × IsSound e'
page_fault_handler-lru_example =
    page_fault_handler-lru process 20771 process-IsSound process-IsReady

-- The page that was last in the second list has gone.
after_fault : lru 3 20480 (resident process) ≡ 20480 ∷ 4096 ∷ 8192 ∷ []
unfolding lru has but_last pages_of
after_fault = refl

-- The same state without a page file.
abbrev unfiled : Env
unfiled = record process { mem = record memory { disk_pages = λ p. 0 } }

not_second : has (round_down 20771 4096) (pages_of unfiled.second) ≡ false
unfolding has pages_of
not_second = refl

unfiled-IsIllegal : IsIllegal unfiled.mem (round_down 20771 4096)
unfolding disk_frame_of
unfiled-IsIllegal = record {
  table = refl;
  directory = refl;
  not_in_file = refl;
  not_in_stack = refl;
}

page_fault_handler-illegal_example : page_fault_handler unfiled 20771 ≡ none
page_fault_handler-illegal_example =
    page_fault_handler-illegal unfiled 20771 unfiled-IsIllegal not_second

-- Page 3, in the second list, has frame 5.
abbrev backed_process : Env
backed_process = record process { mem = one_page }

third-HasFrame : HasFrame one_page (element 3)
unfolding map_in_table
third-HasFrame e = absurd (omega arith)

-- The stack grows by its last page below USTACKTOP, and not above.
stack_runs :
    ((new_stack_page memory 0xEEBFD000 0xEEBFDFFC >>= λ m. some (m.disk_tables 0)) ≡ some true)
    × (new_stack_page memory 0xEEBFE000 0xEEBFE000 ≡ none)
unfolding new_stack_page pf_add_empty_env_page get_disk_page_directory create_disk_page_table
    allocate_disk_frame
stack_runs = (refl, refl)
