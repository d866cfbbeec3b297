-- ===== src/UserHeap/Tests.antt =====
-- Runs of the user heap, and the theorems at concrete heaps.
use fos_simple_os.Prelude.{
  ℕ, ◌≡◌, refl, ◌⊎◌, [], ◌∷◌, true, false, arith, page_size, some, length, ◌≤◌, ◌>>=◌,
}
use fos_simple_os.Memory.{page, allocate_frame, map_in_table, map_frame}
use fos_simple_os.Memory.PageFile.{
  allocate_disk_frame, get_disk_page_directory, create_disk_page_table, pf_add_empty_env_page,
}
use fos_simple_os.Memory.Tests.{for_one_page, for_one_page-IsSafe}
use fos_simple_os.Memory.UserPages.{allocate_mem}
use fos_simple_os.UserHeap.{
  Space, Heap, returned, overrun, Call, whole, dead, malloc, free, user_heap_start, set_up,
  req_pages, num_pages,
}
use fos_simple_os.UserHeap.Backed.{IsBacked, sys_allocate_mem, malloc-IsBacked}
use fos_simple_os.UserHeap.Layout.{whole-IsTiled}
use fos_simple_os.UserHeap.Search.{NoFit}
use fos_simple_os.UserHeap.Malloc.{IsReady}
use fos_simple_os.UserHeap.Faults.{drained_overruns, drained}

abbrev fresh : Heap
fresh = record { spaces = []; calls = [] }

-- The first `malloc` of 5000 bytes takes two pages.
malloc_first :
    malloc fresh 5000
    ≡ returned user_heap_start (record {
      spaces =
          record { str_address = 0x80000000; end_address = 0x80002000; pages = 2; is_free = false }
          ∷ record {
            str_address = 0x80002000;
            end_address = 0xA0000000;
            pages = 131070;
            is_free = true;
          }
          ∷ [];
      calls = Call.allocate_mem 0x80000000 8192 ∷ [];
    })
unfolding malloc
malloc_first = refl

fresh-IsReady : IsReady fresh
unfolding set_up
fresh-IsReady = whole-IsTiled

abbrev first_block : Space
first_block = record {
  str_address = 0x80000000;
  end_address = 0x80002000;
  pages = 2;
  is_free = false;
}

abbrev used : Heap
used = record {
  spaces =
      first_block
      ∷ record {
        str_address = 0x80002000;
        end_address = 0xA0000000;
        pages = 131070;
        is_free = true;
      }
      ∷ [];
  calls = [];
}

-- Freed, the block is merged into the rest, and its entry is dead.
free_first :
    free used 0x80000000
    ≡ returned 0 (record { spaces = dead ∷ whole ∷ []; calls = Call.free_mem 0x80000000 8192 ∷ [] })
unfolding free
free_first = refl

drained_overruns_example :
    malloc (record { spaces = drained 131071; calls = [] }) page_size ≡ overrun
drained_overruns_example = drained_overruns 131071 [] (omega arith)

-- A first block of one page, backed by the kernel.
malloc-IsBacked_example :
    ((malloc fresh 100 ≡ returned 0 (record fresh { spaces = set_up [] }))
      × NoFit (req_pages 100) (set_up []))
    ⊎ ((malloc fresh 100 ≡ overrun) × (num_pages ≤ length (set_up [])))
    ⊎ ((p : ℕ) × (h' : Heap) × (malloc fresh 100 ≡ returned p h')
        × IsBacked fresh h' (req_pages 100) p for_one_page)
malloc-IsBacked_example =
    malloc-IsBacked fresh 100 for_one_page fresh-IsReady for_one_page-IsSafe
      (record { directory = refl; frames = omega arith; disks = omega arith })

-- Its page gets the frame 8, between those of the disk page table and of the page table.
backed_run :
    (sys_allocate_mem for_one_page user_heap_start page_size >>= λ m.
    some (m.pages (page user_heap_start)).frame)
    ≡ some 8
unfolding sys_allocate_mem allocate_mem pf_add_empty_env_page get_disk_page_directory map_in_table
    create_disk_page_table allocate_frame map_frame allocate_disk_frame
backed_run = refl
