-- ===== src/Memory/Tests.antt =====
-- A memory with one page mapped, built from an empty one.
use fos_simple_os.Prelude.{◌>>=◌, some, ◌+◌, ◌≡◌, refl, [], ◌∷◌, true, false, arith, none, ◌⊎◌}
use fos_simple_os.Memory.PageFile.{
  pf_add_empty_env_page, get_disk_page_directory, create_disk_page_table,
}
use fos_simple_os.Memory.{
  allocate_frame, Mem, zero_entry, user_page, map_in_table, map_frame, unmap_frame, get_frame_info,
  is_used, put, page, pdx,
}
use fos_simple_os.Memory.Count.{mapped, mapped-none}
use fos_simple_os.Memory.Safe.{IsSafe}
use fos_simple_os.Memory.Mapping.{map_in_table-IsSafe, map_frame-leaks}
use fos_simple_os.Memory.Unmapping.Dropped.{IsDropped, unmap_cases}
use fos_simple_os.Memory.UserPages.{allocate_mem}
use fos_simple_os.Memory.UserPages.Mapped.{MapsRange}
use fos_simple_os.Memory.UserPages.Enough.{allocate_mem-returns}
use fos_simple_os.Memory.Paging.{IsOwn}

abbrev pub empty_memory : Mem
empty_memory = record {
  free_frames = 7 ∷ 8 ∷ [];
  references = λ f. 0;
  tables = λ d. true;
  table_frames = λ d. 0;
  pages = λ p. zero_entry;
  ram = λ f. 0;
  disk_directory = true;
  directory_frame = 0;
  disk_tables = λ d. true;
  disk_table_frames = λ d. 0;
  disk_pages = λ p. p + 1;
  disk_free = [];
  disk = λ d. d;
  page_in = 0;
  page_out = 0;
}

pub empty_memory-IsSafe : IsSafe empty_memory
empty_memory-IsSafe = record {
  unreferenced = (refl, (refl, tt));
  distinct = (((λ e. absurd (omega arith)), tt), (tt, tt));
  not_zero = ((λ e. absurd (omega arith)), ((λ e. absurd (omega arith)), tt));
  counted = λ n f h. omega (arith, mapped-none n empty_memory f (λ p. refl));
  named = λ p t u. absurd (cc);
  fits = λ f. omega arith;
}

five-IsOwn : IsOwn 5 empty_memory
five-IsOwn = record {
  used = λ e. absurd (omega arith);
  not_free = ((λ e. absurd (omega arith)), ((λ e. absurd (omega arith)), tt));
  low = omega arith;
}

-- Frame 5 is mapped at page 3.
abbrev pub one_page : Mem
one_page = map_in_table empty_memory 5 12288 user_page

pub one_page-IsSafe : IsSafe one_page
one_page-IsSafe =
    map_in_table-IsSafe empty_memory 5 12288 user_page empty_memory-IsSafe five-IsOwn.used
      five-IsOwn.not_free five-IsOwn.low

unmap_cases_example :
    IsSafe (unmap_frame one_page 12288)
    × (((get_frame_info one_page 12288 ≡ none) × (unmap_frame one_page 12288 ≡ one_page))
        ⊎ ((one_page.tables (pdx 12288) ≡ true)
            × (is_used (one_page.pages (page 12288)) ≡ true)
            × ((unmap_frame one_page 12288).pages ≡ put one_page.pages (page 12288) zero_entry)
            × IsDropped one_page (unmap_frame one_page 12288) (one_page.pages (page 12288)).frame))
unmap_cases_example = unmap_cases one_page 12288 one_page-IsSafe

-- Page 3 holds frame 9, but is not present.
abbrev demoted : Mem
demoted = record empty_memory {
  references = λ f. 1;
  pages = λ p. record { frame = 9; perm = record user_page { present = false } };
}

map_frame-leaks_example :
    (m' : Mem) × (map_frame demoted 5 12288 user_page ≡ some m')
    × (m'.references 9 ≡ 1)
    × (mapped 4 m' 9 + 1 ≡ mapped 4 demoted 9)
map_frame-leaks_example =
    map_frame-leaks demoted 5 12288 4 user_page (omega arith) refl refl refl
      (λ e. absurd (omega arith))

-- Page 2 gets frame 7; the page is in the page file already.
allocate_mem_run : (allocate_mem one_page 8192 4096 >>= λ m. some (m.pages 2).frame) ≡ some 7
unfolding allocate_mem pf_add_empty_env_page get_disk_page_directory map_in_table
    create_disk_page_table allocate_frame map_frame
allocate_mem_run = refl

-- Three frames and a disk frame are free, and no page is in the page file.
abbrev pub for_one_page : Mem
for_one_page = record empty_memory {
  free_frames = 7 ∷ 8 ∷ 9 ∷ [];
  tables = λ d. false;
  disk_tables = λ d. false;
  disk_free = 4 ∷ [];
}

pub for_one_page-IsSafe : IsSafe for_one_page
for_one_page-IsSafe = record {
  unreferenced = (refl, (refl, (refl, tt)));
  distinct = ground arith;
  not_zero = ground arith;
  counted = λ n f h. omega (arith, mapped-none n for_one_page f (λ p. refl));
  named = λ p t u. absurd (cc);
  fits = λ f. omega arith;
}

allocate_mem-returns_example :
    (m' : Mem) × (allocate_mem for_one_page 0x80000000 4096 ≡ some m')
    × MapsRange 1 0x80000000 for_one_page m'
allocate_mem-returns_example =
    allocate_mem-returns for_one_page 0x80000000 4096 (omega arith)
      (record { directory = refl; frames = omega arith; disks = omega arith })
