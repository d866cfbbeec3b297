-- ===== src/HeapPages/Tests.antt =====
-- freeMem of page 1, which heads the active list.
use fos_simple_os.Prelude.{ℕ, ◌*◌, refl, false, [], ◌∷◌, ◌++◌, arith, round_up}
use fos_simple_os.Memory.{Mem, user_page}
use fos_simple_os.Memory.Tests.{empty_memory}
use fos_simple_os.PageFault.{Env, WorkingSetElement}
use fos_simple_os.HeapPages.{free_mem}
use fos_simple_os.HeapPages.Steps.{AreHeld}
use fos_simple_os.HeapPages.Range.{Freed, free_mem-Freed}

abbrev element : ℕ → WorkingSetElement
element p = record { virtual_address = p * 4096; empty = false }

abbrev memory : Mem
memory = record empty_memory {
  references = λ f. 5;
  pages = λ p. record { frame = 9; perm = user_page };
}

abbrev process : Env
process = record {
  mem = memory;
  page_list = [];
  active = element 1 ∷ element 2 ∷ [];
  second = element 3 ∷ [];
  active_size = 2;
  second_size = 1;
}

process-AreHeld : AreHeld memory (process.active ++ process.second)
process-AreHeld = (
  ((refl, refl, refl), ((refl, refl, refl), ((refl, refl, refl), tt))),
  (
    ((λ e. absurd (omega arith)), ((λ e. absurd (omega arith)), tt)),
    (((λ e. absurd (omega arith)), tt), (tt, tt)),
  ),
)

free_mem-Freed_example : Freed 4096 (round_up 4000 4096) (free_mem process 4096 4000)
free_mem-Freed_example =
    free_mem-Freed process 4096 4000 process-AreHeld (omega arith) (omega arith)
