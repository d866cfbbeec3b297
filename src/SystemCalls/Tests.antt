-- ===== src/SystemCalls/Tests.antt =====
-- System calls at concrete arguments.
use fos_simple_os.Prelude.{ℕ, ◌<◌, ◌≡◌, refl, [], ◌∷◌, true, false, some, codes, arith, u32}
use fos_simple_os.Printing.{int, chars, printfmt, escape, switch}
use fos_simple_os.Console.Screen.{Screen, cputchars}
use fos_simple_os.Console.Screen.Typing.{IsPlain, Shows}
use fos_simple_os.SystemCalls.Frames.{perm_fits}
use fos_simple_os.SystemCalls.Output.{Caller, sys_cputs, user_cprintf}
use fos_simple_os.SystemCalls.Output.Shown.{atomic_cprintf-Shows}

abbrev caller : Caller
caller = record { prog_name = codes "fos_add"; env_id = 5 }

sys_cputs_run :
    (sys_cputs caller (codes "hello") 4 false ≡ some (codes "hell"))
    × (sys_cputs caller (codes "hello") 4 true ≡ some (codes "[fos_add 5] hell"))
unfolding sys_cputs printfmt escape switch
sys_cputs_run = (refl, refl)

abbrev top_left : Screen
top_left = record { crt_buf = λ q. 0x720; crt_pos = 0; text_length = 0; printer = [] }

printed_run : printfmt (codes "%d!") (int 42 ∷ []) ≡ chars (codes "42!")
unfolding printfmt escape switch
printed_run = refl

plain : (c : ℕ) → 32 < c → c < 127 → IsPlain c
plain c h k = record {
  byte = omega arith;
  not_backspace = λ e. omega arith;
  not_tab = λ e. omega arith;
  not_newline = λ e. omega arith;
  not_return = λ e. omega arith;
  not_left = λ e. omega arith;
  not_right = λ e. omega arith;
}

atomic_cprintf-Shows_example :
    (user_cprintf caller (λ call. codes "old") false (codes "%d!") (int 42 ∷ [])
      ≡ some (codes "42!", u32 3))
    × Shows (codes "42!") top_left (cputchars (codes "42!") top_left)
atomic_cprintf-Shows_example =
    atomic_cprintf-Shows caller (λ call. codes "old") (codes "%d!") (int 42 ∷ []) (codes "42!")
      top_left printed_run
      (
        plain 52 (omega arith) (omega arith),
        (plain 50 (omega arith) (omega arith), (plain 33 (omega arith) (omega arith), tt)),
      )
      (λ e. omega arith, (λ e. omega arith, (λ e. omega arith, tt)))
      (omega arith, (omega arith, (omega arith, tt))) (omega arith)

-- PERM_USER with and without PERM_PRESENT.
perm_runs : (perm_fits 6 ≡ true) × (perm_fits 7 ≡ false)
perm_runs = (refl, refl)
