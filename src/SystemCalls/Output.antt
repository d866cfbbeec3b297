-- ===== src/SystemCalls/Output.antt =====
-- sys_cputs of PROJECT_template/kern/syscall.c, and cprintf and atomic_cprintf of
-- PROJECT_template/lib/printf.c from the format to the console.
pub mod Shown
use fos_simple_os.Prelude.{
  ℕ, List, [], ◌∷◌, ◌++◌, Bool, true, false, ◌==◌, Option, none, some, ◌>>=◌, length, codes,
}
use fos_simple_os.Strings.Text.{before_nul}
use fos_simple_os.Printing.{Arg, int, text}
use fos_simple_os.Printing.Console.{cprintf, kernel_cprintf}

-- The environment that runs: `prog_name` and `env_id` of `curenv`.
pub record Caller : Type 0 where
  pub prog_name : List ℕ
  pub env_id : ℕ

-- "[%s %d] " where it is asked for.
unfoldable pub print_name : Caller → Bool → Option (List ℕ × ℕ)
unfolding kernel_cprintf
print_name e true = kernel_cprintf (codes "[%s %d] ") (text (some e.prog_name) ∷ int e.env_id ∷ [])
print_name e false = some ([], 0)

-- What `sys_cputs` gives to cputchar, from the memory at `s`.
unfoldable pub sys_cputs : Caller → List ℕ → ℕ → Bool → Option (List ℕ)
unfolding kernel_cprintf print_name
sys_cputs e memory len print_prog_name = print_name e print_prog_name >>= λ (name, n).
    kernel_cprintf (codes "%.*s") (int len ∷ text (some (before_nul memory)) ∷ []) >>= λ (shown, m).
    some (name ++ shown)

-- The calls in order; `behind` is what memory holds behind the characters of a call.
unfoldable pub make_calls : Caller → (List ℕ → List ℕ) → Bool → List (List ℕ) → Option (List ℕ)
unfolding sys_cputs
make_calls e behind print_prog_name [] = some []
make_calls e behind print_prog_name (call ∷ calls) =
    let later = make_calls e behind print_prog_name calls in
    sys_cputs e (call ++ behind call) (length call) print_prog_name >>= λ now.
    later >>= λ rest. some (now ++ rest)

-- `cprintf` of a user program, for which `printProgName` is 1, and `atomic_cprintf`, which leaves it 0.
unfoldable pub user_cprintf :
    Caller → (List ℕ → List ℕ) → Bool → List ℕ → List Arg → Option (List ℕ × ℕ)
unfolding cprintf make_calls
user_cprintf e behind print_prog_name fmt args = cprintf fmt args >>= λ (calls, cnt).
    make_calls e behind print_prog_name calls >>= λ out. some (out, cnt)
