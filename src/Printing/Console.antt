-- ===== src/Printing/Console.antt =====
-- cprintf of PROJECT_template/lib/printf.c and PROJECT_template/kern/printf.c, and readline of
-- PROJECT_template/lib/readline.c. What goes to the console is the list of the characters; a system
-- call is the list that it prints.
pub mod Bounded
pub mod Chunks
pub mod Line
mod Tests
use fos_simple_os.Prelude.{
  ℕ, zero, suc, ◌+◌, ◌-◌, ◌%◌, ◌^◌, List, [], ◌∷◌, ◌++◌, Bool, true, false, ◌&&◌, ◌||◌,
  if◌then◌else◌, ◌==◌, ltb, leb, Option, none, some, length, add32,
}
use fos_simple_os.Strings.{store}
use fos_simple_os.Printing.{Arg, Printed, chars, bad_argument, out_of_fuel, printfmt}

-- `struct printbuf`: the characters of `buf` before `idx`, and the calls of sys_cputs made.
pub record PrintBuf : Type 0 where
  pub buf : List ℕ
  pub cnt : ℕ
  pub calls : List (List ℕ)

-- `putch` of lib/printf.c
pub putch : ℕ → PrintBuf → PrintBuf
putch ch b =
    let text : List ℕ = b.buf ++ (ch % 256) ∷ [] in
    let flushed : PrintBuf =
      if length text == 256 - 1
      then record b { buf = []; calls = b.calls ++ text ∷ [] }
      else record b { buf = text } in
    record flushed { cnt = add32 b.cnt 1 }

pub putch_all : List ℕ → PrintBuf → PrintBuf
unfolding putch
putch_all [] b = b
putch_all (ch ∷ l) b = putch_all l (putch ch b)

-- `vcprintf` of lib/printf.c, after vprintfmt: the calls and the result.
pub vcprintf : List ℕ → List (List ℕ) × ℕ
unfolding putch_all
vcprintf text =
    let b : PrintBuf = putch_all text (record { buf = []; cnt = 0; calls = [] }) in
    (b.calls ++ b.buf ∷ [], b.cnt)

-- `cprintf` of a user program; nothing where the arguments do not fit the format.
unfoldable pub cprintf : List ℕ → List Arg → Option (List (List ℕ) × ℕ)
unfolding vcprintf printfmt
cprintf fmt args = elim (printfmt fmt args) [
  | chars l ↦ some (vcprintf l)
  | bad_argument ↦ none
  | out_of_fuel ↦ none
]

-- `cprintf` of the kernel: what cputchar gets, and the result. `*cnt++` in its `putch` moves the
-- local pointer and not the count.
unfoldable pub kernel_cprintf : List ℕ → List Arg → Option (List ℕ × ℕ)
unfolding printfmt
kernel_cprintf fmt args = elim (printfmt fmt args) [
  | chars l ↦ some (l, 0)
  | bad_argument ↦ none
  | out_of_fuel ↦ none
]

-- How readline ends, with the memory: a line, a negative character, or `i` when it waits for a
-- character behind those given.
pub data Read : Type 0 where
  line : (ℕ → ℕ) → Read
  stopped : (ℕ → ℕ) → Read
  waiting : (ℕ → ℕ) → ℕ → Read

-- The loop of `readline` at the index `i` of `buf`, with BUFLEN 1024, on what getchar returns, each a
-- word. The echo is left out.
unfoldable pub readline : (ℕ → ℕ) → ℕ → ℕ → List ℕ → Read
readline m buf i [] = waiting m i
readline m buf i (c ∷ input) = elim (leb (2 ^ 31) c) [
  | true ↦ stopped m
  | false ↦ elim (leb b' ' c && ltb i (1024 - 1)) [
    | true ↦ readline (store m (buf + i) (c % 256)) buf (i + 1) input
    | false ↦ elim (c == 8 && ltb 0 i) [
      | true ↦ readline m buf (i - 1) input
      | false ↦ elim (c == 10 || c == 13) [
        | true ↦ line (store m (buf + i) 0)
        | false ↦ readline m buf i input
      ]
    ]
  ]
]
