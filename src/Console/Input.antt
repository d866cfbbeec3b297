-- ===== src/Console/Input.antt =====
-- `cons`, the circular input buffer of PROJECT_template/kern/console.c, and what it promises: the
-- characters come out in the order in which they went in.
pub mod Fifo
use fos_simple_os.Prelude.{
  ℕ, ◌+◌, ◌%◌, List, [], ◌∷◌, ◌==◌, Bool, true, false, if◌then◌else◌, Option, none, some, get_elem?,
  set,
}

abbrev pub cons_buf_size : ℕ
cons_buf_size = 512

pub record Cons : Type 0 where
  pub buf : List ℕ
  pub rpos : ℕ
  pub wpos : ℕ

-- An index behind the one used.
abbrev pub next_pos : ℕ → ℕ
next_pos p = if p + 1 == cons_buf_size then 0 else p + 1

-- A character that is not 0 goes into the buffer, whatever it held.
unfoldable pub cons_put : ℕ → Cons → Cons
cons_put c s = elim (c == 0) [
  | true ↦ s
  | false ↦ record s { buf = set s.buf s.wpos (c % 256); wpos = next_pos s.wpos }
]

-- `cons_intr` on what `proc` returns before -1
unfoldable pub cons_intr : List ℕ → Cons → Cons
cons_intr [] s = s
cons_intr (c ∷ cs) s = cons_intr cs (cons_put c s)

-- The end of `cons_getc`: the next character, or 0. The buffer is an array of 512 bytes; outside of
-- it there is nothing to read.
unfoldable pub cons_take : Cons → Option (ℕ × Cons)
cons_take s = elim (s.rpos == s.wpos) [
  | true ↦ some (0, s)
  | false ↦ elim (get_elem? s.buf s.rpos) [
    | none ↦ none
    | some c ↦ some (c, record s { rpos = next_pos s.rpos })
  ]
]
