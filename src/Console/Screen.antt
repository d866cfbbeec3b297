-- ===== src/Console/Screen.antt =====
-- The display of PROJECT_template/kern/console.c: lpt_putc, cga_putc and cons_putc. `crt_buf` is the
-- memory that the pointer leads to, by index; `printer` is what the parallel port got.
pub mod Bounds
pub mod Typing
use fos_simple_os.Prelude.{
  ℕ, zero, suc, ◌+◌, ◌-◌, ◌*◌, ◌%◌, ◌^◌, List, [], ◌∷◌, ◌++◌, Bool, true, false, not, ◌&&◌, ◌==◌,
  ltb, leb, if◌then◌else◌,
}
use fos_simple_os.Strings.{store}

abbrev pub crt_cols : ℕ
crt_cols = 80

-- 25 rows
abbrev pub crt_size : ℕ
crt_size = 2000

-- KEY_LF and KEY_RT of inc/kbdreg.h
abbrev pub key_lf : ℕ
key_lf = 0xE4

abbrev pub key_rt : ℕ
key_rt = 0xE5

pub record Screen : Type 0 where
  pub crt_buf : ℕ → ℕ
  pub crt_pos : ℕ
  pub text_length : ℕ
  pub printer : List ℕ

-- `c |= 0x0700` where no attribute is given
abbrev pub attributed : ℕ → ℕ
attributed c = if ltb c 256 then c + 0x700 else c

-- `(c & ~0xff) | ' '`
abbrev pub blank : ℕ → ℕ
blank c = c - c % 256 + b' '

-- The default case: a character at the cursor, which moves on.
pub put_cell : ℕ → Screen → Screen
put_cell c s = elim (not (c == key_lf) && not (c == key_rt)) [
  | false ↦ s
  | true ↦
      let pos : ℕ = s.crt_pos + 1 in
      record s {
        crt_buf = store s.crt_buf s.crt_pos (c % 2 ^ 16);
        crt_pos = pos;
        text_length = if ltb (1920 + s.text_length) pos then s.text_length + 1 else s.text_length;
      }
]

-- `case '\b'`
pub backspace : ℕ → Screen → Screen
backspace c s = elim (ltb 0 s.crt_pos) [
  | false ↦ s
  | true ↦ record s {
    crt_pos = s.crt_pos - 1;
    crt_buf = store s.crt_buf (s.crt_pos - 1) (blank c % 2 ^ 16);
  }
]

-- `case '\n'`, which falls through, and `case '\r'`
abbrev pub line_start : ℕ → ℕ
line_start pos = pos - pos % crt_cols

-- The switch on the character; what a tab does is given.
pub cga_switch : (Screen → Screen) → ℕ → Screen → Screen
unfolding put_cell backspace
cga_switch tab c s =
    let k : ℕ = c % 256 in
    elim (k == 8) [
      | true ↦ backspace c s
      | false ↦ elim (k == 10) [
        | true ↦ record s { crt_pos = line_start (s.crt_pos + crt_cols); text_length = 0 }
        | false ↦ elim (k == 13) [
          | true ↦ record s { crt_pos = line_start s.crt_pos }
          | false ↦ elim (k == 9) [
            | true ↦ tab s
            | false ↦ elim (k == 228) [
              | true ↦ record s { crt_pos = s.crt_pos - 1 }
              | false ↦ elim (k == 229) [
                | true ↦ record s {
                  crt_pos = if ltb s.crt_pos crt_size then s.crt_pos + 1 else s.crt_pos;
                }
                | false ↦ put_cell c s
              ]
            ]
          ]
        ]
      ]
    ]

-- memcpy of the rows behind the first over the rows from the first, and a last row of blanks.
abbrev pub scrolled : (ℕ → ℕ) → ℕ → ℕ
scrolled b i =
    if ltb i (crt_size - crt_cols)
    then b (i + crt_cols)
    else if ltb i crt_size
    then 0x0700 + b' '
    else b i

pub scroll : Screen → Screen
scroll s = elim (leb crt_size s.crt_pos) [
  | false ↦ s
  | true ↦ record s { crt_buf = scrolled s.crt_buf; crt_pos = s.crt_pos - crt_cols }
]

-- `lpt_putc` without the wait for the printer.
pub lpt_putc : ℕ → Screen → Screen
lpt_putc c s = record s { printer = s.printer ++ (c % 256) ∷ [] }

pub cga_with : (Screen → Screen) → ℕ → Screen → Screen
unfolding cga_switch scroll
cga_with tab c s = scroll (cga_switch tab (attributed c) s)

-- `cons_putc(' ')`, which reaches no tab.
pub put_space : Screen → Screen
unfolding lpt_putc cga_with
put_space s = cga_with (λ t. t) b' ' (lpt_putc b' ' s)

abbrev pub tab_spaces : Screen → Screen
tab_spaces s = put_space (put_space (put_space (put_space (put_space s))))

pub cga_putc : ℕ → Screen → Screen
unfolding cga_with put_space
cga_putc c s = cga_with tab_spaces c s

pub cons_putc : ℕ → Screen → Screen
unfolding cga_putc lpt_putc
cons_putc c s = cga_putc c (lpt_putc c s)

-- `cputchar` on every character
unfoldable pub cputchars : List ℕ → Screen → Screen
unfolding cons_putc
cputchars [] s = s
cputchars (c ∷ cs) s = cputchars cs (cons_putc c s)
