-- ===== src/Printing.antt =====
-- PROJECT_template/lib/printfmt.c: printnum, vprintfmt and vsnprintf. What is printed is the list of
-- the characters given to `putch`; a C string is the list of its characters before the NUL. Of the
-- `int`s `width` and `precision` only positive values and the sign matter: `none` is a negative one.
pub mod Ends
pub mod Numbers
pub mod Buffer
pub mod Console
mod Tests
use fos_simple_os.Prelude.{
  ℕ, zero, suc, ◌+◌, ◌-◌, ◌*◌, ◌/◌, ◌%◌, ◌^◌, List, [], ◌∷◌, ◌++◌, Bool, true, false, not, ◌&&◌,
  ◌||◌, if◌then◌else◌, ◌==◌, ltb, leb, Option, none, some, length, get_elem?, take, map, codes,
  add32, slt,
}
use fos_simple_os.Strings.{store}

-- An argument of a `va_list`: an integer of 64 bits, or a pointer to a string, `none` for NULL.
pub data Arg : Type 0 where
  int : ℕ → Arg
  text : Option (List ℕ) → Arg

-- How printing ends. `bad_argument` is a missing argument or one of another type, which C leaves
-- open; `out_of_fuel` is the model's own.
pub data Printed : Type 0 where
  chars : List ℕ → Printed
  bad_argument : Printed
  out_of_fuel : Printed

-- Characters before what is printed later.
abbrev pub then_print : List ℕ → Printed → Printed
then_print l (chars r) = chars (l ++ r)
then_print l bad_argument = bad_argument
then_print l out_of_fuel = out_of_fuel

-- "0123456789abcdef"[d]
abbrev pub digit : ℕ → ℕ
digit d = if ltb d 10 then d + 48 else d + 87

-- `n` times a character
abbrev pub repeat : ℕ → ℕ → List ℕ
repeat zero c = []
repeat (suc n) c = c ∷ repeat n c

-- `printnum`; a width that is not positive is 0. The fuel bounds the digits.
pub printnum : ℕ → ℕ → ℕ → ℕ → ℕ → List ℕ
printnum zero num base width padc = []
printnum (suc fuel) num base width padc =
    let before : List ℕ = printnum fuel (num / base) base (width - 1) padc in
    (if leb base num then before else repeat (width - 1) padc) ++ digit (num % base) ∷ []

-- `long long` and `long` at their sizes, for `lflag`.
abbrev pub size_of : ℕ → ℕ
size_of lflag = if leb 2 lflag then 2 ^ 64 else 2 ^ 32

-- The fields set by the flags of a %-escape.
pub record Spec : Type 0 where
  pub padc : ℕ
  pub width : Option ℕ
  pub precision : Option ℕ
  pub lflag : ℕ
  pub altflag : Bool

abbrev pub no_flags : Spec
no_flags = record { padc = b' '; width = none; precision = none; lflag = 0; altflag = false }

abbrev pub positive : Option ℕ → ℕ
positive none = 0
positive (some n) = n

-- A number of 64 bits has at most 64 digits, since the bases are 10 and 16.
abbrev pub number : Spec → ℕ → ℕ → List ℕ
number s num base = printnum 64 num base (positive s.width) s.padc

-- `getint` and the case 'd'
pub decimal : Spec → ℕ → List ℕ
unfolding printnum
decimal s arg =
    let size : ℕ = size_of s.lflag in
    let num : ℕ = arg % size in
    if ltb num (size / 2) then number s num 10 else b'-' ∷ number s (size - num) 10

-- `error_string`; entry 0 and those behind the last of these are NULL.
abbrev pub error_texts : List (List ℕ)
error_texts =
    codes "unspecified error"
    ∷ codes "bad environment"
    ∷ codes "invalid parameter"
    ∷ codes "out of memory"
    ∷ codes "out of environments"
    ∷ codes "segmentation fault"
    ∷ []

abbrev pub error_string : ℕ → Option (List ℕ)
error_string err = if err == 0 then none else get_elem? error_texts (err - 1)

-- The case 'e' of an `int` other than the least, with what "error %d" and "%s" print.
pub error_text : ℕ → List ℕ
unfolding printnum
error_text arg =
    let word : ℕ = arg % 2 ^ 32 in
    let err : ℕ = if ltb word (2 ^ 31) then word else 2 ^ 32 - word in
    elim (error_string err) [ none ↦ codes "error " ++ number no_flags err 10 | some p ↦ p ]

-- A `char` as an `int`: a byte from 128 on is negative, and here a word.
abbrev pub char_int : ℕ → ℕ
char_int ch = if ltb ch 128 then ch else ch + (2 ^ 32 - 256)

-- The case 's'
pub string_text : Spec → Option (List ℕ) → List ℕ
string_text s arg =
    let p : List ℕ = elim arg [ none ↦ codes "(null)" | some l ↦ l ] in
    let before : List ℕ = elim s.precision [ none ↦ p | some n ↦ take n p ] in
    let shown : List ℕ =
      if s.altflag
      then map (λ ch. if ltb ch b' ' || ltb b'~' ch then b'?' else ch) before
      else map char_int before in
    let padding : ℕ = positive s.width - length before in
    if s.padc == b'-' then shown ++ repeat padding b' ' else repeat padding s.padc ++ shown

-- What a %-escape comes to: what it prints, the rest of the format and of the arguments; or that it
-- is none, so that printing goes on behind the '%'.
pub data Step : Type 0 where
  printed : List ℕ → List ℕ → List Arg → Step
  no_escape : List Arg → Step
  wrong_argument : Step

-- One round of the switch.
pub data Round : Type 0 where
  reswitch : Spec → List ℕ → List Arg → Round
  finish : Step → Round

-- The digits of a width from `acc` on; it fits an `int`.
pub read_width : ℕ → List ℕ → ℕ × List ℕ
read_width acc [] = (acc, [])
read_width acc (ch ∷ fmt) =
    let rest : ℕ × List ℕ = read_width (acc * 10 + (ch - b'0')) fmt in
    if ltb ch b'0' || ltb b'9' ch then (acc, ch ∷ fmt) else rest

-- `process_precision`
abbrev pub process_precision : Spec → Option ℕ → Spec
process_precision s p = elim s.width [
  | none ↦ record s { width = p; precision = none }
  | some w ↦ record s { precision = p }
]

-- A case that prints an integer.
abbrev pub with_int : List ℕ → List Arg → (ℕ → List ℕ) → Step
with_int fmt [] show = wrong_argument
with_int fmt (int n ∷ args) show = printed (show n) fmt args
with_int fmt (text p ∷ args) show = wrong_argument

abbrev pub with_text : List ℕ → List Arg → (Option (List ℕ) → List ℕ) → Step
with_text fmt [] show = wrong_argument
with_text fmt (int n ∷ args) show = wrong_argument
with_text fmt (text p ∷ args) show = printed (show p) fmt args

-- The case 'e'. The least `int` stays negative, and `error_string` is read in front of its start.
pub with_error : List ℕ → List Arg → Step
unfolding error_text
with_error fmt [] = wrong_argument
with_error fmt (text p ∷ args) = wrong_argument
with_error fmt (int n ∷ args) =
    if n % 2 ^ 32 == 2 ^ 31 then wrong_argument else printed (error_text n) fmt args

-- The case '*'
abbrev pub star : Spec → List ℕ → List Arg → Round
star s fmt [] = finish wrong_argument
star s fmt (text p ∷ args) = finish wrong_argument
star s fmt (int n ∷ args) =
    reswitch (process_precision s (if ltb (n % 2 ^ 32) (2 ^ 31) then some (n % 2 ^ 32) else none))
      fmt args

-- The cases that print, and the default.
pub convert : Spec → ℕ → List ℕ → List Arg → Step
unfolding printnum decimal with_error string_text
convert s ch fmt args =
    if ch == b'c'
    then with_int fmt args (λ n. n % 2 ^ 32 ∷ [])
    else if ch == b'e'
    then with_error fmt args
    else if ch == b's'
    then with_text fmt args (string_text s)
    else if ch == b'd'
    then with_int fmt args (decimal s)
    else if ch == b'u'
    then with_int fmt args (λ n. number s (n % size_of s.lflag) 10)
    else if ch == b'o'
    then printed (codes "XXX") fmt args
    else if ch == b'p'
    then with_int fmt args (λ n. codes "0x" ++ number s (n % 2 ^ 32) 16)
    else if ch == b'x'
    then with_int fmt args (λ n. number s (n % size_of s.lflag) 16)
    else if ch == b'%'
    then printed (b'%' ∷ []) fmt args
    else no_escape args

unfoldable pub switch : Spec → ℕ → List ℕ → List Arg → Round
unfolding convert read_width
switch s ch fmt args =
    let (n, rest) = read_width (ch - b'0') fmt in
    if ch == b'-'
    then reswitch (record s { padc = b'-' }) fmt args
    else if ch == b'0'
    then reswitch (record s { padc = b'0' }) fmt args
    else if ltb b'0' ch && leb ch b'9'
    then reswitch (process_precision s (some n)) rest args
    else if ch == b'*'
    then star s fmt args
    else if ch == b'.'
    then reswitch (record s { width = some (positive s.width) }) fmt args
    else if ch == b'#'
    then reswitch (record s { altflag = true }) fmt args
    else if ch == b'l'
    then reswitch (record s { lflag = s.lflag + 1 }) fmt args
    else finish (convert s ch fmt args)

-- From `reswitch` on; the NUL at the end of the format is a default case.
unfoldable pub escape : ℕ → Spec → List ℕ → List Arg → Step
escape zero s fmt args = no_escape args
escape (suc fuel) s [] args = no_escape args
escape (suc fuel) s (ch ∷ fmt) args = elim (switch s ch fmt args) [
  | reswitch s' fmt' args' ↦ escape fuel s' fmt' args'
  | finish step ↦ step
]

-- The fuel of an escape is the length of the format, of which each round takes a character.
pub vprintfmt : ℕ → List ℕ → List Arg → Printed
vprintfmt zero fmt args = out_of_fuel
vprintfmt (suc fuel) [] args = chars []
vprintfmt (suc fuel) (ch ∷ fmt) args = elim (ch == b'%') [
  | false ↦ then_print (ch ∷ []) (vprintfmt fuel fmt args)
  | true ↦ elim (escape (length fmt) no_flags fmt args) [
    | printed out fmt' args' ↦ then_print out (vprintfmt fuel fmt' args')
    | no_escape args' ↦ then_print (b'%' ∷ []) (vprintfmt fuel fmt args')
    | wrong_argument ↦ bad_argument
  ]
]

-- `printfmt`: enough fuel for the format.
unfoldable pub printfmt : List ℕ → List Arg → Printed
unfolding vprintfmt
printfmt fmt args = vprintfmt (length fmt + 1) fmt args

-- `struct sprintbuf`; `buf` is where the next character goes.
pub record SprintBuf : Type 0 where
  pub memory : ℕ → ℕ
  pub buf : ℕ
  pub ebuf : ℕ
  pub cnt : ℕ

-- `sprintputch`; `cnt` is a word, and the cast to `char` keeps a byte.
pub sprintputch : ℕ → SprintBuf → SprintBuf
sprintputch ch b =
    let counted : SprintBuf = record b { cnt = add32 b.cnt 1 } in
    if ltb b.buf b.ebuf
    then record counted { memory = store b.memory b.buf (ch % 256); buf = b.buf + 1 }
    else counted

-- `sprintputch` on each character that is printed.
pub put_all : List ℕ → SprintBuf → SprintBuf
unfolding sprintputch
put_all [] b = b
put_all (ch ∷ l) b = put_all l (sprintputch ch b)

-- `vsnprintf`: the memory and the result as a word, `- E_INVAL` for no buffer; nothing where the
-- arguments do not fit the format. A buffer does not reach over the end of the address space.
pub vsnprintf : (ℕ → ℕ) → ℕ → ℕ → List ℕ → List Arg → Option ((ℕ → ℕ) × ℕ)
unfolding put_all printfmt
vsnprintf m buf n fmt args = if buf == 0 || slt n 1 then some (m, 3) else elim (printfmt fmt args) [
  | chars l ↦
      let b : SprintBuf =
        put_all l (record { memory = m; buf = buf; ebuf = buf + n - 1; cnt = 0 }) in
      some (store b.memory b.buf 0, b.cnt)
  | bad_argument ↦ none
  | out_of_fuel ↦ none
]
