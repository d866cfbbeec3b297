-- ===== src/Console/Keyboard/Keys.antt =====
-- The tables of PROJECT_template/kern/console.c and the key codes of PROJECT_template/inc/kbdreg.h.
use fos_simple_os.Prelude.{
  ℕ, ◌-◌, ◌==◌, List, [], ◌∷◌, ◌++◌, if◌then◌else◌, none, some, get_elem?, map, codes,
}

abbrev pub key_del : ℕ
key_del = 0xE9

-- The entry of an array, 0 where no initialiser gave one.
abbrev pub entry : List ℕ → ℕ → ℕ
entry l i = elim (get_elem? l i) [ none ↦ 0 | some c ↦ c ]

-- The designated initialisers that the three tables share: KEY_HOME, KEY_UP, KEY_PGUP, KEY_LF,
-- KEY_RT, KEY_END, KEY_DN, KEY_PGDN, KEY_INS and KEY_DEL.
abbrev pub special_keys : ℕ → ℕ
special_keys i =
    if i == 0x97
    then 0xE0
    else if i == 0xC8
    then 0xE2
    else if i == 0xC9
    then 0xE6
    else if i == 0xCB
    then 0xE4
    else if i == 0xCD
    then 0xE5
    else if i == 0xCF
    then 0xE1
    else if i == 0xD0
    then 0xE3
    else if i == 0xD1
    then 0xE7
    else if i == 0xD2
    then 0xE8
    else if i == 0xD3
    then key_del
    else 0

-- The rows of the two printing tables from 0x38 on.
abbrev pub keypad : List ℕ
keypad = 0 ∷ b' ' ∷ 0 ∷ 0 ∷ 0 ∷ 0 ∷ 0 ∷ 0 ∷ 0 ∷ 0 ∷ 0 ∷ 0 ∷ 0 ∷ 0 ∷ 0 ∷ codes "789-456+1230."

abbrev pub normal_rows : List ℕ
normal_rows =
    0 ∷ 0x1B ∷ codes "1234567890-="
    ++ 8 ∷ 9 ∷ codes "qwertyuiop[]"
    ++ 10 ∷ 0 ∷ codes "asdfghjkl;'`"
    ++ 0 ∷ codes "\\zxcvbnm,./"
    ++ 0 ∷ b'*' ∷ keypad

abbrev pub shift_rows : List ℕ
shift_rows =
    0 ∷ 0x1B ∷ codes "!@#$%^&*()_+"
    ++ 8 ∷ 9 ∷ codes "QWERTYUIOP{}"
    ++ 10 ∷ 0 ∷ codes "ASDFGHJKL:\"~"
    ++ 0 ∷ codes "|ZXCVBNM<>?"
    ++ 0 ∷ b'*' ∷ keypad

-- `C(x)`
abbrev pub control : List ℕ → List ℕ
control = map (λ x. x - b'@')

-- `C('/')` is negative, and 239 as a `uint8`.
abbrev pub ctl_rows : List ℕ
ctl_rows =
    0 ∷ 0 ∷ 0 ∷ 0 ∷ 0 ∷ 0 ∷ 0 ∷ 0 ∷ 0 ∷ 0 ∷ 0 ∷ 0 ∷ 0 ∷ 0 ∷ 0 ∷ 0 ∷ control (codes "QWERTYUIOP")
    ++ 0 ∷ 0 ∷ 13 ∷ 0 ∷ control (codes "ASDFGHJKL")
    ++ 0 ∷ 0 ∷ 0 ∷ 0 ∷ control (codes "\\ZXCVBNM")
    ++ 0 ∷ 0 ∷ 239 ∷ 0 ∷ 0 ∷ 0 ∷ 0xFF ∷ []

-- KP_Enter and KP_Div
abbrev pub with_keypad : List ℕ → ℕ → ℕ
with_keypad rows i =
    if i == 0x9C
    then 10
    else if i == 0xB5
    then b'/'
    else let c = entry rows i in if c == 0 then special_keys i else c

unfoldable pub normalmap : ℕ → ℕ
normalmap = with_keypad normal_rows

unfoldable pub shiftmap : ℕ → ℕ
shiftmap = with_keypad shift_rows

unfoldable pub ctlmap : ℕ → ℕ
ctlmap i =
    if i == 0xB5 then 239 else let c = entry ctl_rows i in if c == 0 then special_keys i else c
