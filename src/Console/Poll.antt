-- ===== src/Console/Poll.antt =====
-- What the kernel reads from the console: cons_getc, cons_getc2 and getchar of
-- PROJECT_template/kern/console.c, on what the serial port and the keyboard have.
pub mod Order
pub mod Waits
use fos_simple_os.Prelude.{ℕ, List, [], ◌∷◌, Bool, true, false, ◌==◌, Option, none, some}
use fos_simple_os.Console.Input.{Cons, cons_put, cons_intr, cons_take}
use fos_simple_os.Console.Keyboard.{Kbd, kbd_proc_data}

-- `cons`, `serial_exists` and the state of the keyboard.
pub record Devices : Type 0 where
  pub cons : Cons
  pub serial_exists : Bool
  pub kbd : Kbd

-- `kbd_proc_data` until the controller has no code: what it returned, and the state.
unfoldable pub kbd_all : List ℕ → Kbd → List ℕ × Kbd
unfolding kbd_proc_data
kbd_all [] k = ([], k)
kbd_all (scan ∷ scans) k =
    let (c, k') = kbd_proc_data scan k in let (cs, k'') = kbd_all scans k' in (c ∷ cs, k'')

-- `serial_intr` on the bytes that have come
unfoldable pub serial_intr : List ℕ → Devices → Devices
unfolding cons_intr
serial_intr bytes d = elim d.serial_exists [
  | true ↦ record d { cons = cons_intr bytes d.cons }
  | false ↦ d
]

-- `kbd_intr` on the codes that have come
unfoldable pub kbd_intr : List ℕ → Devices → Devices
unfolding cons_intr kbd_all
kbd_intr scans d =
    let (keys, k) = kbd_all scans d.kbd in record d { cons = cons_intr keys d.cons; kbd = k }

-- The end of `cons_getc`: a character from the buffer, or 0.
abbrev pub grab : Devices → Option (ℕ × Devices)
grab d = elim (cons_take d.cons) [ none ↦ none | some (c, s) ↦ some (c, record d { cons = s }) ]

unfoldable pub cons_getc : List ℕ → List ℕ → Devices → Option (ℕ × Devices)
unfolding serial_intr kbd_intr
cons_getc bytes scans d = grab (kbd_intr scans (serial_intr bytes d))

-- One byte of the serial port, if it has one, into the buffer.
unfoldable pub poll_serial : Option ℕ → Devices → Devices
unfolding cons_put
poll_serial byte d = elim d.serial_exists [
  | false ↦ d
  | true ↦ elim byte [ none ↦ d | some c ↦ record d { cons = cons_put c d.cons } ]
]

-- `c2` and the state after the poll of the keyboard; `none` is the -1 of no code.
unfoldable pub poll_kbd : Option ℕ → Devices → Option ℕ × Devices
unfolding cons_put kbd_proc_data
poll_kbd none d = (none, d)
poll_kbd (some scan) d =
    let (c, k) = kbd_proc_data scan d.kbd in
    (some c, record d { cons = cons_put c d.cons; kbd = k })

unfoldable pub cons_getc2 : Option ℕ → Option ℕ → Devices → Option (ℕ × Devices)
unfolding poll_serial poll_kbd
cons_getc2 byte scan d =
    let (c2, e) = poll_kbd scan (poll_serial byte d) in
    elim c2 [ none ↦ some (0, e) | some c ↦ elim (c == 0) [ true ↦ some (0, e) | false ↦ grab e ] ]

-- `getchar` on what the devices have at each call of cons_getc; `none` if it is still waiting.
unfoldable pub getchar : List (List ℕ × List ℕ) → Devices → Option (ℕ × Devices)
unfolding cons_getc
getchar [] d = none
getchar ((bytes, scans) ∷ polls) d = elim (cons_getc bytes scans d) [
  | none ↦ none
  | some (c, e) ↦ elim (c == 0) [ true ↦ getchar polls e | false ↦ some (c, e) ]
]
