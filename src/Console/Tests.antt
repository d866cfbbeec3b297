-- ===== src/Console/Tests.antt =====
-- The console at concrete inputs.
use fos_simple_os.Prelude.{ℕ, ◌≡◌, refl, List, [], ◌∷◌, true, false, none, some, codes, arith}
use fos_simple_os.Printing.{repeat}
use fos_simple_os.Console.Input.{Cons, cons_put, cons_intr, cons_take}
use fos_simple_os.Console.Input.Fifo.{
  typed, Holds, take_all, intr-Holds, cons_intr-take, cons_put_overflow,
}
use fos_simple_os.Console.Screen.{Screen, cputchars}
use fos_simple_os.Console.Screen.Bounds.{IsOnScreen, Keeps, cputchars-Keeps}
use fos_simple_os.Console.Keyboard.{Shift, Kbd, kbd_proc_data, delete}
use fos_simple_os.Console.Keyboard.Keys.{normalmap, shiftmap, ctlmap}
use fos_simple_os.Console.Keyboard.Released.{kbd-reboots}
use fos_simple_os.Console.Keyboard.Deleting.{closed_up, delete_closes}
use fos_simple_os.Console.Poll.{
  Devices, kbd_all, poll_serial, poll_kbd, cons_getc, cons_getc2, getchar,
}
use fos_simple_os.Console.Poll.Order.{cons_getc-order}
use fos_simple_os.Console.Poll.Waits.{polled_keys, additions, EndsOn, cons_getc2-order}

abbrev fresh : Cons
fresh = record { buf = repeat 512 0; rpos = 0; wpos = 0 }

fresh-Holds : Holds fresh []
fresh-Holds = record {
  size = refl;
  start = omega arith;
  fits = omega arith;
  stop = refl;
  at = λ i x e. absurd (cc);
}

cons_intr-take_example :
    (u : Cons) × (take_all 2 (cons_intr (104 ∷ 0 ∷ 105 ∷ []) fresh) ≡ some (104 ∷ 105 ∷ [], u))
    × (cons_take u ≡ some (0, u))
cons_intr-take_example = cons_intr-take (104 ∷ 0 ∷ 105 ∷ []) fresh fresh-Holds (omega arith)

-- 511 times the letter a
abbrev many : List ℕ
many = repeat 511 97

abbrev nearly_full : Cons
nearly_full = cons_intr many fresh

nearly_full-Holds : Holds nearly_full many
nearly_full-Holds = intr-Holds many fresh [] fresh-Holds (omega arith)

cons_put_overflow_example : Holds (cons_put 98 nearly_full) []
cons_put_overflow_example =
    cons_put_overflow 98 nearly_full many (omega arith) nearly_full-Holds refl

abbrev blank_screen : Screen
blank_screen = record { crt_buf = λ q. 0x720; crt_pos = 1920; text_length = 0; printer = [] }

blank_screen-IsOnScreen : IsOnScreen blank_screen
blank_screen-IsOnScreen = record { cursor = omega arith; typed = omega arith }

-- Four characters into the last row, where the cell `q` holds `q`.
abbrev prompted : Screen
prompted = record { crt_buf = λ q. q; crt_pos = 1924; text_length = 4; printer = [] }

-- A tab prints a tab and five spaces; a line feed in the last row scrolls.
screen_run :
    ((cputchars (9 ∷ 97 ∷ []) blank_screen).crt_pos ≡ 1926)
    × ((cputchars (9 ∷ []) blank_screen).printer ≡ 9 ∷ 32 ∷ 32 ∷ 32 ∷ 32 ∷ 32 ∷ [])
    × ((cputchars (10 ∷ []) prompted).crt_pos ≡ 1920)
    × ((cputchars (10 ∷ []) prompted).crt_buf 1840 ≡ 1920)
    × ((cputchars (codes "FOS>") blank_screen).text_length ≡ 4)
unfolding cputchars
screen_run = (refl, refl, refl, refl, refl)

cputchars-Keeps_example : Keeps blank_screen (cputchars (codes "a\n\tb") blank_screen)
cputchars-Keeps_example = cputchars-Keeps (codes "a\n\tb") blank_screen blank_screen-IsOnScreen

abbrev no_keys : Shift
no_keys = record {
  ctl = false;
  shift = false;
  alt = false;
  caps_lock = false;
  num_lock = false;
  scroll_lock = false;
  e0_esc = false;
}

abbrev at_rest : Kbd
at_rest = record { flags = no_keys; screen = prompted; reboots = 0 }

-- a; Shift and a; CapsLock and a; Control, Alt and Delete.
keys_run :
    ((kbd_all (0x1E ∷ 0x9E ∷ []) at_rest).0 ≡ 97 ∷ 0 ∷ [])
    × ((kbd_all (0x2A ∷ 0x1E ∷ 0xAA ∷ []) at_rest).0 ≡ 0 ∷ 65 ∷ 0 ∷ [])
    × ((kbd_all (0x3A ∷ 0xBA ∷ 0x1E ∷ []) at_rest).0 ≡ 0 ∷ 0 ∷ 65 ∷ [])
    × ((kbd_all (0x1D ∷ 0x38 ∷ 0xE0 ∷ 0x53 ∷ []) at_rest).0 ≡ 0 ∷ 0 ∷ 0 ∷ 0 ∷ [])
unfolding kbd_all kbd_proc_data normalmap shiftmap ctlmap
keys_run = (refl, refl, refl, refl)

kbd-reboots_example : (kbd_proc_data 0x53 at_rest).1.reboots ≡ 0
kbd-reboots_example = kbd-reboots 0x53 at_rest

-- Entries at the edges of the rows of the tables.
maps_run :
    (normalmap 0x47 ≡ b'7')
    × (normalmap 0x53 ≡ b'.')
    × (normalmap 0x39 ≡ b' ')
    × (shiftmap 0x35 ≡ b'?')
    × (shiftmap 0x28 ≡ b'"')
    × (ctlmap 0x32 ≡ 13)
    × (ctlmap 0x39 ≡ 255)
    × (shiftmap 0xC8 ≡ 0xE2)
unfolding normalmap shiftmap ctlmap
maps_run = (refl, refl, refl, refl, refl, refl, refl, refl)

abbrev moved_left : Screen
moved_left = record prompted { crt_pos = 1921 }

delete_closes_example :
    (delete moved_left).1.crt_buf 1921 ≡ closed_up 1921 1928 moved_left.crt_buf 1921
delete_closes_example = delete_closes moved_left 1921 (omega arith) (omega arith)

abbrev devices : Devices
devices = record { cons = fresh; serial_exists = true; kbd = at_rest }

cons_getc-order_example :
    (e : Devices) × (cons_getc (98 ∷ []) (0x1E ∷ 0x9E ∷ []) devices ≡ some (98, e))
    × Holds e.cons (97 ∷ [])
unfolding kbd_all normalmap
cons_getc-order_example =
    cons_getc-order (98 ∷ []) (0x1E ∷ 0x9E ∷ []) [] devices 98 (97 ∷ []) fresh-Holds (omega arith)
      refl

-- The byte of the serial port stays unread, and comes with the key that is polled next.
cons_getc2-order_example :
    EndsOn
      (typed (polled_keys (some 0x1E) devices))
      (additions (some 98) (some 0x1E) devices)
      (cons_getc2 (some 98) (some 0x1E) devices)
cons_getc2-order_example =
    cons_getc2-order (some 98) (some 0x1E) [] devices fresh-Holds (omega arith)

cons_getc2_runs :
    ((e : Devices) × (cons_getc2 (some 98) none devices ≡ some (0, e)))
    × ((e : Devices) × (cons_getc2 (some 98) (some 0x1E) devices ≡ some (98, e)))
unfolding cons_getc2 poll_serial poll_kbd cons_take kbd_proc_data normalmap cons_put
cons_getc2_runs = ((_, refl), (_, refl))

-- The second poll brings a key.
getchar_run : (e : Devices) × (getchar (([], []) ∷ ([], 0x1E ∷ []) ∷ []) devices ≡ some (97, e))
unfolding getchar cons_getc cons_take kbd_all kbd_proc_data normalmap cons_put
getchar_run = (_, refl)
