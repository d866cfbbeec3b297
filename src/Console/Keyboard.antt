-- ===== src/Console/Keyboard.antt =====
-- The keyboard driver of PROJECT_template/kern/console.c. The word `shift` is the record of its seven
-- bits; no other bit of it is ever set.
pub mod Keys
pub mod Released
pub mod Deleting
use fos_simple_os.Prelude.{
  ℕ, zero, suc, ◌+◌, ◌-◌, ◌%◌, List, [], ◌∷◌, Bool, true, false, not, ◌&&◌, ◌||◌, ◌==◌, ltb, leb,
  if◌then◌else◌, codes,
}
use fos_simple_os.Strings.{store}
use fos_simple_os.Console.Screen.{Screen, cputchars}
use fos_simple_os.Console.Keyboard.Keys.{normalmap, shiftmap, ctlmap, key_del}

-- CTL, SHIFT, ALT, CAPSLOCK, NUMLOCK, SCROLLLOCK and E0ESC of `shift`
pub record Shift : Type 0 where
  pub ctl : Bool
  pub shift : Bool
  pub alt : Bool
  pub caps_lock : Bool
  pub num_lock : Bool
  pub scroll_lock : Bool
  pub e0_esc : Bool

-- What the driver reads and writes: `shift`, the display, and how often it has reset the machine.
pub record Kbd : Type 0 where
  pub flags : Shift
  pub screen : Screen
  pub reboots : ℕ

-- `shiftcode[scan]`, a test for each bit
abbrev pub is_ctl : ℕ → Bool
is_ctl scan = scan == 0x1D || scan == 0x9D

abbrev pub is_shift : ℕ → Bool
is_shift scan = scan == 0x2A || scan == 0x36

abbrev pub is_alt : ℕ → Bool
is_alt scan = scan == 0x38 || scan == 0xB8

-- `shift |= shiftcode[scan]; shift ^= togglecode[scan]`
abbrev pub pressed : ℕ → Shift → Shift
pressed scan f = record f {
  ctl = f.ctl || is_ctl scan;
  shift = f.shift || is_shift scan;
  alt = f.alt || is_alt scan;
  caps_lock = if scan == 0x3A then not f.caps_lock else f.caps_lock;
  num_lock = if scan == 0x45 then not f.num_lock else f.num_lock;
  scroll_lock = if scan == 0x46 then not f.scroll_lock else f.scroll_lock;
}

-- `shift &= ~(shiftcode[scan] | E0ESC)`
abbrev pub released : ℕ → Shift → Shift
released scan f = record f {
  ctl = f.ctl && not (is_ctl scan);
  shift = f.shift && not (is_shift scan);
  alt = f.alt && not (is_alt scan);
  e0_esc = false;
}

-- `charcode[shift & (CTL | SHIFT)][scan]`
abbrev pub charcode : Shift → ℕ → ℕ
charcode f scan = if f.ctl then ctlmap scan else if f.shift then shiftmap scan else normalmap scan

-- The change of case under CAPSLOCK
abbrev pub caps : Shift → ℕ → ℕ
caps f c =
    if f.caps_lock
    then if leb b'a' c && leb c b'z' then c - 32 else if leb b'A' c && leb c b'Z' then c + 32 else c
    else c

-- `(int) shift == NUMLOCK`
abbrev pub only_num_lock : Shift → Bool
only_num_lock f =
    f.num_lock && not (f.ctl || f.shift || f.alt || f.caps_lock || f.scroll_lock || f.e0_esc)

-- The loop that moves `n` characters one cell to the left, from the cell `i`.
unfoldable pub pull : ℕ → ℕ → (ℕ → ℕ) → ℕ → ℕ
pull zero i b = b
pull (suc n) i b = pull n (i + 1) (store b i (b (i + 1)))

-- How many rounds the loop has: those for the cells from the cursor to the cell 1925 + `text_length`.
abbrev pub pulled : ℕ → ℕ → ℕ
pulled text_length crt_pos = text_length + 1925 + 1 - crt_pos

-- The branch for KEY_DEL: what it returns, and the display.
unfoldable pub delete : Screen → ℕ × Screen
delete s =
    if ltb 0 s.text_length && not (s.crt_pos == 1920 + s.text_length)
    then (
      key_del,
      record s {
        text_length = s.text_length - 1;
        crt_buf = pull (pulled (s.text_length - 1) s.crt_pos) s.crt_pos s.crt_buf;
      },
    )
    else (0, s)

-- The branches behind KEY_DEL, with the character that the tables gave.
unfoldable pub special : ℕ → Kbd → ℕ × Kbd
special c k =
    if only_num_lock k.flags && leb b'0' c && leb c b'9' || c == 255
    then (0, k)
    else if k.flags.ctl && k.flags.alt && c == key_del
    then (
      c,
      record k { screen = cputchars (codes "Rebooting!\n") k.screen; reboots = k.reboots + 1 },
    )
    else (c, k)

-- A code that is not a release, behind the escape code.
unfoldable pub key_pressed : ℕ → Kbd → ℕ × Kbd
unfolding delete special
key_pressed scan k =
    let f : Shift = pressed scan k.flags in
    let c : ℕ = charcode f scan in
    elim (c == key_del) [
      | true ↦ ((delete k.screen).0, record k { flags = f; screen = (delete k.screen).1 })
      | false ↦ special (caps f c) (record k { flags = f })
    ]

-- `kbd_proc_data` on a code that the controller has: the character, or 0, and the new state.
unfoldable pub kbd_proc_data : ℕ → Kbd → ℕ × Kbd
unfolding key_pressed
kbd_proc_data scan k =
    let f : Shift = k.flags in
    elim (scan == 0xE0) [
      | true ↦ (0, record k { flags = record f { e0_esc = true } })
      | false ↦ elim (leb 0x80 scan) [
        | true ↦ (0, record k { flags = released (if f.e0_esc then scan else scan - 0x80) f })
        | false ↦
            if f.e0_esc
            then key_pressed (scan + 0x80) (record k { flags = record f { e0_esc = false } })
            else key_pressed scan k
      ]
    ]
