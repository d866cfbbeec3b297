-- ===== src/Console/Poll/Waits.antt =====
-- What cons_getc2 of PROJECT_template/kern/console.c returns, and when.
use fos_simple_os.Prelude.{
  ℕ, ◌+◌, ◌%◌, ◌<◌, ◌≡◌, ◌≢◌, refl, sym, ap, subst, ◌∙◌, ◌⊎◌, List, [], ◌∷◌, ◌++◌, ◌==◌, ==_ne,
  Bool, true, false, Option, none, some, length, length-append, arith, append_assoc, append-nil,
  eq_or_ne, inl, inr,
}
use fos_simple_os.Console.Input.{cons_buf_size, next_pos, cons_put, cons_intr}
use fos_simple_os.Console.Input.Fifo.{Holds, typed, intr-Holds, rest-Holds, typed_short}
use fos_simple_os.Console.Keyboard.{kbd_proc_data}
use fos_simple_os.Console.Poll.{Devices, serial_intr, grab, poll_serial, poll_kbd, cons_getc2}
use fos_simple_os.Console.Poll.Order.{heard, Heard, serial-Heard, grab_next}

-- What one poll of each device brings.
abbrev pub polled_bytes : Option ℕ → List ℕ
polled_bytes none = []
polled_bytes (some byte) = byte ∷ []

abbrev pub polled_keys : Option ℕ → Devices → List ℕ
polled_keys none d = []
polled_keys (some scan) d = (kbd_proc_data scan d.kbd).0 ∷ []

-- What they add to the unread characters, the serial port first.
abbrev pub additions : Option ℕ → Option ℕ → Devices → List ℕ
additions byte scan d =
    typed (heard d.serial_exists (polled_bytes byte)) ++ typed (polled_keys scan d)

poll_serial_lem :
    (byte : Option ℕ) (d : Devices) → poll_serial byte d ≡ serial_intr (polled_bytes byte) d
unfolding poll_serial serial_intr cons_intr
poll_serial_lem none d = ground arith
poll_serial_lem (some byte) d = refl

one_short : (byte : Option ℕ) (b : Bool) → length (typed (heard b (polled_bytes byte))) < 2
one_short none true = omega arith
one_short none false = omega arith
one_short (some byte) true = typed_short byte
one_short (some byte) false = omega arith

typed_key : (c : ℕ) → c ≢ 0 → typed (c ∷ []) ≡ c % 256 ∷ []
typed_key c n = rw (==_ne c 0 n) refl

typed_none : (c : ℕ) → c ≡ 0 → typed (c ∷ []) ≡ []
typed_none c e = rw (ap (λ n. n == 0) e) refl

first_of : (l : List ℕ) (x : ℕ) → (c : ℕ) × (r : List ℕ) × (l ++ x ∷ [] ≡ c ∷ r)
first_of [] x = (x, [], refl)
first_of (c ∷ l) x = (c, l ++ x ∷ [], refl)

-- How cons_getc2 ends, with the characters `q` unread that came before it and in it: without a
-- character from the keyboard it returns 0 and all of `q` stays unread, and else it returns the first
-- of them.
abbrev pub EndsOn : List ℕ → List ℕ → Option (ℕ × Devices) → Type 0
EndsOn keys q o =
    (e : Devices) × (((keys ≡ []) × (o ≡ some (0, e)) × Holds e.cons q)
      ⊎ ((c : ℕ) × (r : List ℕ) × (keys ≢ []) × (q ≡ c ∷ r) × (o ≡ some (c, e)) × Holds e.cons r))

-- The state behind the code of a key.
abbrev keyed : ℕ → Devices → Devices
keyed scan d =
    let (c, k) = kbd_proc_data scan d.kbd in record d { cons = cons_put c d.cons; kbd = k }

getc2_keyed :
    (byte : Option ℕ) (scan : ℕ) (d : Devices)
    → cons_getc2 byte (some scan) d ≡ (
        let after : Devices = keyed scan (poll_serial byte d) in
        elim ((kbd_proc_data scan (poll_serial byte d).kbd).0 == 0) [
          | true ↦ some (0, after)
          | false ↦ grab after
        ])
unfolding cons_getc2 poll_kbd
getc2_keyed byte scan d = refl

keyed-Holds :
    (scan : ℕ) (q : List ℕ) (d : Devices)
    → Holds d.cons q
    → length q + 1 < cons_buf_size
    → Holds (keyed scan d).cons (q ++ typed ((kbd_proc_data scan d.kbd).0 ∷ []))
unfolding cons_intr
keyed-Holds scan q d h lt =
    let c : ℕ = (kbd_proc_data scan d.kbd).0 in
    intr-Holds (c ∷ []) d.cons q h (omega (arith, typed_short c, lt))

-- The end of cons_getc2 on a key, by its character.
ends :
    (c : ℕ) (q : List ℕ) (after : Devices)
    → Holds after.cons (q ++ typed (c ∷ []))
    → EndsOn
        (typed (c ∷ []))
        (q ++ typed (c ∷ []))
        (elim (c == 0) [ true ↦ some (0, after) | false ↦ grab after ])
ends c q after h = elim (eq_or_ne c 0) [
  | inl z ↦ (after, inl (typed_none c z, rw (ap (λ n. n == 0) z) refl, h))
  | inr n ↦
      let (x, r, e) = first_of q (c % 256) in
      let line : q ++ typed (c ∷ []) ≡ x ∷ r = ap (λ t. q ++ t) (typed_key c n) ∙ e in
      let h' : Holds after.cons (x ∷ r) = subst (Holds after.cons) line h in
      (
        record after { cons = record after.cons { rpos = next_pos after.cons.rpos } },
        inr (
          x,
          r,
          λ k. absurd (omega (arith, ap length (sym (typed_key c n) ∙ k))),
          line,
          rw (==_ne c 0 n) (grab_next x r after h'),
          rest-Holds after.cons x r h',
        ),
      )
]

-- The two polls, one behind the other.
serial_first :
    (byte : Option ℕ) (l : List ℕ) (d : Devices)
    → Holds d.cons l
    → length l + 2 < cons_buf_size
    → Heard (l ++ typed (heard d.serial_exists (polled_bytes byte))) d (poll_serial byte d)
serial_first byte l d h lt =
    subst (Heard (l ++ typed (heard d.serial_exists (polled_bytes byte))) d)
      (sym (poll_serial_lem byte d))
      (serial-Heard (polled_bytes byte) l d d.serial_exists refl h
        (omega (arith, one_short byte d.serial_exists, lt)))

getc2_none : (byte : Option ℕ) (d : Devices) → cons_getc2 byte none d ≡ some (0, poll_serial byte d)
unfolding cons_getc2 poll_kbd
getc2_none byte d = refl

-- Where at most 509 characters are unread, cons_getc2 puts the byte of the serial port, if it exists
-- and has one, and then the character of the keyboard, if there is one, behind them. Without a
-- character from the keyboard it returns 0 and leaves all of them unread; with one it returns the
-- first of them, and the others stay unread in order.
pub cons_getc2-order :
    (byte scan : Option ℕ) (l : List ℕ) (d : Devices)
    → Holds d.cons l
    → length l + 2 < cons_buf_size
    → EndsOn (typed (polled_keys scan d)) (l ++ additions byte scan d) (cons_getc2 byte scan d)
cons_getc2-order byte none l d h lt =
    let first : List ℕ = typed (heard d.serial_exists (polled_bytes byte)) in
    let p : Devices = poll_serial byte d in
    (
      p,
      inl (
        refl,
        getc2_none byte d,
        subst (Holds p.cons) (ap (λ t. l ++ t) (sym (append-nil first)))
            (serial_first byte l d h lt).holds,
      ),
    )
cons_getc2-order byte (some scan) l d h lt =
    let first : List ℕ = typed (heard d.serial_exists (polled_bytes byte)) in
    let p : Devices = poll_serial byte d in
    let s : Heard (l ++ first) d p = serial_first byte l d h lt in
    let c : ℕ = (kbd_proc_data scan p.kbd).0 in
    let same : typed (c ∷ []) ≡ typed (polled_keys (some scan) d) =
      ap (λ k. typed ((kbd_proc_data scan k).0 ∷ [])) s.kbd in
    let held : Holds (keyed scan p).cons ((l ++ first) ++ typed (c ∷ [])) =
      keyed-Holds scan (l ++ first) p s.holds
        (omega (arith, length-append l first, one_short byte d.serial_exists, lt)) in
    let o : Option (ℕ × Devices) = cons_getc2 byte (some scan) d in
    subst (λ q. EndsOn (typed (polled_keys (some scan) d)) q o)
      (append_assoc l first (typed (polled_keys (some scan) d)))
      (subst (λ k. EndsOn k ((l ++ first) ++ k) o) same
        (subst (EndsOn (typed (c ∷ [])) ((l ++ first) ++ typed (c ∷ [])))
          (sym (getc2_keyed byte scan d)) (ends c (l ++ first) (keyed scan p) held)))
