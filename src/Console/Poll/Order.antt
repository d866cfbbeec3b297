-- ===== src/Console/Poll/Order.antt =====
-- The order in which cons_getc returns what came.
use fos_simple_os.Prelude.{
  ℕ, ◌+◌, ◌<◌, ◌≡◌, refl, sym, ap, subst, ◌∙◌, List, [], ◌∷◌, ◌++◌, Bool, true, false, some, length,
  length-append, arith, append_assoc, append-nil,
}
use fos_simple_os.Console.Input.{cons_buf_size, next_pos}
use fos_simple_os.Console.Input.Fifo.{Holds, typed, intr-Holds, take_next, rest-Holds}
use fos_simple_os.Console.Poll.{Devices, kbd_all, serial_intr, kbd_intr, grab, cons_getc}

-- The bytes that come in, where there is a serial port.
abbrev pub heard : Bool → List ℕ → List ℕ
heard true bytes = bytes
heard false bytes = []

-- What the devices add to the unread characters, the serial port first.
abbrev pub arrivals : List ℕ → List ℕ → Devices → List ℕ
arrivals bytes scans d = typed (heard d.serial_exists bytes) ++ typed (kbd_all scans d.kbd).0

pub record Heard (l : List ℕ) (d : Devices) (e : Devices) : Type 0 where
  pub holds : Holds e.cons l
  pub kbd : e.kbd ≡ d.kbd

pub serial-Heard :
    (bytes : List ℕ) (l : List ℕ) (d : Devices) (b : Bool)
    → d.serial_exists ≡ b
    → Holds d.cons l
    → length l + length (typed (heard b bytes)) < cons_buf_size
    → Heard (l ++ typed (heard b bytes)) d (serial_intr bytes d)
unfolding serial_intr
serial-Heard bytes l d true e h lt =
    rw (serial_intr, e) (record { holds = intr-Holds bytes d.cons l h lt; kbd = refl })
serial-Heard bytes l d false e h lt =
    rw (serial_intr, e) (record { holds = subst (Holds d.cons) (sym (append-nil l)) h; kbd = refl })

kbd-Holds :
    (scans : List ℕ) (l : List ℕ) (d : Devices)
    → Holds d.cons l
    → length l + length (typed (kbd_all scans d.kbd).0) < cons_buf_size
    → Holds (kbd_intr scans d).cons (l ++ typed (kbd_all scans d.kbd).0)
unfolding kbd_intr
kbd-Holds scans l d h lt = intr-Holds (kbd_all scans d.kbd).0 d.cons l h lt

polled :
    (bytes scans l : List ℕ) (d : Devices)
    → Holds d.cons l
    → length l + length (arrivals bytes scans d) < cons_buf_size
    → Holds (kbd_intr scans (serial_intr bytes d)).cons (l ++ arrivals bytes scans d)
polled bytes scans l d h lt =
    let first : List ℕ = typed (heard d.serial_exists bytes) in
    let size : length (arrivals bytes scans d)
        ≡ length first + length (typed (kbd_all scans d.kbd).0) =
      length-append first _ in
    let s : Heard (l ++ first) d (serial_intr bytes d) =
      serial-Heard bytes l d d.serial_exists refl h (omega (arith, size, lt)) in
    let same : typed (kbd_all scans (serial_intr bytes d).kbd).0 ≡ typed (kbd_all scans d.kbd).0 =
      ap (λ k. typed (kbd_all scans k).0) s.kbd in
    subst (Holds (kbd_intr scans (serial_intr bytes d)).cons)
      (ap (λ r. (l ++ first) ++ r) same ∙ append_assoc l first _)
      (kbd-Holds scans (l ++ first) (serial_intr bytes d) s.holds
        (omega (arith, ap length same, length-append l first, size, lt)))

pub grab_next :
    (c : ℕ) (r : List ℕ) (d : Devices)
    → Holds d.cons (c ∷ r)
    → grab d ≡ some (c, record d { cons = record d.cons { rpos = next_pos d.cons.rpos } })
grab_next c r d h = rw (grab, take_next d.cons c r h) refl

-- Where fewer than 512 characters are unread with those that come, cons_getc returns the first of the
-- unread characters, the bytes of the serial port, if it exists, and the characters of the keyboard,
-- in this order, and the others stay unread in order.
pub cons_getc-order :
    (bytes scans l : List ℕ) (d : Devices) (c : ℕ) (r : List ℕ)
    → Holds d.cons l
    → length l + length (arrivals bytes scans d) < cons_buf_size
    → l ++ arrivals bytes scans d ≡ c ∷ r
    → (e : Devices) × (cons_getc bytes scans d ≡ some (c, e)) × Holds e.cons r
unfolding cons_getc
cons_getc-order bytes scans l d c r h lt e =
    let after : Devices = kbd_intr scans (serial_intr bytes d) in
    let k : Holds after.cons (c ∷ r) = subst (Holds after.cons) e (polled bytes scans l d h lt) in
    (
      record after { cons = record after.cons { rpos = next_pos after.cons.rpos } },
      grab_next c r after k,
      rest-Holds after.cons c r k,
    )
