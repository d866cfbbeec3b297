-- ===== src/Console/Keyboard/Released.antt =====
-- Keys that are pressed and released again, and the resets of the machine.
use fos_simple_os.Prelude.{
  ℕ, ◌+◌, ◌<◌, ◌≡◌, refl, ap, ◌∙◌, Bool, true, false, not, ◌==◌, if◌then◌else◌, arith,
}
use fos_simple_os.Console.Keyboard.{
  Shift, Kbd, pressed, released, charcode, caps, special, key_pressed, kbd_proc_data,
}
use fos_simple_os.Console.Keyboard.Keys.{key_del}

-- Both codes of a key, without the escape code.
abbrev pub stroke : ℕ → Kbd → Kbd
stroke scan k = (kbd_proc_data (scan + 0x80) (kbd_proc_data scan k).1).1

-- No modifier key is held down.
pub record IsIdle (f : Shift) : Type 0 where
  pub ctl : f.ctl ≡ false
  pub shift : f.shift ≡ false
  pub alt : f.alt ≡ false
  pub e0_esc : f.e0_esc ≡ false

-- The locks that the code of a key turns.
abbrev pub turned : ℕ → Shift → Shift
turned scan f = record f {
  caps_lock = if scan == 0x3A then not f.caps_lock else f.caps_lock;
  num_lock = if scan == 0x45 then not f.num_lock else f.num_lock;
  scroll_lock = if scan == 0x46 then not f.scroll_lock else f.scroll_lock;
}

special-flags : (c : ℕ) (k : Kbd) → (special c k).1.flags ≡ k.flags
unfolding special
special-flags c k = ground arith

-- The branches of the test for KEY_DEL.
on_del :
    (P : ℕ × Kbd → Type 0) (b : Bool) {x y : ℕ × Kbd}
    → P x
    → (b ≡ false → P y)
    → P (elim b [ true ↦ x | false ↦ y ])
on_del P true h k = h
on_del P false h k = k refl

key_pressed-flags : (scan : ℕ) (k : Kbd) → (key_pressed scan k).1.flags ≡ pressed scan k.flags
unfolding key_pressed
key_pressed-flags scan k =
    let f : Shift = pressed scan k.flags in
    on_del (λ r. r.1.flags ≡ f) (charcode f scan == key_del) refl
      (λ n. special-flags (caps f (charcode f scan)) (record k { flags = f }))

press-flags :
    (scan : ℕ) (k : Kbd)
    → scan < 0x80
    → k.flags.e0_esc ≡ false
    → (kbd_proc_data scan k).1.flags ≡ pressed scan k.flags
unfolding kbd_proc_data
press-flags scan k h e = ground (arith, key_pressed-flags scan k)

release-flags :
    (scan : ℕ) (k : Kbd)
    → scan < 0x60
    → k.flags.e0_esc ≡ false
    → (kbd_proc_data (scan + 0x80) k).1.flags ≡ released scan k.flags
unfolding kbd_proc_data
release-flags scan k h e = ground arith

released-pressed :
    (scan : ℕ) (f : Shift) → scan < 0x60 → IsIdle f → released scan (pressed scan f) ≡ turned scan f
released-pressed scan f lt h = ground arith

-- From no modifier held down, a key that is pressed and released leaves no modifier held down, and
-- turns the lock that is its own, if it is a lock.
pub stroke-turned :
    (scan : ℕ) (k : Kbd)
    → scan < 0x60
    → IsIdle k.flags
    → (stroke scan k).flags ≡ turned scan k.flags
stroke-turned scan k lt h =
    let p : (kbd_proc_data scan k).1.flags ≡ pressed scan k.flags =
      press-flags scan k (omega arith) h.e0_esc in
    release-flags scan (kbd_proc_data scan k).1 lt (ap (λ f. f.e0_esc) p ∙ h.e0_esc)
    ∙ ap (released scan) p
    ∙ released-pressed scan k.flags lt h

special-reboots : (c : ℕ) (k : Kbd) → (c == key_del) ≡ false → (special c k).1.reboots ≡ k.reboots
unfolding special
special-reboots c k n = ground arith

caps_del : (f : Shift) (c : ℕ) → (c == key_del) ≡ false → (caps f c == key_del) ≡ false
caps_del f c n = ground arith

key_pressed-reboots : (scan : ℕ) (k : Kbd) → (key_pressed scan k).1.reboots ≡ k.reboots
unfolding key_pressed
key_pressed-reboots scan k =
    let f : Shift = pressed scan k.flags in
    on_del (λ r. r.1.reboots ≡ k.reboots) (charcode f scan == key_del) refl
      (λ n.
        special-reboots (caps f (charcode f scan)) (record k { flags = f })
          (caps_del f (charcode f scan) n))

-- No code from the keyboard resets the machine, in any state of the modifiers.
pub kbd-reboots : (scan : ℕ) (k : Kbd) → (kbd_proc_data scan k).1.reboots ≡ k.reboots
unfolding kbd_proc_data
kbd-reboots scan k = ground (
  arith,
  key_pressed-reboots scan k,
  key_pressed-reboots (scan + 0x80) (record k { flags = record k.flags { e0_esc = false } }),
)
