-- ===== src/Console/Screen/Bounds.antt =====
-- The display keeps to its buffer.
use fos_simple_os.Prelude.{ℕ, ◌+◌, ◌<◌, ◌≤◌, ◌≡◌, refl, ◌∙◌, List, [], ◌∷◌, arith}
use fos_simple_os.Console.Screen.{
  Screen, crt_size, crt_cols, attributed, put_cell, backspace, cga_switch, scroll, lpt_putc,
  cga_with, put_space, tab_spaces, cga_putc, cons_putc, cputchars,
}

-- Between two characters the cursor is on the display, and of the line that is being typed no more
-- than a row is counted.
pub record IsOnScreen (s : Screen) : Type 0 where
  pub cursor : s.crt_pos < crt_size
  pub typed : s.text_length ≤ crt_cols

-- Before the display is scrolled: the cursor may stand behind it.
record IsNear (s : Screen) : Type 0 where
  cursor : s.crt_pos < crt_size + crt_cols
  typed : s.text_length ≤ crt_cols

-- The memory behind the buffer is the same.
abbrev pub Behind : Screen → Screen → Type 0
Behind s t = (q : ℕ) → crt_size ≤ q → t.crt_buf q ≡ s.crt_buf q

put_cell-IsNear : (c : ℕ) (s : Screen) → IsOnScreen s → IsNear (put_cell c s)
unfolding put_cell
put_cell-IsNear c s h = ground arith

backspace-IsNear : (c : ℕ) (s : Screen) → IsOnScreen s → IsNear (backspace c s)
unfolding backspace
backspace-IsNear c s h = ground arith

switch-IsNear :
    (tab : Screen → Screen) (c : ℕ) (s : Screen)
    → IsNear (tab s)
    → IsOnScreen s
    → IsNear (cga_switch tab c s)
unfolding cga_switch
switch-IsNear tab c s t h = ground (arith, put_cell-IsNear c s h, backspace-IsNear c s h)

scroll-IsOnScreen : (s : Screen) → IsNear s → IsOnScreen (scroll s)
unfolding scroll
scroll-IsOnScreen s h = ground arith

put_cell-Behind : (c : ℕ) (s : Screen) → IsOnScreen s → Behind s (put_cell c s)
unfolding put_cell
put_cell-Behind c s h q b = ground arith

backspace-Behind : (c : ℕ) (s : Screen) → IsOnScreen s → Behind s (backspace c s)
unfolding backspace
backspace-Behind c s h q b = ground arith

switch-Behind :
    (tab : Screen → Screen) (c : ℕ) (s : Screen)
    → Behind s (tab s)
    → IsOnScreen s
    → Behind s (cga_switch tab c s)
unfolding cga_switch
switch-Behind tab c s t h q b =
    ground (arith, put_cell-Behind c s h q b, backspace-Behind c s h q b, t q b)

scroll-Behind : (s : Screen) → Behind s (scroll s)
unfolding scroll
scroll-Behind s q b = ground arith

-- What one character keeps.
pub record Keeps (s : Screen) (t : Screen) : Type 0 where
  pub on_screen : IsOnScreen t
  pub behind : Behind s t

IsOnScreen-IsNear : (s : Screen) → IsOnScreen s → IsNear s
IsOnScreen-IsNear s h = record { cursor = omega (arith, h.cursor); typed = h.typed }

with-Keeps :
    (tab : Screen → Screen) (c : ℕ) (s : Screen)
    → Keeps s (tab s)
    → IsOnScreen s
    → Keeps s (cga_with tab c s)
unfolding cga_with
with-Keeps tab c s t h =
    let u : Screen = cga_switch tab (attributed c) s in
    record {
      on_screen =
          scroll-IsOnScreen u
            (switch-IsNear tab (attributed c) s (IsOnScreen-IsNear (tab s) t.on_screen) h);
      behind = λ q b. scroll-Behind u q b ∙ switch-Behind tab (attributed c) s t.behind h q b;
    }

lpt_putc-Keeps : (c : ℕ) (s : Screen) → IsOnScreen s → Keeps s (lpt_putc c s)
unfolding lpt_putc
lpt_putc-Keeps c s h = record {
  on_screen = record { cursor = h.cursor; typed = h.typed };
  behind = λ q b. refl;
}

Keeps-refl : (s : Screen) → IsOnScreen s → Keeps s s
Keeps-refl s h = record { on_screen = h; behind = λ q b. refl }

Keeps-then : {s t u : Screen} → Keeps s t → Keeps t u → Keeps s u
Keeps-then h k = record { on_screen = k.on_screen; behind = λ q b. k.behind q b ∙ h.behind q b }

space-Keeps : (s : Screen) → IsOnScreen s → Keeps s (put_space s)
unfolding put_space
space-Keeps s h =
    let p : Keeps s (lpt_putc b' ' s) = lpt_putc-Keeps b' ' s h in
    Keeps-then p (
      with-Keeps (λ t. t) b' ' (lpt_putc b' ' s) (Keeps-refl (lpt_putc b' ' s) p.on_screen)
        p.on_screen)

then_space : {s t : Screen} → Keeps s t → Keeps s (put_space t)
then_space {t = t} h = Keeps-then h (space-Keeps t h.on_screen)

cga_putc-Keeps : (c : ℕ) (s : Screen) → IsOnScreen s → Keeps s (cga_putc c s)
unfolding cga_putc
cga_putc-Keeps c s h =
    with-Keeps tab_spaces c s (then_space (then_space (then_space (then_space (space-Keeps s h)))))
      h

cons_putc-Keeps : (c : ℕ) (s : Screen) → IsOnScreen s → Keeps s (cons_putc c s)
unfolding cons_putc
cons_putc-Keeps c s h =
    let p : Keeps s (lpt_putc c s) = lpt_putc-Keeps c s h in
    Keeps-then p (cga_putc-Keeps c (lpt_putc c s) p.on_screen)

-- Whatever is printed, control characters included: from a cursor on the display the cursor ends on
-- the display, at most a row is counted as typed, and no cell behind the 2000 of the display is
-- written.
pub cputchars-Keeps : (cs : List ℕ) (s : Screen) → IsOnScreen s → Keeps s (cputchars cs s)
unfolding cputchars
cputchars-Keeps [] s h = Keeps-refl s h
cputchars-Keeps (c ∷ cs) s h =
    let p : Keeps s (cons_putc c s) = cons_putc-Keeps c s h in
    Keeps-then p (cputchars-Keeps cs (cons_putc c s) p.on_screen)
