-- ===== src/Console/Screen/Typing.antt =====
-- Where the characters of a text stand on the display.
use fos_simple_os.Prelude.{
  ℕ, zero, suc, ◌+◌, ◌<◌, ◌≤◌, ◌≡◌, ◌≢◌, refl, sym, ap, subst, ◌∙◌, List, [], ◌∷◌, ◌++◌, All,
  length, get_elem?, some, arith, append_assoc, append-nil, ◌⊎◌, inl, inr, some-injective,
}
use fos_simple_os.Strings.{store}
use fos_simple_os.Strings.Text.Copy.{store_ne, store_self}
use fos_simple_os.Console.Screen.{
  Screen, crt_size, attributed, put_cell, cga_switch, scroll, lpt_putc, cga_with, cga_putc,
  tab_spaces, cons_putc, cputchars,
}

-- A byte that no case of `cga_putc` singles out.
pub record IsPlain (c : ℕ) : Type 0 where
  pub byte : c < 256
  pub not_backspace : c ≢ 8
  pub not_tab : c ≢ 9
  pub not_newline : c ≢ 10
  pub not_return : c ≢ 13
  pub not_left : c ≢ 228
  pub not_right : c ≢ 229

-- One plain character in front of the last cell.
record Types (c : ℕ) (s t : Screen) : Type 0 where
  cell : t.crt_buf ≡ store s.crt_buf s.crt_pos (c + 0x700)
  moved : t.crt_pos ≡ s.crt_pos + 1
  printed : t.printer ≡ s.printer ++ c ∷ []

switch_plain :
    (tab : Screen → Screen) (c : ℕ) (s : Screen)
    → IsPlain c
    → cga_switch tab (attributed c) s ≡ put_cell (c + 0x700) s
unfolding cga_switch
switch_plain tab c s h = ground arith

put_cell_plain : (c : ℕ) (s : Screen) → c < 256 → (put_cell (c + 0x700) s).crt_pos ≡ s.crt_pos + 1
unfolding put_cell
put_cell_plain c s h = ground arith

put_cell_stores :
    (c : ℕ) (s : Screen)
    → c < 256
    → (put_cell (c + 0x700) s).crt_buf ≡ store s.crt_buf s.crt_pos (c + 0x700)
unfolding put_cell
put_cell_stores c s h = ground arith

put_cell_printer : (c : ℕ) (s : Screen) → (put_cell c s).printer ≡ s.printer
unfolding put_cell
put_cell_printer c s = ground arith

scroll_pass : (s : Screen) → s.crt_pos < crt_size → scroll s ≡ s
unfolding scroll
scroll_pass s h = ground arith

with_plain :
    (c : ℕ) (s : Screen)
    → IsPlain c
    → s.crt_pos + 1 < crt_size
    → cga_putc c s ≡ put_cell (c + 0x700) s
unfolding cga_putc cga_with
with_plain c s h lt =
    ap scroll (switch_plain tab_spaces c s h)
    ∙ scroll_pass (put_cell (c + 0x700) s) (omega (arith, put_cell_plain c s h.byte))

putc-Types : (c : ℕ) (s : Screen) → IsPlain c → s.crt_pos + 1 < crt_size → Types c s (cons_putc c s)
unfolding cons_putc lpt_putc
putc-Types c s h lt =
    let p : Screen = lpt_putc c s in
    subst (Types c s) (sym (with_plain c p h lt)) (record {
      cell = put_cell_stores c p h.byte;
      moved = put_cell_plain c p h.byte;
      printed =
          put_cell_printer (c + 0x700) p ∙ ap (λ b. s.printer ++ b ∷ []) (omega (arith, h.byte));
    })

-- A text stands on the display from the old cursor to the new one, white on black.
pub record Shows (l : List ℕ) (s : Screen) (t : Screen) : Type 0 where
  pub moved : t.crt_pos ≡ s.crt_pos + length l
  pub printed : t.printer ≡ s.printer ++ l
  pub cells : (i x : ℕ) → get_elem? l i ≡ some x → t.crt_buf (s.crt_pos + i) ≡ x + 0x700
  pub before : (q : ℕ) → q < s.crt_pos → t.crt_buf q ≡ s.crt_buf q
  pub after : (q : ℕ) → s.crt_pos + length l ≤ q → t.crt_buf q ≡ s.crt_buf q

Types-cell : (c : ℕ) (s t : Screen) → Types c s t → t.crt_buf s.crt_pos ≡ c + 0x700
Types-cell c s t h = ap (λ b. b s.crt_pos) h.cell ∙ store_self s.crt_buf s.crt_pos (c + 0x700)

Types-other :
    (c : ℕ) (s t : Screen) (q : ℕ)
    → Types c s t
    → (q < s.crt_pos) ⊎ (s.crt_pos + 1 ≤ q)
    → t.crt_buf q ≡ s.crt_buf q
Types-other c s t q h o = ap (λ b. b q) h.cell ∙ store_ne s.crt_buf s.crt_pos (c + 0x700) q o

Shows-cells :
    (c : ℕ) (l : List ℕ) (s t u : Screen)
    → Types c s t
    → Shows l t u
    → (i x : ℕ) → get_elem? (c ∷ l) i ≡ some x
    → u.crt_buf (s.crt_pos + i) ≡ x + 0x700
Shows-cells c l s t u h k zero x e =
    ap u.crt_buf (omega arith)
    ∙ k.before s.crt_pos (omega (arith, h.moved))
    ∙ Types-cell c s t h
    ∙ ap (λ n. n + 0x700) (some-injective c x e)
Shows-cells c l s t u h k (suc j) x e = ap u.crt_buf (omega (arith, h.moved)) ∙ k.cells j x e

Shows-cons : (c : ℕ) (l : List ℕ) (s t u : Screen) → Types c s t → Shows l t u → Shows (c ∷ l) s u
Shows-cons c l s t u h k = record {
  moved = omega (arith, h.moved, k.moved);
  printed = k.printed ∙ ap (λ r. r ++ l) h.printed ∙ append_assoc s.printer (c ∷ []) l;
  cells = Shows-cells c l s t u h k;
  before = λ q b. k.before q (omega (arith, h.moved)) ∙ Types-other c s t q h (inl b);
  after = λ q b. k.after q (omega (arith, h.moved)) ∙ Types-other c s t q h (inr (omega arith));
}

-- A text of plain characters that ends in front of the last cell of the display stands there in
-- order, each with the attribute 0x07, from the cursor on; the printer gets the same text, the cursor
-- is behind it, and every other cell is as it was.
pub cputchars-Shows :
    (l : List ℕ) (s : Screen)
    → All IsPlain l
    → s.crt_pos + length l < crt_size
    → Shows l s (cputchars l s)
unfolding cputchars
cputchars-Shows [] s h lt = record {
  moved = omega arith;
  printed = sym (append-nil s.printer);
  cells = λ i x e. absurd (cc);
  before = λ q b. refl;
  after = λ q b. refl;
}
cputchars-Shows (c ∷ l) s h lt =
    let p : Types c s (cons_putc c s) = putc-Types c s h.0 (omega (arith, lt)) in
    Shows-cons c l s (cons_putc c s) (cputchars l (cons_putc c s)) p
      (cputchars-Shows l (cons_putc c s) h.1 (omega (arith, lt, p.moved)))
