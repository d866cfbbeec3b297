-- ===== src/Printing/Console/Bounded.antt =====
-- What the kernel prints for "%.*s", and for a string of no more than the precision.
use fos_simple_os.Prelude.{
  ℕ, ◌-◌, ◌%◌, ◌^◌, ◌<◌, ◌≡◌, refl, List, [], ◌∷◌, true, ltb, some, take, map, length, append-nil,
  codes, arith,
}
use fos_simple_os.Printing.{int, text, char_int, printfmt, escape, switch}
use fos_simple_os.Printing.Console.{kernel_cprintf}

-- Of a string no more than the precision is printed, each `char` as an `int`.
pub bounded_text :
    (len : ℕ) (s : List ℕ)
    → len < 2 ^ 31
    → kernel_cprintf (codes "%.*s") (int len ∷ text (some s) ∷ [])
      ≡ some (map char_int (take len s), 0)
unfolding kernel_cprintf printfmt escape switch
bounded_text len s h =
    let word : len % 2 ^ 32 ≡ len = omega arith in
    let small : ltb len (2 ^ 31) ≡ true = ground arith in
    let none_left : 0 - length (take len s) ≡ 0 = omega arith in
    rw (word, small, none_left, append-nil (map char_int (take len s))) refl
