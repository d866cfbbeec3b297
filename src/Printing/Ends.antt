-- ===== src/Printing/Ends.antt =====
-- vprintfmt ends: the fuel of printfmt is enough.
use fos_simple_os.Prelude.{
  ℕ, zero, suc, ◌+◌, ◌-◌, ◌*◌, ◌≤◌, ◌≡◌, refl, sym, ◌∙◌, List, [], ◌∷◌, Bool, true, false, ◌&&◌,
  if◌then◌else◌, ◌==◌, ltb, leb, Option, some, length, arith,
}
use fos_simple_os.Printing.{
  Arg, int, text, Printed, chars, bad_argument, out_of_fuel, then_print, Spec, Step, printed,
  no_escape, wrong_argument, Round, reswitch, finish, read_width, process_precision, with_int,
  with_text, with_error, star, convert, switch, escape,
}

-- What is left of a format of at most `n` characters.
LeftOf : ℕ → Step → Type 0
LeftOf n (printed out fmt args) = length fmt ≤ n
LeftOf n (no_escape args) = Unit
LeftOf n wrong_argument = Unit

RoundLeft : ℕ → Round → Type 0
unfolding LeftOf
RoundLeft n (reswitch s fmt args) = length fmt ≤ n
RoundLeft n (finish step) = LeftOf n step

read_width-shortens : (acc : ℕ) (fmt : List ℕ) → length (read_width acc fmt).1 ≤ length fmt
unfolding read_width
read_width-shortens acc [] = omega arith
read_width-shortens acc (ch ∷ fmt) = ground (arith, read_width-shortens (acc * 10 + (ch - 48)) fmt)

with_int-LeftOf :
    (fmt : List ℕ) (args : List Arg) (show : ℕ → List ℕ)
    → LeftOf (length fmt) (with_int fmt args show)
unfolding LeftOf
with_int-LeftOf fmt [] show = tt
with_int-LeftOf fmt (int n ∷ args) show = omega arith
with_int-LeftOf fmt (text p ∷ args) show = tt

with_error-LeftOf : (fmt : List ℕ) (args : List Arg) → LeftOf (length fmt) (with_error fmt args)
unfolding with_error LeftOf
with_error-LeftOf fmt [] = tt
with_error-LeftOf fmt (int n ∷ args) = ground arith
with_error-LeftOf fmt (text p ∷ args) = tt

with_text-LeftOf :
    (fmt : List ℕ) (args : List Arg) (show : Option (List ℕ) → List ℕ)
    → LeftOf (length fmt) (with_text fmt args show)
unfolding LeftOf
with_text-LeftOf fmt [] show = tt
with_text-LeftOf fmt (int n ∷ args) show = tt
with_text-LeftOf fmt (text p ∷ args) show = omega arith

star-RoundLeft :
    (s : Spec) (fmt : List ℕ) (args : List Arg) → RoundLeft (length fmt) (star s fmt args)
unfolding RoundLeft LeftOf
star-RoundLeft s fmt [] = tt
star-RoundLeft s fmt (int n ∷ args) = omega arith
star-RoundLeft s fmt (text p ∷ args) = tt

-- Both results of a test have the property.
either {ℓ κ} :
    {A : Type ℓ} (P : A → Type κ) (b : Bool) {x y : A} → P x → P y → P (if b then x else y)
either P true hx hy = hx
either P false hx hy = hy

printed-LeftOf :
    (fmt : List ℕ) (out : List ℕ) (args : List Arg) → LeftOf (length fmt) (printed out fmt args)
unfolding LeftOf
printed-LeftOf fmt out args = omega arith

no_escape-LeftOf : (n : ℕ) (args : List Arg) → LeftOf n (no_escape args)
unfolding LeftOf
no_escape-LeftOf n args = tt

reswitch-RoundLeft :
    (s : Spec) (fmt : List ℕ) (args : List Arg) → RoundLeft (length fmt) (reswitch s fmt args)
unfolding RoundLeft
reswitch-RoundLeft s fmt args = omega arith

convert-LeftOf :
    (s : Spec) (ch : ℕ) (fmt : List ℕ) (args : List Arg)
    → LeftOf (length fmt) (convert s ch fmt args)
unfolding convert
convert-LeftOf s ch fmt args =
    let P : Step → Type 0 = LeftOf (length fmt) in
    either P (ch == b'c') (with_int-LeftOf fmt args _) (
      either P (ch == b'e') (with_error-LeftOf fmt args) (
        either P (ch == b's') (with_text-LeftOf fmt args _) (
          either P (ch == b'd') (with_int-LeftOf fmt args _) (
            either P (ch == b'u') (with_int-LeftOf fmt args _) (
              either P (ch == b'o') (printed-LeftOf fmt _ args) (
                either P (ch == b'p') (with_int-LeftOf fmt args _) (
                  either P (ch == b'x') (with_int-LeftOf fmt args _) (
                    either P (ch == b'%') (printed-LeftOf fmt _ args)
                      (no_escape-LeftOf _ args)))))))))

finish-RoundLeft : (n : ℕ) (step : Step) → LeftOf n step → RoundLeft n (finish step)
unfolding RoundLeft
finish-RoundLeft n step h = h

read-RoundLeft :
    (s : Spec) (ch : ℕ) (fmt : List ℕ) (args : List Arg)
    → RoundLeft (length fmt) (
        reswitch
          (process_precision s (some (read_width (ch - b'0') fmt).0))
          (read_width (ch - b'0') fmt).1
          args)
unfolding RoundLeft
read-RoundLeft s ch fmt args = read_width-shortens (ch - b'0') fmt

switch-RoundLeft :
    (s : Spec) (ch : ℕ) (fmt : List ℕ) (args : List Arg)
    → RoundLeft (length fmt) (switch s ch fmt args)
unfolding switch
switch-RoundLeft s ch fmt args =
    let P : Round → Type 0 = RoundLeft (length fmt) in
    let same : (s' : Spec) → P (reswitch s' fmt args) = λ s'. reswitch-RoundLeft s' fmt args in
    either P (ch == b'-') (same _) (
      either P (ch == b'0') (same _) (
        either P (ltb b'0' ch && leb ch b'9') (read-RoundLeft s ch fmt args) (
          either P (ch == b'*') (star-RoundLeft s fmt args) (
            either P (ch == b'.') (same _) (
              either P (ch == b'#') (same _) (
                either P (ch == b'l') (same _)
                  (finish-RoundLeft _ _ (convert-LeftOf s ch fmt args))))))))

abbrev go_on : (Spec → List ℕ → List Arg → Step) → Round → Step
go_on f (reswitch s fmt args) = f s fmt args
go_on f (finish step) = step

escape-round :
    (fuel : ℕ) (s : Spec) (ch : ℕ) (fmt : List ℕ) (args : List Arg)
    → escape (suc fuel) s (ch ∷ fmt) args ≡ go_on (escape fuel) (switch s ch fmt args)
unfolding escape
escape-round fuel s ch fmt args = cases (switch s ch fmt args)
  where
    cases :
        (r : Round)
        → (elim r [ reswitch s' fmt' args' ↦ escape fuel s' fmt' args' | finish step ↦ step ])
          ≡ go_on (escape fuel) r
    cases (reswitch s' fmt' args') = refl
    cases (finish step) = refl

go_on-fuel :
    (fuel more n : ℕ)
    → ((s : Spec) (fmt : List ℕ) (args : List Arg)
        → length fmt ≤ n
        → escape fuel s fmt args ≡ escape more s fmt args)
    → (r : Round) → RoundLeft n r
    → go_on (escape fuel) r ≡ go_on (escape more) r
unfolding RoundLeft
go_on-fuel fuel more n h (reswitch s fmt args) le = h s fmt args le
go_on-fuel fuel more n h (finish step) le = refl

-- More fuel than the format is long does not change an escape.
escape-fuel :
    (fuel more : ℕ) (s : Spec) (fmt : List ℕ) (args : List Arg)
    → length fmt ≤ fuel
    → length fmt ≤ more
    → escape fuel s fmt args ≡ escape more s fmt args
unfolding escape
escape-fuel zero zero s fmt args h k = refl
escape-fuel zero (suc more) s [] args h k = refl
escape-fuel (suc fuel) zero s [] args h k = refl
escape-fuel (suc fuel) (suc more) s [] args h k = refl
escape-fuel zero (suc more) s (ch ∷ fmt) args h k = absurd (omega arith)
escape-fuel (suc fuel) zero s (ch ∷ fmt) args h k = absurd (omega arith)
escape-fuel (suc fuel) (suc more) s (ch ∷ fmt) args h k =
    escape-round fuel s ch fmt args
    ∙ go_on-fuel fuel more (length fmt)
        (λ s' fmt' args' le. escape-fuel fuel more s' fmt' args' (omega arith) (omega arith))
        (switch s ch fmt args) (switch-RoundLeft s ch fmt args)
    ∙ sym (escape-round more s ch fmt args)

-- What is left of a printing that the fuel was enough for.
abbrev Ended : Printed → Type 0
Ended (chars l) = Unit
Ended bad_argument = Unit
Ended out_of_fuel = ⊥

abbrev proceed : (List ℕ → List Arg → Printed) → List ℕ → Step → Printed
proceed f fmt (printed out fmt' args) = then_print out (f fmt' args)
proceed f fmt (no_escape args) = then_print (b'%' ∷ []) (f fmt args)
proceed f fmt wrong_argument = bad_argument
