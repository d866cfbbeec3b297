-- ===== src/Printing/Tests.antt =====
-- Formats at concrete arguments.
use fos_simple_os.Prelude.{
  ℕ, ◌-◌, ◌^◌, ◌≡◌, refl, List, [], ◌∷◌, none, some, codes, length, map, u32, arith,
}
use fos_simple_os.Strings.Text.{strtol, before_nul, strlcpy}
use fos_simple_os.Printing.{int, text, chars, bad_argument, escape, switch, printfmt, vsnprintf}
use fos_simple_os.Printing.Numbers.{printfmt-strtol}
use fos_simple_os.Printing.Buffer.{byte, vsnprintf-strlcpy}

-- Flags, widths and precisions. A number with the flag '-' gets its padding on the left, and of '-'.
formats_run :
    (printfmt (codes "%5d|%-5d|%05x") (int 42 ∷ int 42 ∷ int 255 ∷ [])
      ≡ chars (codes "   42|---42|000ff"))
    × (printfmt
          (codes "%-4s|%4s|%.2s%%")
          (text (some (codes "ab")) ∷ text (some (codes "ab")) ∷ text none ∷ [])
        ≡ chars (codes "ab  |  ab|(n%"))
    × (printfmt (codes "%d %u %p") (int (2 ^ 32 - 5) ∷ int 5 ∷ int 4096 ∷ [])
        ≡ chars (codes "-5 5 0x1000"))
    × (printfmt (codes "%e %e") (int (2 ^ 32 - 4) ∷ int 11 ∷ [])
        ≡ chars (codes "out of memory error 11"))
    × (printfmt (codes "5%") [] ≡ chars (codes "5%"))
    × (printfmt (codes "%s") (int 3 ∷ []) ≡ bad_argument)
unfolding printfmt escape switch
formats_run = (refl, refl, refl, refl, refl, refl)

printfmt-strtol_example :
    (l : List ℕ) × (printfmt (codes "%d") (int 4000000000 ∷ []) ≡ chars l)
    × (strtol l 10 ≡ (u32 4000000000, []))
printfmt-strtol_example = printfmt-strtol 4000000000

abbrev memory : ℕ → ℕ
memory p = 7

printed_run : printfmt (codes "n=%d") (int 12345 ∷ []) ≡ chars (codes "n=12345")
unfolding printfmt escape switch
printed_run = refl

-- The buffer is too small for the text.
vsnprintf-strlcpy_example :
    vsnprintf memory 100 5 (codes "n=%d") (int 12345 ∷ [])
    ≡ some (
      (strlcpy memory 100 (before_nul (map byte (codes "n=12345"))) 5).0,
      u32 (length (codes "n=12345")),
    )
vsnprintf-strlcpy_example =
    vsnprintf-strlcpy memory 100 4 (codes "n=%d") (int 12345 ∷ []) (codes "n=12345") (omega arith)
      (omega arith) printed_run (ground arith)

-- Without a buffer, the result is 3.
vsnprintf_run : vsnprintf memory 0 5 (codes "abc") [] ≡ some (memory, 3)
unfolding vsnprintf
vsnprintf_run = refl

-- A byte from 128 on is printed as a negative `int`, and "%e" of the least `int` has no result.
signed_runs :
    (printfmt (codes "%s") (text (some (200 ∷ [])) ∷ []) ≡ chars ((2 ^ 32 - 56) ∷ []))
    × (printfmt (codes "%e") (int (2 ^ 31) ∷ []) ≡ bad_argument)
unfolding printfmt escape switch
signed_runs = (refl, refl)
