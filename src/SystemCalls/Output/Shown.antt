-- ===== src/SystemCalls/Output/Shown.antt =====
-- The text of a user program on the console.
use fos_simple_os.Prelude.{
  ℕ, ◌+◌, ◌%◌, ◌<◌, ◌≤◌, ◌≡◌, refl, sym, ap, subst, ◌∙◌, List, [], ◌∷◌, ◌++◌, false, ==_ne, some,
  length, take, map, All, append-All, NotIn, arith, u32, lt→ltb,
}
use fos_simple_os.Printing.{Arg, chars, char_int, printfmt}
use fos_simple_os.Printing.Console.{cprintf, vcprintf}
use fos_simple_os.Strings.Text.{before_nul}
use fos_simple_os.Printing.Console.Bounded.{bounded_text}
use fos_simple_os.Printing.Console.Chunks.{concat, AreShort, vcprintf-prints}
use fos_simple_os.Console.Screen.{Screen, crt_size, cputchars}
use fos_simple_os.Console.Screen.Typing.{IsPlain, Shows, cputchars-Shows}
use fos_simple_os.SystemCalls.Output.{Caller, print_name, sys_cputs, make_calls, user_cprintf}

take_before : (l r : List ℕ) → NotIn 0 l → take (length l) (before_nul (l ++ r)) ≡ l
take_before [] r h = refl
take_before (c ∷ l) r h =
    rw (take, before_nul, ==_ne c 0 h.0) (ap (λ t. c ∷ t) (take_before l r h.1))

AreAscii : List ℕ → Type 0
AreAscii = All (λ c. c < 128)

ascii_ints : (l : List ℕ) → AreAscii l → map char_int l ≡ l
unfolding AreAscii
ascii_ints [] h = refl
ascii_ints (c ∷ l) h = rw (lt→ltb c 128 h.0) (ap (λ t. c ∷ t) (ascii_ints l h.1))

sys_cputs_text :
    (e : Caller) (call r : List ℕ)
    → NotIn 0 call
    → AreAscii call
    → length call ≤ 255
    → sys_cputs e (call ++ r) (length call) false ≡ some call
unfolding sys_cputs print_name
sys_cputs_text e call r h a le =
    rw
      (
        sys_cputs,
        bounded_text (length call) (before_nul (call ++ r)) (omega arith),
        take_before call r h,
        ascii_ints call a,
      )
      refl

make_calls_text :
    (e : Caller) (behind : List ℕ → List ℕ) (calls : List (List ℕ))
    → NotIn 0 (concat calls)
    → AreAscii (concat calls)
    → AreShort calls
    → make_calls e behind false calls ≡ some (concat calls)
unfolding make_calls AreAscii
make_calls_text e behind [] h a s = refl
make_calls_text e behind (call ∷ calls) h a s =
    let (now, later) = append-All _ call (concat calls) h in
    let (ascii, later_ascii) = append-All _ call (concat calls) a in
    rw
      (
        make_calls,
        sys_cputs_text e call (behind call) now ascii s.0,
        make_calls_text e behind calls later later_ascii s.1,
      )
      refl

bytes_plain : (l : List ℕ) → All IsPlain l → map (λ ch. ch % 256) l ≡ l
bytes_plain [] h = refl
bytes_plain (c ∷ l) h =
    ap (λ b. b ∷ map (λ ch. ch % 256) l) (omega (arith, h.0.byte))
    ∙ ap (λ t. c ∷ t) (bytes_plain l h.1)

cprintf_chars :
    (fmt : List ℕ) (args : List Arg) (l : List ℕ)
    → printfmt fmt args ≡ chars l
    → cprintf fmt args ≡ some (vcprintf l)
unfolding cprintf
cprintf_chars fmt args l e = rw (cprintf, e) refl

-- atomic_cprintf of a user program whose format prints a text of plain ASCII characters without NUL, which
-- ends in front of the last cell of the display: through the buffer, the system calls and printfmt of
-- the kernel, the text stands on the display from the cursor on, whatever memory holds behind the
-- buffer, and the result is its length as a word.
pub atomic_cprintf-Shows :
    (e : Caller) (behind : List ℕ → List ℕ) (fmt : List ℕ) (args : List Arg) (l : List ℕ)
    (s : Screen)
    → printfmt fmt args ≡ chars l
    → All IsPlain l
    → NotIn 0 l
    → All (λ c. c < 128) l
    → s.crt_pos + length l < crt_size
    → (user_cprintf e behind false fmt args ≡ some (l, u32 (length l))) × Shows l s (cputchars l s)
unfolding user_cprintf AreAscii
atomic_cprintf-Shows e behind fmt args l s p h z a lt =
    let (printed, short, count) = vcprintf-prints l in
    let text : concat (vcprintf l).0 ≡ l = printed ∙ bytes_plain l h in
    let sent : make_calls e behind false (vcprintf l).0 ≡ some (concat (vcprintf l).0) =
      make_calls_text e behind (vcprintf l).0 (subst (NotIn 0) (sym text) z)
        (subst AreAscii (sym text) a) short in
    (
      rw (user_cprintf, cprintf_chars fmt args l p, sent, text, count) refl,
      cputchars-Shows l s h lt,
    )
