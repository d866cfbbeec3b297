-- ===== src/Printing/Console/Tests.antt =====
-- cprintf and readline at concrete texts.
use fos_simple_os.Prelude.{ℕ, ◌≡◌, refl, List, [], ◌∷◌, some, codes}
use fos_simple_os.Strings.Text.Copy.{Outside}
use fos_simple_os.Printing.{int, escape, switch}
use fos_simple_os.Printing.Console.{cprintf, kernel_cprintf, readline}
use fos_simple_os.Printing.Console.Line.{memory_of, readline-bounds}

-- The kernel returns 0 for the same text.
cprintf_run :
    (cprintf (codes "n=%d") (int 7 ∷ []) ≡ some (codes "n=7" ∷ [], 3))
    × (kernel_cprintf (codes "n=%d") (int 7 ∷ []) ≡ some (codes "n=7", 0))
unfolding cprintf kernel_cprintf escape switch
cprintf_run = (refl, refl)

abbrev before : ℕ → ℕ
before p = 1

-- "ab", a backspace, "c" and a newline.
abbrev keys : List ℕ
keys = b'a' ∷ b'b' ∷ 8 ∷ b'c' ∷ 10 ∷ []

readline-bounds_example : Outside before (memory_of (readline before 500 0 keys)) 500 1024
readline-bounds_example = readline-bounds before 500 keys

readline_run :
    (memory_of (readline before 500 0 keys) 500 ≡ b'a')
    × (memory_of (readline before 500 0 keys) 501 ≡ b'c')
    × (memory_of (readline before 500 0 keys) 502 ≡ 0)
unfolding readline
readline_run = (refl, refl, refl)
