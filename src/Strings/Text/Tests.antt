-- ===== src/Strings/Text/Tests.antt =====
-- The functions on strings at concrete texts.
use fos_simple_os.Prelude.{ℕ, ◌-◌, ◌^◌, ◌≡◌, ◌↔◌, refl, [], none, some, codes, arith}
use fos_simple_os.Strings.Text.{strnlen, strncpy, strcmp, strncmp, strchr, strfind, memfind, strtol}
use fos_simple_os.Strings.Text.Compare.{strcmp-equal}

abbrev zeroed : ℕ → ℕ
zeroed p = 0

searches_run :
    (strncmp (codes "abc") (codes "abd") 2 ≡ 0)
    × (strnlen (codes "abc") 2 ≡ 2)
    × (strchr (codes "abca") b'c' ≡ some 2)
    × (strchr (codes "ab") 0 ≡ none)
    × (strfind (codes "ab") b'x' ≡ 2)
    × (memfind zeroed 10 0 5 ≡ 10)
    × (strncpy zeroed 0 (codes "ab") 1 0 ≡ b'a')
unfolding strncmp strnlen strchr strfind memfind strncpy
searches_run = (refl, refl, refl, refl, refl, refl, refl)

numbers_run :
    (strtol (codes " -12x") 10 ≡ (2 ^ 32 - 12, codes "x"))
    × (strtol (codes "0x1F") 0 ≡ (31, []))
    × (strtol (codes "017") 0 ≡ (15, []))
unfolding strtol
numbers_run = (refl, refl, refl)

strcmp-equal_example : (strcmp (codes "ab") (codes "ac") ≡ 0) ↔ (codes "ab" ≡ codes "ac")
strcmp-equal_example =
    strcmp-equal (codes "ab") (codes "ac")
      (((λ e. absurd (omega arith)), omega arith), (((λ e. absurd (omega arith)), omega arith), tt))
      (((λ e. absurd (omega arith)), omega arith), (((λ e. absurd (omega arith)), omega arith), tt))
