-- ===== src/Strings/Text.antt =====
-- PROJECT_template/lib/string.c: the functions on strings. A string is the list of its characters
-- before the NUL, and a pointer into it is the list from there on, or its distance from the start.
pub mod Compare
pub mod Copy
pub mod Digits
mod Tests
use fos_simple_os.Prelude.{
  ℕ, zero, suc, ◌+◌, ◌-◌, ◌*◌, ◌%◌, List, [], ◌∷◌, Bool, true, false, ◌&&◌, ◌||◌, if◌then◌else◌,
  ◌==◌, leb, Option, none, some, ◌>>=◌, sub32, u32,
}
use fos_simple_os.Strings.{store}

-- The C string that memory holds: the characters before the first NUL.
abbrev pub before_nul : List ℕ → List ℕ
before_nul [] = []
before_nul (c ∷ cs) = let rest = before_nul cs in elim (c == 0) [ true ↦ [] | false ↦ c ∷ rest ]

pub strlen : List ℕ → ℕ
strlen [] = 0
strlen (c ∷ s) = suc (strlen s)

pub strnlen : List ℕ → ℕ → ℕ
strnlen s zero = 0
strnlen [] (suc size) = 0
strnlen (c ∷ s) (suc size) = suc (strnlen s size)

-- `strcpy`; the source does not overlap the destination.
pub strcpy : (ℕ → ℕ) → ℕ → List ℕ → ℕ → ℕ
strcpy m dst [] = store m dst 0
strcpy m dst (c ∷ s) = strcpy (store m dst c) (dst + 1) s

pub strncpy : (ℕ → ℕ) → ℕ → List ℕ → ℕ → ℕ → ℕ
strncpy m dst s zero = m
strncpy m dst [] (suc size) = strncpy (store m dst 0) (dst + 1) [] size
strncpy m dst (c ∷ s) (suc size) = strncpy (store m dst c) (dst + 1) s size

-- The body of `strlcpy` for a size that is not 0, from `--size` on: the memory, and `dst` at the end.
unfoldable pub copy_bounded : (ℕ → ℕ) → ℕ → List ℕ → ℕ → (ℕ → ℕ) × ℕ
copy_bounded m dst s zero = (store m dst 0, dst)
copy_bounded m dst [] (suc size) = (store m dst 0, dst)
copy_bounded m dst (c ∷ s) (suc size) = copy_bounded (store m dst c) (dst + 1) s size

unfoldable pub strlcpy : (ℕ → ℕ) → ℕ → List ℕ → ℕ → (ℕ → ℕ) × ℕ
unfolding copy_bounded
strlcpy m dst s zero = (m, 0)
strlcpy m dst s (suc size) = let (m1, last) = copy_bounded m dst s size in (m1, last - dst)

-- `strcmp`: the difference of the first characters that differ, as a word.
unfoldable pub strcmp : List ℕ → List ℕ → ℕ
strcmp [] [] = 0
strcmp [] (d ∷ q) = sub32 0 d
strcmp (c ∷ p) [] = c
strcmp (c ∷ p) (d ∷ q) = let rest = strcmp p q in if c == d then rest else sub32 c d

pub strncmp : List ℕ → List ℕ → ℕ → ℕ
strncmp p q zero = 0
strncmp [] [] (suc n) = 0
strncmp [] (d ∷ q) (suc n) = sub32 0 d
strncmp (c ∷ p) [] (suc n) = c
strncmp (c ∷ p) (d ∷ q) (suc n) = let rest = strncmp p q n in if c == d then rest else sub32 c d

-- `strchr`: the distance of the first `c`; `none` is the null pointer.
pub strchr : List ℕ → ℕ → Option ℕ
strchr [] c = none
strchr (d ∷ s) c = let rest = strchr s c in if d == c then some 0 else (rest >>= λ i. some (suc i))

pub strfind : List ℕ → ℕ → ℕ
strfind [] c = 0
strfind (d ∷ s) c = let rest = strfind s c in if d == c then 0 else suc rest

-- `memfind`: the address where it stops.
pub memfind : (ℕ → ℕ) → ℕ → ℕ → ℕ → ℕ
memfind m s c zero = s
memfind m s c (suc n) = let rest = memfind m (s + 1) c n in if m s == c % 256 then s else rest

-- `dig` in `strtol`; `none` where it leaves the loop.
pub digit_value : ℕ → Option ℕ
digit_value c =
    if leb b'0' c && leb c b'9'
    then some (c - b'0')
    else if leb b'a' c && leb c b'z'
    then some (c - b'a' + 10)
    else if leb b'A' c && leb c b'Z'
    then some (c - b'A' + 10)
    else none

-- The loop over the digits: `val` as a word, and `s`.
pub read_digits : ℕ → ℕ → List ℕ → ℕ × List ℕ
unfolding digit_value
read_digits base val [] = (val, [])
read_digits base val (c ∷ s) = elim (digit_value c) [
  | none ↦ (val, c ∷ s)
  | some dig ↦ elim (leb base dig) [
    | true ↦ (val, c ∷ s)
    | false ↦ read_digits base (u32 (val * base + dig)) s
  ]
]

abbrev pub skip_blanks : List ℕ → List ℕ
skip_blanks [] = []
skip_blanks (c ∷ s) = let rest = skip_blanks s in if c == b' ' || c == b'\t' then rest else c ∷ s

-- The sign: `neg`, and `s`.
abbrev pub read_sign : List ℕ → Bool × List ℕ
read_sign [] = (false, [])
read_sign (c ∷ s) =
    if c == b'+' then (false, s) else if c == b'-' then (true, s) else (false, c ∷ s)

-- The prefix of the base: `base`, and `s`.
abbrev pub read_prefix : ℕ → List ℕ → ℕ × List ℕ
read_prefix base [] = (if base == 0 then 10 else base, [])
read_prefix base (c ∷ []) =
    if base == 0 && c == b'0' then (8, []) else (if base == 0 then 10 else base, c ∷ [])
read_prefix base (c ∷ d ∷ s) =
    if (base == 0 || base == 16) && (c == b'0' && d == b'x')
    then (16, s)
    else if base == 0 && c == b'0'
    then (8, d ∷ s)
    else (if base == 0 then 10 else base, c ∷ d ∷ s)

-- `strtol`: the word, and `*endptr`.
pub strtol : List ℕ → ℕ → ℕ × List ℕ
unfolding read_digits
strtol s base =
    let (neg, unsigned) = read_sign (skip_blanks s) in
    let (actual, digits) = read_prefix base unsigned in
    let (val, end) = read_digits actual 0 digits in (if neg then sub32 0 val else val, end)

-- The loops of `strcconcat`: the characters without the NUL.
pub copy_characters : (ℕ → ℕ) → ℕ → List ℕ → ℕ → ℕ
copy_characters m final [] = m
copy_characters m final (c ∷ s) = copy_characters (store m final c) (final + 1) s

pub strcconcat : (ℕ → ℕ) → List ℕ → List ℕ → ℕ → ℕ → ℕ
unfolding strlen copy_characters
strcconcat m str1 str2 final =
    let m1 : ℕ → ℕ = copy_characters m final str1 in
    let m2 : ℕ → ℕ = copy_characters m1 (final + strlen str1) str2 in
    store m2 (final + strlen str1 + strlen str2) 0
