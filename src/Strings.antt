-- ===== src/Strings.antt =====
-- PROJECT_template/lib/string.c: memset, memcpy, memmove, memcmp and ltostr on a memory of bytes.
-- An address is a natural number; the objects do not reach over the end of the address space.
pub mod Move
pub mod Print
pub mod Text
mod Tests
use fos_simple_os.Prelude.{
  ℕ, zero, suc, ◌+◌, ◌-◌, ◌*◌, ◌/◌, ◌%◌, ◌^◌, Bool, true, false, ◌&&◌, if◌then◌else◌, ◌==◌, ltb,
  leb, sub32,
}

abbrev pub store : (ℕ → ℕ) → ℕ → ℕ → ℕ → ℕ
store m p v q = if p == q then v else m q

-- `memset`; a byte keeps the low 8 bits of `c`, and nothing is written for a negative count.
pub fill : ℕ → ℕ → ℕ → (ℕ → ℕ) → ℕ → ℕ
fill zero p c m = m
fill (suc n) p c m = fill n (p + 1) c (store m p c)

pub memset : (ℕ → ℕ) → ℕ → ℕ → ℕ → ℕ → ℕ
unfolding fill
memset m v c n = if ltb n (2 ^ 31) then fill n v (c % 256) m else m

-- The loop `*d++ = *s++`.
pub copy_up : ℕ → ℕ → ℕ → (ℕ → ℕ) → ℕ → ℕ
copy_up zero d s m = m
copy_up (suc n) d s m = copy_up n (d + 1) (s + 1) (store m d (m s))

-- The loop `*--d = *--s`, from `d + n` and `s + n` down.
pub copy_down : ℕ → ℕ → ℕ → (ℕ → ℕ) → ℕ → ℕ
copy_down zero d s m = m
copy_down (suc n) d s m = copy_down n d s (store m (d + n) (m (s + n)))

pub memcpy : (ℕ → ℕ) → ℕ → ℕ → ℕ → ℕ → ℕ
unfolding copy_up
memcpy m dst src n = copy_up n dst src m

pub memmove : (ℕ → ℕ) → ℕ → ℕ → ℕ → ℕ → ℕ
memmove m dst src n =
    if ltb src dst && ltb dst (src + n) then copy_down n dst src m else copy_up n dst src m

-- `memcmp`: the difference as a word.
pub memcmp : (ℕ → ℕ) → ℕ → ℕ → ℕ → ℕ
memcmp m s1 s2 zero = 0
memcmp m s1 s2 (suc n) =
    let rest : ℕ = memcmp m (s1 + 1) (s2 + 1) n in
    if m s1 == m s2 then rest else sub32 (m s1) (m s2)

-- The do-while loop of `ltostr`: the memory, and `s`. The fuel bounds the rounds.
pub put_digits : ℕ → ℕ → ℕ → ℕ → (ℕ → ℕ) → (ℕ → ℕ) × ℕ
put_digits zero value str s m = (m, s)
put_digits (suc fuel) value str s m =
    let m1 : ℕ → ℕ = store m (str + s) (value % 10 + 48) in
    let rest : (ℕ → ℕ) × ℕ = put_digits fuel (value / 10) str (s + 1) m1 in
    if value / 10 % 10 == 0 then (m1, s + 1) else rest

-- The loop that reverses `str` from index `start` to `end`.
pub swap_ends : ℕ → ℕ → ℕ → ℕ → (ℕ → ℕ) → ℕ → ℕ
swap_ends zero str start end m = m
swap_ends (suc fuel) str start end m =
    let m1 : ℕ → ℕ = store m (str + start) (m (str + end)) in
    let rest : ℕ → ℕ =
      swap_ends fuel str (start + 1) (end - 1) (store m1 (str + end) (m (str + start))) in
    if ltb start end then rest else m

-- `ltostr` of a word. The sign change of the least word, which C leaves open, gives 2 ^ 31. A word has
-- at most ten digits: the fuel is ten for each loop.
pub ltostr : (ℕ → ℕ) → ℕ → ℕ → ℕ → ℕ
ltostr m value str =
    let neg : Bool = leb (2 ^ 31) value in
    let start : ℕ = if neg then 1 else 0 in
    let magnitude : ℕ = if neg then 2 ^ 32 - value else value in
    let (m1, s) = put_digits 10 magnitude str start (if neg then store m str 45 else m) in
    store (swap_ends 10 str start (s - 1) m1) (str + s) 0
