-- ===== src/Printing/Buffer.antt =====
-- What vsnprintf writes into its buffer.
use fos_simple_os.Prelude.{
  ℕ, zero, suc, ◌+◌, ◌-◌, ◌%◌, ◌^◌, ◌<◌, ◌≤◌, ◌≡◌, ◌≢◌, refl, ap, ap₂, sym, ◌∙◌, List, [], ◌∷◌,
  some, length, map, arith, u32, add32, slt, true, false, subst, ltb, ◌==◌, ◌||◌, NotIn,
}
use fos_simple_os.Strings.{store}
use fos_simple_os.Strings.Text.{before_nul, copy_bounded, strlcpy}
use fos_simple_os.Strings.Text.Copy.{before_nul_lem}
use fos_simple_os.Printing.{Arg, chars, printfmt, SprintBuf, sprintputch, put_all, vsnprintf}

-- A character as it is stored.
abbrev pub byte : ℕ → ℕ
byte ch = ch % 256

full :
    (ch : ℕ) (b : SprintBuf) → b.ebuf ≤ b.buf → sprintputch ch b ≡ record b { cnt = add32 b.cnt 1 }
unfolding sprintputch
full ch b h = let test : ltb b.buf b.ebuf ≡ false = ground arith in rw test refl

room :
    (ch : ℕ) (b : SprintBuf)
    → b.buf < b.ebuf
    → sprintputch ch b
      ≡ record b { memory = store b.memory b.buf (byte ch); buf = b.buf + 1; cnt = add32 b.cnt 1 }
unfolding sprintputch
room ch b h = let test : ltb b.buf b.ebuf ≡ true = ground arith in rw test refl

put_all-copy :
    (l : List ℕ) (b : SprintBuf) (r : ℕ)
    → b.ebuf ≡ b.buf + r
    → store (put_all l b).memory (put_all l b).buf 0
      ≡ (copy_bounded b.memory b.buf (map byte l) r).0
unfolding put_all copy_bounded
put_all-copy [] b zero e = refl
put_all-copy [] b (suc r) e = refl
put_all-copy (ch ∷ l) b zero e =
    ap (λ c. store (put_all l c).memory (put_all l c).buf 0) (full ch b (omega arith))
    ∙ put_all-copy l (record b { cnt = add32 b.cnt 1 }) zero e
put_all-copy (ch ∷ l) b (suc r) e =
    ap (λ c. store (put_all l c).memory (put_all l c).buf 0) (room ch b (omega arith))
    ∙ put_all-copy l
        (record b { memory = store b.memory b.buf (byte ch); buf = b.buf + 1; cnt = add32 b.cnt 1 })
        r (omega arith)

sprintputch-cnt : (ch : ℕ) (b : SprintBuf) → (sprintputch ch b).cnt ≡ add32 b.cnt 1
unfolding sprintputch
sprintputch-cnt ch b = ground arith

put_all-cnt : (l : List ℕ) (b : SprintBuf) → u32 (put_all l b).cnt ≡ u32 (b.cnt + length l)
unfolding put_all
put_all-cnt [] b = ap u32 (omega arith)
put_all-cnt (ch ∷ l) b =
    put_all-cnt l (sprintputch ch b)
    ∙ ap (λ n. u32 (n + length l)) (sprintputch-cnt ch b)
    ∙ omega arith

put_all-word : (l : List ℕ) (b : SprintBuf) → b.cnt < 2 ^ 32 → (put_all l b).cnt < 2 ^ 32
unfolding put_all
put_all-word [] b h = h
put_all-word (ch ∷ l) b h =
    put_all-word l (sprintputch ch b)
      (subst (λ n. n < 2 ^ 32) (sym (sprintputch-cnt ch b)) (omega arith))

-- vsnprintf with a buffer, a size that is a positive int, and a text without NUL bytes: it writes what
-- strlcpy of the C string that holds the whole text would write there, and returns the length of the whole text as a word.
pub vsnprintf-strlcpy :
    (m : ℕ → ℕ) (buf n : ℕ) (fmt : List ℕ) (args : List Arg) (l : List ℕ)
    → buf ≢ 0
    → suc n < 2 ^ 31
    → printfmt fmt args ≡ chars l
    → NotIn 0 (map byte l)
    → vsnprintf m buf (suc n) fmt args
      ≡ some ((strlcpy m buf (before_nul (map byte l)) (suc n)).0, u32 (length l))
unfolding vsnprintf strlcpy
vsnprintf-strlcpy m buf n fmt args l nz small e no_nul =
    let start : SprintBuf = record { memory = m; buf = buf; ebuf = buf + suc n - 1; cnt = 0 } in
    let valid : (buf == 0 || slt (suc n) 1) ≡ false = ground arith in
    let count : (put_all l start).cnt ≡ u32 (length l) =
      omega (arith, put_all-cnt l start, put_all-word l start (omega arith)) in
    rw (valid, e, before_nul_lem (map byte l) no_nul)
      (ap₂ (λ x y. some (x, y)) (put_all-copy l start n (omega arith)) count)
