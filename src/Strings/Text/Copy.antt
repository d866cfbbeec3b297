-- ===== src/Strings/Text/Copy.antt =====
-- What the copies of a string write.
use fos_simple_os.Prelude.{
  NotIn, ==_ne, if◌then◌else◌, leb, ltb, ◌&&◌, false, Bool-cases, ℕ, zero, suc, ◌+◌, ◌≤◌, ◌<◌, ◌≡◌,
  refl, ap, sym, ◌∙◌, ◌⊎◌, inl, inr, List, [], ◌∷◌, ◌++◌, take, length, length-append, subst, arith,
}
use fos_simple_os.Strings.{store}
use fos_simple_os.Strings.Text.{
  before_nul, copy_bounded, strlcpy, strlen, strcpy, strcconcat, copy_characters,
}

-- The string `s` and its NUL stand in memory from `p` on.
abbrev pub StandsAt : (ℕ → ℕ) → ℕ → List ℕ → Type 0
StandsAt m p [] = m p ≡ 0
StandsAt m p (c ∷ s) = (m p ≡ c) × StandsAt m (p + 1) s

pub before_nul_lem : (s : List ℕ) → NotIn 0 s → before_nul s ≡ s
before_nul_lem [] h = refl
before_nul_lem (c ∷ s) h = rw (before_nul, ==_ne c 0 h.0) (ap (λ t. c ∷ t) (before_nul_lem s h.1))

-- The memory is as before outside the `n` bytes from `p` on.
abbrev pub Only : (ℕ → ℕ) → (ℕ → ℕ) → ℕ → ℕ → Type 0
Only m m1 p n = (q : ℕ) → (q < p) ⊎ (p + n ≤ q) → m1 q ≡ m q

-- The same, as a law of the new memory.
abbrev pub Outside : (ℕ → ℕ) → (ℕ → ℕ) → ℕ → ℕ → Type 0
Outside m m1 p n = (q : ℕ) → m1 q ≡ (if leb p q && ltb q (p + n) then m1 q else m q)

pub Only-Outside : (m m1 : ℕ → ℕ) (p n : ℕ) → Only m m1 p n → Outside m m1 p n
Only-Outside m m1 p n h q = elim (Bool-cases (leb p q && ltb q (p + n))) [
  | inl i ↦ rw i refl
  | inr o ↦ rw o (h q (apart p q n o))
]
  where
    apart : (p q n : ℕ) → (leb p q && ltb q (p + n)) ≡ false → (q < p) ⊎ (p + n ≤ q)
    apart p q n o = ground arith

pub store_ne : (m : ℕ → ℕ) (p v q : ℕ) → (q < p) ⊎ (p + 1 ≤ q) → store m p v q ≡ m q
store_ne m p v q (inl h) = ground arith
store_ne m p v q (inr h) = ground arith

pub store_self : (m : ℕ → ℕ) (p v : ℕ) → store m p v p ≡ v
store_self m p v = ground arith

pub copy_bounded-Only :
    (m : ℕ → ℕ) (dst : ℕ) (s : List ℕ) (size : ℕ)
    → Only m (copy_bounded m dst s size).0 dst (suc size)
unfolding copy_bounded
copy_bounded-Only m dst s zero q (inl h) = store_ne m dst 0 q (inl h)
copy_bounded-Only m dst s zero q (inr h) = store_ne m dst 0 q (inr h)
copy_bounded-Only m dst [] (suc size) q (inl h) = store_ne m dst 0 q (inl h)
copy_bounded-Only m dst [] (suc size) q (inr h) = store_ne m dst 0 q (inr (omega arith))
copy_bounded-Only m dst (c ∷ s) (suc size) q (inl h) =
    copy_bounded-Only (store m dst c) (dst + 1) s size q (inl (omega arith))
    ∙ store_ne m dst c q (inl h)
copy_bounded-Only m dst (c ∷ s) (suc size) q (inr h) =
    copy_bounded-Only (store m dst c) (dst + 1) s size q (inr (omega arith))
    ∙ store_ne m dst c q (inr (omega arith))

copy_bounded-StandsAt :
    (m : ℕ → ℕ) (dst : ℕ) (s : List ℕ) (size : ℕ)
    → StandsAt (copy_bounded m dst s size).0 dst (take size s)
unfolding copy_bounded
copy_bounded-StandsAt m dst s zero = store_self m dst 0
copy_bounded-StandsAt m dst [] (suc size) = store_self m dst 0
copy_bounded-StandsAt m dst (c ∷ s) (suc size) = (
  copy_bounded-Only (store m dst c) (dst + 1) s size dst (inl (omega arith)) ∙ store_self m dst c,
  copy_bounded-StandsAt (store m dst c) (dst + 1) s size,
)

copy_bounded-length :
    (m : ℕ → ℕ) (dst : ℕ) (s : List ℕ) (size : ℕ)
    → (copy_bounded m dst s size).1 ≡ dst + length (take size s)
unfolding copy_bounded
copy_bounded-length m dst s zero = omega arith
copy_bounded-length m dst [] (suc size) = omega arith
copy_bounded-length m dst (c ∷ s) (suc size) =
    omega (arith, copy_bounded-length (store m dst c) (dst + 1) s size)

-- strlcpy with a size that is not 0, `size + 1`, writes nothing outside of that many bytes of the
-- destination, leaves there the first `size` characters of the source with a NUL, and returns how
-- many they are.
pub strlcpy-bounds :
    (m : ℕ → ℕ) (dst : ℕ) (s : List ℕ) (size : ℕ)
    → Outside m (strlcpy m dst s (suc size)).0 dst (suc size)
      × StandsAt (strlcpy m dst s (suc size)).0 dst (take size s)
      × ((strlcpy m dst s (suc size)).1 ≡ length (take size s))
unfolding strlcpy
strlcpy-bounds m dst s size = (
  Only-Outside m (copy_bounded m dst s size).0 dst (suc size) (copy_bounded-Only m dst s size),
  copy_bounded-StandsAt m dst s size,
  omega (arith, copy_bounded-length m dst s size),
)

-- The copies are the copying of characters with a NUL behind them.
copy_characters-Only :
    (m : ℕ → ℕ) (p : ℕ) (s : List ℕ) → Only m (copy_characters m p s) p (length s)
unfolding copy_characters
copy_characters-Only m p [] q h = refl
copy_characters-Only m p (c ∷ s) q (inl h) =
    copy_characters-Only (store m p c) (p + 1) s q (inl (omega arith)) ∙ store_ne m p c q (inl h)
copy_characters-Only m p (c ∷ s) q (inr h) =
    copy_characters-Only (store m p c) (p + 1) s q (inr (omega arith))
    ∙ store_ne m p c q (inr (omega arith))

copy_characters-append :
    (m : ℕ → ℕ) (p : ℕ) (s t : List ℕ)
    → copy_characters (copy_characters m p s) (p + length s) t ≡ copy_characters m p (s ++ t)
unfolding copy_characters
copy_characters-append m p [] t = ap (λ n. copy_characters m n t) (omega arith)
copy_characters-append m p (c ∷ s) t =
    ap (λ n. copy_characters (copy_characters (store m p c) (p + 1) s) n t) (omega arith)
    ∙ copy_characters-append (store m p c) (p + 1) s t

strlen_lem : (s : List ℕ) → strlen s ≡ length s
unfolding strlen
strlen_lem [] = refl
strlen_lem (c ∷ s) = ap suc (strlen_lem s)

strcpy_lem :
    (m : ℕ → ℕ) (p : ℕ) (s : List ℕ) → strcpy m p s ≡ store (copy_characters m p s) (p + length s) 0
unfolding strcpy copy_characters
strcpy_lem m p [] = ap (λ n. store m n 0) (omega arith)
strcpy_lem m p (c ∷ s) =
    strcpy_lem (store m p c) (p + 1) s
    ∙ ap (λ n. store (copy_characters (store m p c) (p + 1) s) n 0) (omega arith)

strcpy-Only : (m : ℕ → ℕ) (p : ℕ) (s : List ℕ) → Only m (strcpy m p s) p (suc (length s))
unfolding strcpy
strcpy-Only m p [] q (inl h) = store_ne m p 0 q (inl h)
strcpy-Only m p [] q (inr h) = store_ne m p 0 q (inr h)
strcpy-Only m p (c ∷ s) q (inl h) =
    strcpy-Only (store m p c) (p + 1) s q (inl (omega arith)) ∙ store_ne m p c q (inl h)
strcpy-Only m p (c ∷ s) q (inr h) =
    strcpy-Only (store m p c) (p + 1) s q (inr (omega arith)) ∙ store_ne m p c q (inr (omega arith))

strcpy-StandsAt : (m : ℕ → ℕ) (p : ℕ) (s : List ℕ) → StandsAt (strcpy m p s) p s
unfolding strcpy
strcpy-StandsAt m p [] = store_self m p 0
strcpy-StandsAt m p (c ∷ s) = (
  strcpy-Only (store m p c) (p + 1) s p (inl (omega arith)) ∙ store_self m p c,
  strcpy-StandsAt (store m p c) (p + 1) s,
)

-- strcconcat leaves the memory as strcpy of the two strings one behind the other does, which stand
-- there with a NUL, and nothing else is written.
pub strcconcat-strcpy :
    (m : ℕ → ℕ) (str1 str2 : List ℕ) (final : ℕ)
    → (strcconcat m str1 str2 final ≡ strcpy m final (str1 ++ str2))
      × StandsAt (strcconcat m str1 str2 final) final (str1 ++ str2)
      × Outside m (strcconcat m str1 str2 final) final (suc (length (str1 ++ str2)))
unfolding strcconcat
strcconcat-strcpy m str1 str2 final =
    let e : strcconcat m str1 str2 final ≡ strcpy m final (str1 ++ str2) =
      rw
        (
          strlen_lem str1,
          strlen_lem str2,
          copy_characters-append m final str1 str2,
          strcpy_lem m final (str1 ++ str2),
        )
        (ap (λ n. store (copy_characters m final (str1 ++ str2)) n 0)
          (omega (arith, length-append str1 str2))) in
    (
      e,
      subst (λ f. StandsAt f final (str1 ++ str2)) (sym e) (strcpy-StandsAt m final (str1 ++ str2)),
      subst (λ f. Outside m f final (suc (length (str1 ++ str2)))) (sym e)
          (Only-Outside m _ final (suc (length (str1 ++ str2)))
            (strcpy-Only m final (str1 ++ str2))),
    )
