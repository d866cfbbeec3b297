-- ===== src/Printing/Console/Chunks.antt =====
-- The system calls of cprintf print the text.
use fos_simple_os.Prelude.{
  ℕ, ◌+◌, ◌%◌, ◌^◌, ◌<◌, ◌≤◌, ◌≡◌, ◌≢◌, refl, ap, sym, subst, ◌∙◌, List, [], ◌∷◌, ◌++◌,
  append_assoc, append-nil, All, All-append, length, length-append, map, arith, u32, add32, ◌==◌,
  eq_or_ne, ==_ne, inl, inr,
}
use fos_simple_os.Printing.Console.{PrintBuf, putch, putch_all, vcprintf}

abbrev pub concat : List (List ℕ) → List ℕ
concat [] = []
concat (l ∷ ls) = l ++ concat ls

concat-append : (ls : List (List ℕ)) (l : List ℕ) → concat (ls ++ l ∷ []) ≡ concat ls ++ l
concat-append [] l = append-nil l
concat-append (k ∷ ls) l =
    ap (λ r. k ++ r) (concat-append ls l) ∙ sym (append_assoc k (concat ls) l)

-- The calls are of at most 255 characters.
abbrev pub AreShort : List (List ℕ) → Type 0
AreShort = All (λ l. length l ≤ 255)

-- What was printed, and what is in the buffer.
abbrev so_far : PrintBuf → List ℕ
so_far b = concat b.calls ++ b.buf

abbrev IsBuffered : PrintBuf → Type 0
IsBuffered b = AreShort b.calls × (length b.buf < 255)

putch_full :
    (ch : ℕ) (b : PrintBuf)
    → length (b.buf ++ (ch % 256) ∷ []) ≡ 255
    → putch ch b ≡ record b {
      buf = [];
      calls = b.calls ++ (b.buf ++ (ch % 256) ∷ []) ∷ [];
      cnt = add32 b.cnt 1;
    }
unfolding putch
putch_full ch b e = rw (ap (λ n. n == 255) e) refl

putch_room :
    (ch : ℕ) (b : PrintBuf)
    → length (b.buf ++ (ch % 256) ∷ []) ≢ 255
    → putch ch b ≡ record b { buf = b.buf ++ (ch % 256) ∷ []; cnt = add32 b.cnt 1 }
unfolding putch
putch_room ch b e = rw (==_ne (length (b.buf ++ (ch % 256) ∷ [])) 255 e) refl

-- One character.
abbrev Puts : ℕ → PrintBuf → PrintBuf → Type 0
Puts ch b b' = IsBuffered b' × (so_far b' ≡ so_far b ++ (ch % 256) ∷ []) × (b'.cnt ≡ add32 b.cnt 1)

putch-Puts : (ch : ℕ) (b : PrintBuf) → IsBuffered b → Puts ch b (putch ch b)
putch-Puts ch b h =
    let text : List ℕ = b.buf ++ (ch % 256) ∷ [] in
    let size : length text ≡ length b.buf + 1 = length-append b.buf ((ch % 256) ∷ []) in
    elim (eq_or_ne (length text) 255) [
      | inl e ↦ subst (Puts ch b) (sym (putch_full ch b e)) (
        (All-append _ b.calls (text ∷ []) h.0 (omega (arith, e), tt), omega arith),
        append-nil _ ∙ concat-append b.calls text ∙ sym (append_assoc (concat b.calls) b.buf _),
        refl,
      )
      | inr n ↦
          subst (Puts ch b) (sym (putch_room ch b n))
            ((h.0, omega (arith, size, h.1, n)), sym (append_assoc (concat b.calls) b.buf _), refl)
    ]

putch_all-Puts :
    (l : List ℕ) (b : PrintBuf)
    → IsBuffered b
    → IsBuffered (putch_all l b)
      × (so_far (putch_all l b) ≡ so_far b ++ map (λ ch. ch % 256) l)
      × (u32 (putch_all l b).cnt ≡ u32 (b.cnt + length l))
unfolding putch_all
putch_all-Puts [] b h = (h, sym (append-nil _), ap u32 (omega arith))
putch_all-Puts (ch ∷ l) b h =
    let (h1, s1, c1) = putch-Puts ch b h in
    let (h2, s2, c2) = putch_all-Puts l (putch ch b) h1 in
    (
      h2,
      s2 ∙ ap (λ t. t ++ map (λ c. c % 256) l) s1 ∙ append_assoc (so_far b) _ _,
      c2 ∙ ap (λ n. u32 (n + length l)) c1 ∙ omega arith,
    )

putch_all-word :
    (l : List ℕ) (b : PrintBuf) → IsBuffered b → b.cnt < 2 ^ 32 → (putch_all l b).cnt < 2 ^ 32
unfolding putch_all
putch_all-word [] b h lt = lt
putch_all-word (ch ∷ l) b h lt =
    let (h1, s1, c1) = putch-Puts ch b h in putch_all-word l (putch ch b) h1 (omega (arith, c1))

-- cprintf of a user program prints the bytes of the text with system calls of at most 255 characters
-- each, in order, and returns the length of the text as a word.
pub vcprintf-prints :
    (text : List ℕ)
    → (concat (vcprintf text).0 ≡ map (λ ch. ch % 256) text)
      × AreShort (vcprintf text).0
      × ((vcprintf text).1 ≡ u32 (length text))
unfolding vcprintf
vcprintf-prints text =
    let start : PrintBuf = record { buf = []; cnt = 0; calls = [] } in
    let empty : IsBuffered start = (tt, omega arith) in
    let (h, s, c) = putch_all-Puts text start empty in
    (
      concat-append (putch_all text start).calls (putch_all text start).buf ∙ s,
      All-append _ (putch_all text start).calls _ h.0 (omega (arith, h.1), tt),
      omega (arith, c, putch_all-word text start empty (omega arith)),
    )
