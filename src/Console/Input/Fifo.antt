-- ===== src/Console/Input/Fifo.antt =====
-- The input buffer is a queue of at most 511 characters.
use fos_simple_os.Prelude.{
  ℕ, zero, suc, ◌+◌, ◌%◌, ◌<◌, ◌≡◌, ◌≢◌, ◌⊎◌, refl, sym, ap, subst, ◌∙◌, List, [], ◌∷◌, ◌++◌, ◌==◌,
  ==_ne, ==_refl, if◌then◌else◌, Option, none, some, length, length-append, length-set, get_elem?,
  get_elem?-set_self, get_elem?-set_ne, get_elem?-lt, set, arith, eq_or_ne, inl, inr, append_assoc,
  append-nil,
}
use fos_simple_os.Console.Input.{Cons, cons_buf_size, next_pos, cons_put, cons_intr, cons_take}

-- The unread characters, oldest first, stand from `rpos` around to `wpos`.
pub record Holds (s : Cons) (l : List ℕ) : Type 0 where
  pub size : length s.buf ≡ cons_buf_size
  pub start : s.rpos < cons_buf_size
  pub fits : length l < cons_buf_size
  pub stop : s.wpos ≡ (s.rpos + length l) % cons_buf_size
  pub at :
      (i x : ℕ) → get_elem? l i ≡ some x → get_elem? s.buf ((s.rpos + i) % cons_buf_size) ≡ some x

-- What is put of what a driver returns: its bytes, without the zeros.
abbrev pub typed : List ℕ → List ℕ
typed [] = []
typed (c ∷ cs) = let rest = typed cs in if c == 0 then rest else c % 256 ∷ rest

get_elem?-snoc :
    (l : List ℕ) (c i x : ℕ)
    → get_elem? (l ++ c ∷ []) i ≡ some x
    → (get_elem? l i ≡ some x) ⊎ ((i ≡ length l) × (c ≡ x))
get_elem?-snoc [] c zero x e = inr (refl, cc)
get_elem?-snoc [] c (suc i) x e = absurd (cc)
get_elem?-snoc (y ∷ l) c zero x e = inl e
get_elem?-snoc (y ∷ l) c (suc i) x e = elim (get_elem?-snoc l c i x e) [
  | inl h ↦ inl h
  | inr (h, k) ↦ inr (ap suc h, k)
]

next_pos_mod : (p : ℕ) → p < cons_buf_size → next_pos p ≡ (p + 1) % cons_buf_size
next_pos_mod p h = ground arith

put_pass : (c : ℕ) (s : Cons) → c ≡ 0 → cons_put c s ≡ s
unfolding cons_put
put_pass c s e = rw (cons_put, ap (λ n. n == 0) e) refl

put_store :
    (c : ℕ) (s : Cons)
    → c ≢ 0
    → cons_put c s ≡ record s { buf = set s.buf s.wpos (c % 256); wpos = next_pos s.wpos }
unfolding cons_put
put_store c s n = rw (cons_put, ==_ne c 0 n) refl

wpos_lt : (s : Cons) (l : List ℕ) → Holds s l → s.wpos < cons_buf_size
wpos_lt s l h = omega (arith, h.stop)

-- The place of a held character is not the place written.
apart :
    (s : Cons) (l : List ℕ) (i : ℕ)
    → Holds s l
    → i < length l
    → s.wpos ≢ (s.rpos + i) % cons_buf_size
apart s l i h lt e = omega (arith, h.stop, h.start, h.fits, e, lt)

pub put-Holds :
    (c : ℕ) (s : Cons) (l : List ℕ)
    → c ≢ 0
    → Holds s l
    → length l + 1 < cons_buf_size
    → Holds (cons_put c s) (l ++ c % 256 ∷ [])
put-Holds c s l n h lt =
    let size' : length (l ++ c % 256 ∷ []) ≡ length l + 1 = length-append l (c % 256 ∷ []) in
    subst (λ t. Holds t (l ++ c % 256 ∷ [])) (sym (put_store c s n))
      (record {
        size = length-set s.buf s.wpos (c % 256) ∙ h.size;
        start = h.start;
        fits = omega (arith, size');
        stop = omega (arith, size', next_pos_mod s.wpos (wpos_lt s l h), h.stop);
        at = λ i x e. elim (get_elem?-snoc l (c % 256) i x e) [
          | inl k ↦
              get_elem?-set_ne s.buf (c % 256) (apart s l i h (get_elem?-lt l i x k)) ∙ h.at i x k
          | inr (k, v) ↦
              ap (get_elem? (set s.buf s.wpos (c % 256)))
                (ap (λ j. (s.rpos + j) % cons_buf_size) k ∙ sym h.stop)
              ∙ get_elem?-set_self s.buf s.wpos (c % 256) (omega (arith, wpos_lt s l h, h.size))
              ∙ ap some v
        ];
      })

typed_pass : (c : ℕ) (cs : List ℕ) → c ≡ 0 → typed (c ∷ cs) ≡ typed cs
typed_pass c cs e = rw (ap (λ n. n == 0) e) refl

typed_store : (c : ℕ) (cs : List ℕ) → c ≢ 0 → typed (c ∷ cs) ≡ c % 256 ∷ typed cs
typed_store c cs n = rw (==_ne c 0 n) refl

pub typed_short : (c : ℕ) → length (typed (c ∷ [])) < 2
typed_short c = ground arith

-- While fewer than 512 characters are unread, an interrupt puts what its driver returns, without
-- the zeros, behind the unread characters, in order.
pub intr-Holds :
    (cs : List ℕ) (s : Cons) (l : List ℕ)
    → Holds s l
    → length l + length (typed cs) < cons_buf_size
    → Holds (cons_intr cs s) (l ++ typed cs)
unfolding cons_intr
intr-Holds [] s l h lt = subst (Holds s) (sym (append-nil l)) h
intr-Holds (c ∷ cs) s l h lt = elim (eq_or_ne c 0) [
  | inl e ↦
      subst (λ t. Holds (cons_intr cs t) (l ++ typed (c ∷ cs))) (sym (put_pass c s e))
        (subst (λ r. Holds (cons_intr cs s) (l ++ r)) (sym (typed_pass c cs e))
          (intr-Holds cs s l h (omega (arith, ap length (typed_pass c cs e), lt))))
  | inr n ↦
      let len : length (typed (c ∷ cs)) ≡ suc (length (typed cs)) =
        ap length (typed_store c cs n) in
      subst (λ r. Holds (cons_intr cs (cons_put c s)) (l ++ r)) (sym (typed_store c cs n))
        (subst (Holds (cons_intr cs (cons_put c s))) (append_assoc l (c % 256 ∷ []) (typed cs)) (
          intr-Holds cs (cons_put c s) (l ++ c % 256 ∷ [])
            (put-Holds c s l n h (omega (arith, len, lt)))
            (omega (arith, len, lt, length-append l (c % 256 ∷ [])))))
]

-- With 511 unread characters one more makes the buffer read as empty: they are lost.
pub cons_put_overflow :
    (c : ℕ) (s : Cons) (l : List ℕ) → c ≢ 0 → Holds s l → length l ≡ 511 → Holds (cons_put c s) []
cons_put_overflow c s l n h e =
    subst (λ t. Holds t []) (sym (put_store c s n))
      (record {
        size = length-set s.buf s.wpos (c % 256) ∙ h.size;
        start = h.start;
        fits = omega arith;
        stop = omega (arith, next_pos_mod s.wpos (wpos_lt s l h), h.stop, h.start);
        at = λ i x k. absurd (cc);
      })

take_empty : (s : Cons) → Holds s [] → cons_take s ≡ some (0, s)
unfolding cons_take
take_empty s h =
    let e : s.rpos ≡ s.wpos = omega (arith, h.stop, h.start) in
    rw (cons_take, ap (λ p. s.rpos == p) (sym e) ∙ ==_refl s.rpos) refl

pub take_next :
    (s : Cons) (c : ℕ) (l : List ℕ)
    → Holds s (c ∷ l)
    → cons_take s ≡ some (c, record s { rpos = next_pos s.rpos })
unfolding cons_take
take_next s c l h =
    let first : get_elem? s.buf s.rpos ≡ some c =
      ap (get_elem? s.buf) (omega (arith, h.start)) ∙ h.at 0 c refl in
    let n : s.rpos ≢ s.wpos = λ e. omega (arith, e, h.stop, h.start, h.fits) in
    rw (cons_take, ==_ne s.rpos s.wpos n, first) refl

pub rest-Holds :
    (s : Cons) (c : ℕ) (l : List ℕ)
    → Holds s (c ∷ l)
    → Holds (record s { rpos = next_pos s.rpos }) l
rest-Holds s c l h =
    let moved : next_pos s.rpos ≡ (s.rpos + 1) % cons_buf_size = next_pos_mod s.rpos h.start in
    record {
      size = h.size;
      start = omega (arith, moved);
      fits = omega (arith, h.fits);
      stop = omega (arith, moved, h.stop);
      at = λ i x e. ap (get_elem? s.buf) (omega (arith, moved)) ∙ h.at (suc i) x e;
    }

-- `n` calls of `cons_take` in a row.
unfoldable pub take_all : ℕ → Cons → Option (List ℕ × Cons)
take_all zero s = some ([], s)
take_all (suc n) s = elim (cons_take s) [
  | none ↦ none
  | some (c, t) ↦ elim (take_all n t) [ none ↦ none | some (l, u) ↦ some (c ∷ l, u) ]
]

-- The unread characters are read in order, and then the buffer is empty.
pub take_all-Holds :
    (l : List ℕ) (s : Cons)
    → Holds s l
    → (u : Cons) × (take_all (length l) s ≡ some (l, u)) × Holds u []
unfolding take_all
take_all-Holds [] s h = (s, refl, h)
take_all-Holds (c ∷ l) s h =
    let (u, e, k) = take_all-Holds l (record s { rpos = next_pos s.rpos }) (rest-Holds s c l h) in
    (u, rw (take_all, take_next s c l h, e) refl, k)

-- What a device delivers to an empty buffer, up to 511 characters, is read by as many calls in the
-- order in which it came, and the call behind them returns 0.
pub cons_intr-take :
    (cs : List ℕ) (s : Cons)
    → Holds s []
    → length (typed cs) < cons_buf_size
    → (u : Cons) × (take_all (length (typed cs)) (cons_intr cs s) ≡ some (typed cs, u))
      × (cons_take u ≡ some (0, u))
cons_intr-take cs s h lt =
    let (u, e, k) =
      take_all-Holds (typed cs) (cons_intr cs s) (intr-Holds cs s [] h (omega (arith, lt))) in
    (u, e, take_empty u k)
