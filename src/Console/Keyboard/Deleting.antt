-- ===== src/Console/Keyboard/Deleting.antt =====
-- The delete key.
use fos_simple_os.Prelude.{
  ℕ, zero, suc, ◌+◌, ◌-◌, ◌<◌, ◌≤◌, ◌≡◌, ◌⊎◌, refl, ap, ◌∙◌, ◌≢◌, sym, leb, ◌&&◌, if◌then◌else◌,
  arith, inl, inr,
}
use fos_simple_os.Strings.{store}
use fos_simple_os.Strings.Text.Copy.{store_ne, store_self}
use fos_simple_os.Console.Screen.{Screen}
use fos_simple_os.Console.Keyboard.{pull, pulled, delete}

-- The loop moves its cells to the left by one and leaves all others.
pull_other : (n i : ℕ) (b : ℕ → ℕ) (q : ℕ) → (q < i) ⊎ (i + n ≤ q) → pull n i b q ≡ b q
unfolding pull
pull_other zero i b q h = refl
pull_other (suc n) i b q (inl h) =
    pull_other n (i + 1) (store b i (b (i + 1))) q (inl (omega arith))
    ∙ store_ne b i (b (i + 1)) q (inl h)
pull_other (suc n) i b q (inr h) =
    pull_other n (i + 1) (store b i (b (i + 1))) q (inr (omega arith))
    ∙ store_ne b i (b (i + 1)) q (inr (omega arith))

pull_inner : (n i : ℕ) (b : ℕ → ℕ) (j : ℕ) → j < n → pull n i b (i + j) ≡ b (i + j + 1)
unfolding pull
pull_inner zero i b j h = absurd (omega arith)
pull_inner (suc n) i b zero h =
    pull_other n (i + 1) (store b i (b (i + 1))) (i + 0) (inl (omega arith))
    ∙ ap (store b i (b (i + 1))) (omega arith)
    ∙ store_self b i (b (i + 1))
    ∙ ap b (omega arith)
pull_inner (suc n) i b (suc j) h =
    ap (pull n (i + 1) (store b i (b (i + 1)))) (omega arith)
    ∙ pull_inner n (i + 1) (store b i (b (i + 1))) j (omega arith)
    ∙ store_ne b i (b (i + 1)) (i + 1 + j + 1) (inr (omega arith))
    ∙ ap b (omega arith)

-- The cells from one to another moved to the left by one.
abbrev pub closed_up : ℕ → ℕ → (ℕ → ℕ) → ℕ → ℕ
closed_up start last b q = if leb start q && leb q last then b (q + 1) else b q

closed_in :
    (start last : ℕ) (b : ℕ → ℕ) (q : ℕ)
    → start ≤ q
    → q ≤ last
    → closed_up start last b q ≡ b (q + 1)
closed_in start last b q h k = ground arith

closed_out :
    (start last : ℕ) (b : ℕ → ℕ) (q : ℕ) → (q < start) ⊎ (last < q) → closed_up start last b q ≡ b q
closed_out start last b q (inl h) = ground arith
closed_out start last b q (inr h) = ground arith

where_is : (q i n : ℕ) → ((q < i) ⊎ (i + n ≤ q)) ⊎ ((i ≤ q) × (q < i + n))
where_is q i n = ground arith

pull_closed :
    (n i : ℕ) (b : ℕ → ℕ) (last q : ℕ) → last + 1 ≡ i + n → pull n i b q ≡ closed_up i last b q
pull_closed n i b last q e = elim (where_is q i n) [
  | inl (inl h) ↦ pull_other n i b q (inl h) ∙ sym (closed_out i last b q (inl h))
  | inl (inr h) ↦ pull_other n i b q (inr h) ∙ sym (closed_out i last b q (inr (omega arith)))
  | inr (h, k) ↦
      ap (pull n i b) (omega arith)
      ∙ pull_inner n i b (q - i) (omega arith)
      ∙ ap b (omega arith)
      ∙ sym (closed_in i last b q h (omega arith))
]

delete_some :
    (s : Screen)
    → 0 < s.text_length
    → s.crt_pos ≢ 1920 + s.text_length
    → (delete s).1.crt_buf ≡ pull (pulled (s.text_length - 1) s.crt_pos) s.crt_pos s.crt_buf
unfolding delete
delete_some s h n = ground arith

-- The delete key on a cursor within the typed line closes up the cells from the cursor to the cell
-- 1924 + `text_length`, and leaves every other cell.
pub delete_closes :
    (s : Screen) (q : ℕ)
    → 0 < s.text_length
    → s.crt_pos < 1920 + s.text_length
    → (delete s).1.crt_buf q ≡ closed_up s.crt_pos (1924 + s.text_length) s.crt_buf q
delete_closes s q h lt =
    ap (λ b. b q) (delete_some s h (λ e. omega (arith, e, lt)))
    ∙ pull_closed (pulled (s.text_length - 1) s.crt_pos) s.crt_pos s.crt_buf (1924 + s.text_length)
        q (omega arith)
