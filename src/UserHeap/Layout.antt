-- ===== src/UserHeap/Layout.antt =====
-- The layout of the user heap: which addresses the entries of `spaces` cover.
use fos_simple_os.Prelude.{
  ℕ, ◌+◌, ◌*◌, ◌≡◌, ◌≤◌, ◌⊎◌, inr, List, [], ◌∷◌, Bool, false, arith, if◌then◌else◌, ltb, leb, ◌&&◌,
  All, page_size,
}
use fos_simple_os.UserHeap.{Space, user_heap_start, user_heap_max, whole}
use fos_simple_os.UserHeap.Arrays.{total}

abbrev pub in_block : ℕ → Space → Bool
in_block a sp = leb sp.str_address a && ltb a sp.end_address

-- 1 if the entry covers the address; the free one if it is free.
abbrev pub covers : ℕ → Space → ℕ
covers a sp = if in_block a sp then 1 else 0

abbrev pub covers_free : ℕ → Space → ℕ
covers_free a sp = if sp.is_free then covers a sp else 0

abbrev pub in_heap : ℕ → ℕ
in_heap a = if leb user_heap_start a && ltb a user_heap_max then 1 else 0

-- An entry that `free` merged away, or a block of whole pages inside the heap.
pub record IsDead (sp : Space) : Type 0 where
  pub no_start : sp.str_address ≡ 0
  pub no_end : sp.end_address ≡ 0
  pub unused : sp.is_free ≡ false

pub record IsBlock (sp : Space) : Type 0 where
  pub above : user_heap_start ≤ sp.str_address
  pub below : sp.end_address ≤ user_heap_max
  pub sized : sp.str_address + sp.pages * page_size ≡ sp.end_address

abbrev pub IsSpace : Space → Type 0
IsSpace sp = IsDead sp ⊎ IsBlock sp

-- Every address of the heap is covered by exactly one entry, and no other address is.
pub record IsTiled (l : List Space) : Type 0 where
  pub each : All IsSpace l
  pub tiles : (a : ℕ) → total (covers a) l ≡ in_heap a

pub whole-IsTiled : IsTiled (whole ∷ [])
unfolding total
whole-IsTiled = record { each = (inr (omega arith), tt); tiles = λ a. ground arith }
