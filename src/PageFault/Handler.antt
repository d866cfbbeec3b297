-- ===== src/PageFault/Handler.antt =====
-- page_fault_handler as a whole.
use fos_simple_os.Prelude.{
  ℕ, ◌+◌, ◌<◌, ◌≡◌, ◌≢◌, ap, true, ◌==◌, some, length, arith, inl, inr, eq_or_ne, ==_ne, ==_refl,
  round_down,
}
use fos_simple_os.PageFault.{Env, fault_with_room, fault_when_full, page_fault_handler}
use fos_simple_os.PageFault.Lru.{lru, take_page-cases}
use fos_simple_os.PageFault.Sound.{IsSound, IsReady, IsServed, resident}
use fos_simple_os.PageFault.Served.{promote-serves, place-serves, demote-place-serves}
use fos_simple_os.PageFault.Replaced.{replace_second-serves, replace_active-serves}

with_room-serves :
    (e : Env) (va : ℕ)
    → IsSound e
    → IsReady e va
    → 0 < length e.page_list
    → (e' : Env) × (fault_with_room e va ≡ some e') × IsServed e va e'
unfolding fault_with_room
with_room-serves e va s r left = elim (eq_or_ne (length e.active) e.active_size) [
  | inr n ↦
      let (e', q, v) = place-serves e va s r n left in
      (e', rw (==_ne (length e.active) e.active_size n) q, v)
  | inl full ↦ elim (take_page-cases va e.second) [
    | inl (none_found, h) ↦
        let (e', q, v) = demote-place-serves e va s r full h left in
        (e', rw (full, ==_refl e.active_size, none_found) q, v)
    | inr (rest, fault, found, at, h, w, len) ↦
        let (e', q, v) = promote-serves e va rest fault s r full at h w len in
        (e', rw (full, ==_refl e.active_size, found) q, v)
  ]
]

-- With a second list and no element left, both lists are full.
both_full :
    (e : Env)
    → IsSound e
    → length e.page_list ≡ 0
    → e.second_size ≢ 0
    → (length e.active ≡ e.active_size) × (0 < length e.second)
both_full e s none_left n = elim s.filled [
  | inl nil ↦ absurd (omega (arith, s.sizes, s.bounded, none_left, n, ap length nil))
  | inr f ↦ (f, omega (arith, s.sizes, none_left, n, f))
]

when_full-serves :
    (e : Env) (va : ℕ)
    → IsSound e
    → IsReady e va
    → length e.page_list ≡ 0
    → (e' : Env) × (fault_when_full e va ≡ some e') × IsServed e va e'
unfolding fault_when_full
when_full-serves e va s r none_left = elim (take_page-cases va e.second) [
  | inl (none_found, h) ↦ elim (eq_or_ne e.second_size 0) [
    | inl no_second ↦
        let (e', q, v) = replace_active-serves e va s r none_left no_second h in
        let zero_size : (e.second_size == 0) ≡ true = ap (λ k. k == 0) no_second in
        (e', rw (none_found, fault_when_full, zero_size) q, v)
    | inr n ↦
        let (full, some_second) = both_full e s none_left n in
        let (e', q, v) = replace_second-serves e va s r none_left full h some_second in
        (e', rw (none_found, fault_when_full, ==_ne e.second_size 0 n) q, v)
  ]
  | inr (rest, fault, found, at, h, w, len) ↦
      let full : length e.active ≡ e.active_size = elim s.filled [
        | inl nil ↦ absurd (omega (arith, len, ap length nil))
        | inr f ↦ f
      ] in
      let (e', q, v) = promote-serves e va rest fault s r full at h w len in
      (e', rw (found, fault_when_full) q, v)
]

-- A page fault at a page that is in the page file or the stack, is not active, and whose tables and
-- those of the resident pages are there, with two free frames: the handler returns, both lists
-- together are what LRU makes of them, the page first, and the lists stay sound.
pub page_fault_handler-lru :
    (e : Env) (fault_va : ℕ)
    → IsSound e
    → IsReady e (round_down fault_va 4096)
    → (e' : Env) × (page_fault_handler e fault_va ≡ some e')
      × (resident e' ≡ lru (e.active_size + e.second_size) (round_down fault_va 4096) (resident e))
      × IsSound e'
unfolding page_fault_handler
page_fault_handler-lru e fault_va s r = elim (eq_or_ne (length e.page_list) 0) [
  | inl z ↦
      let (e', q, v) = when_full-serves e (round_down fault_va 4096) s r z in
      (e', rw z q, v.stack, v.sound)
  | inr n ↦
      let (e', q, v) = with_room-serves e (round_down fault_va 4096) s r (omega (arith, n)) in
      (e', rw (==_ne (length e.page_list) 0 n) q, v.stack, v.sound)
]
