-- ===== src/PageFault/Replaced.antt =====
-- The branches of page_fault_handler that evict a page serve the fault as LRU does.
use fos_simple_os.Prelude.{
  ℕ, ◌+◌, ◌<◌, ◌≡◌, refl, ap, sym, ◌∙◌, List, [], ◌∷◌, ◌++◌, false, some, length, arith, inl, inr,
  append_assoc, append-nil,
}
use fos_simple_os.Memory.{pdx}
use fos_simple_os.Memory.Kept.{then-IsKept}
use fos_simple_os.PageFault.{Env, WorkingSetElement, replace_active, replace_second}
use fos_simple_os.PageFault.Steps.{IsLoadable-kept, load-returns, demote-returns, evict-returns}
use fos_simple_os.PageFault.Lru.{pages_of, has, but_last, take_last-snoc, but_last-snoc}
use fos_simple_os.PageFault.Sound.{
  IsSound, IsReady, IsServed, resident, lru-full, length-resident, shift, length-snoc,
  tail-IsBacked, length-zero, moved_up, absent_everywhere,
}

snoc_lists :
    (e : Env) (rest : List WorkingSetElement) (last : WorkingSetElement)
    → e.second ≡ rest ++ last ∷ []
    → (pages_of e.active ++ pages_of rest) ++ last.virtual_address ∷ [] ≡ resident e
snoc_lists e rest last p =
    append_assoc (pages_of e.active) (pages_of rest) (last.virtual_address ∷ [])
    ∙ ap (λ k. pages_of e.active ++ k) (sym (shift rest last [] p) ∙ append-nil (pages_of e.second))

-- A new page, when no element is left and there is a second list.
pub replace_second-serves :
    (e : Env) (va : ℕ)
    → IsSound e
    → IsReady e va
    → length e.page_list ≡ 0
    → length e.active ≡ e.active_size
    → has va (pages_of e.second) ≡ false
    → 0 < length e.second
    → (e' : Env) × (replace_second e va ≡ some e') × IsServed e va e'
unfolding replace_second
replace_second-serves e va s r none_left full h some_second =
    let (rest, last, q1, p1) = take_last-snoc e.second some_second in
    let b1 = tail-IsBacked rest last p1 r.second_backed in
    let (m1, v, k1) = evict-returns e.mem last.virtual_address b1.low r.loadable.directory in
    let (front, tail, q2, p2) = take_last-snoc e.active (omega (arith, s.room)) in
    let b2 = tail-IsBacked front tail p2 r.active_backed in
    let (m2, d, k2) =
      demote-returns (record e { mem = m1; second = rest }) q2
        (ap (λ t. t (pdx tail.virtual_address)) k1.tables ∙ b2.table) in
    let fault : WorkingSetElement = record last { virtual_address = va } in
    let e1 : Env = record e { mem = m2; active = front; second = tail ∷ rest } in
    let k = then-IsKept 0 0 k1 k2 in
    let (m3, q3) =
      load-returns e1 fault (IsLoadable-kept k r.loadable) (omega (arith, k.frames, r.frames)) in
    (
      record e1 { mem = m3; active = fault ∷ front },
      rw (q1, v, d, q3) refl,
      record {
        stack =
            moved_up e va front tail fault rest refl p2
            ∙ ap (λ k. va ∷ k)
                (sym (but_last-snoc (pages_of e.active ++ pages_of rest) last.virtual_address)
                  ∙ ap but_last (snoc_lists e rest last p1))
            ∙ sym (
                lru-full (e.active_size + e.second_size) va (resident e)
                  (absent_everywhere e va r h)
                  (omega (arith, s.sizes, length-resident e, none_left)));
        sound = record {
          sizes = omega (arith, s.sizes, length-snoc front tail p2, length-snoc rest last p1);
          bounded = omega (arith, s.bounded, length-snoc front tail p2);
          filled = inr (omega (arith, length-snoc front tail p2));
          room = s.room;
        };
      },
    )

-- A new page, when no element is left and there is no second list.
pub replace_active-serves :
    (e : Env) (va : ℕ)
    → IsSound e
    → IsReady e va
    → length e.page_list ≡ 0
    → e.second_size ≡ 0
    → has va (pages_of e.second) ≡ false
    → (e' : Env) × (replace_active e va ≡ some e') × IsServed e va e'
unfolding replace_active pages_of
replace_active-serves e va s r none_left no_second h =
    let full : length e.active ≡ e.active_size = elim s.filled [
      | inl n ↦ omega (arith, s.sizes, ap length n)
      | inr f ↦ f
    ] in
    let nil : e.second ≡ [] = length-zero e.second (omega (arith, s.sizes)) in
    let (front, tail, q, p) = take_last-snoc e.active (omega (arith, s.room)) in
    let b = tail-IsBacked front tail p r.active_backed in
    let (m1, v, k) = evict-returns e.mem tail.virtual_address b.low r.loadable.directory in
    let fault : WorkingSetElement = record tail { virtual_address = va } in
    let (m2, q2) =
      load-returns (record e { mem = m1; active = front }) fault (IsLoadable-kept k r.loadable)
        (omega (arith, k.frames, r.frames)) in
    (
      record e { mem = m2; active = fault ∷ front },
      rw (q, v, q2) refl,
      record {
        stack =
            ap (λ k. va ∷ (pages_of front ++ pages_of k)) nil
            ∙ ap (λ k. va ∷ k)
                (append-nil (pages_of front)
                  ∙ sym (but_last-snoc (pages_of front) tail.virtual_address)
                  ∙ ap but_last (
                      sym (shift front tail [] p)
                      ∙ ap (λ k. pages_of e.active ++ pages_of k) (sym nil)))
            ∙ sym (
                lru-full (e.active_size + e.second_size) va (resident e)
                  (absent_everywhere e va r h)
                  (omega (arith, s.sizes, length-resident e, none_left)));
        sound = record {
          sizes = omega (arith, s.sizes, length-snoc front tail p);
          bounded = omega (arith, s.bounded, length-snoc front tail p);
          filled = inl nil;
          room = s.room;
        };
      },
    )
