-- ===== src/PageFault/Served.antt =====
-- The branches of page_fault_handler without eviction return and serve the fault as LRU does.
use fos_simple_os.Prelude.{
  ℕ, suc, ◌+◌, ◌<◌, ◌≡◌, ◌≢◌, refl, ap, sym, ◌∙◌, List, [], ◌∷◌, ◌++◌, true, false, some, length,
  arith, inl, inr, ◌>>=◌,
}
use fos_simple_os.Memory.{pdx, only_present, no_perm}
use fos_simple_os.Memory.Kept.{pt_set-IsKept}
use fos_simple_os.PageFault.{Env, WorkingSetElement, demote, promote, place}
use fos_simple_os.PageFault.Steps.{IsLoadable-kept, load-returns, demote-returns}
use fos_simple_os.PageFault.Lru.{
  pages_of, without, has, take_last-snoc, has-append-false, without-append-false,
}
use fos_simple_os.PageFault.Sound.{
  IsSound, IsReady, IsServed, resident, lru-hit, lru-room, length-resident, length-snoc,
  tail-IsBacked, moved_up, absent_everywhere,
}

-- A fault in the second list, when the active one is full.
pub promote-serves :
    (e : Env) (va : ℕ) (rest : List WorkingSetElement) (fault : WorkingSetElement)
    → IsSound e
    → IsReady e va
    → length e.active ≡ e.active_size
    → fault.virtual_address ≡ va
    → has va (pages_of e.second) ≡ true
    → pages_of rest ≡ without va (pages_of e.second)
    → length e.second ≡ suc (length rest)
    → (e' : Env) × (promote e rest fault ≡ some e') × IsServed e va e'
unfolding promote
promote-serves e va rest fault s r full at h w len =
    let (m1, q1, k1) =
      pt_set-IsKept e.mem fault.virtual_address only_present no_perm (rw at r.loadable.table) in
    let (front, tail, q2, p) = take_last-snoc e.active (omega (arith, s.room)) in
    let b = tail-IsBacked front tail p r.active_backed in
    let (m2, q3, k2) =
      demote-returns (record e { mem = m1; second = rest }) q2
        (ap (λ t. t (pdx tail.virtual_address)) k1.tables ∙ b.table) in
    (
      record e { mem = m2; active = fault ∷ front; second = tail ∷ rest },
      rw (q1, q3) refl,
      record {
        stack =
            moved_up e va front tail fault rest at p
            ∙ ap (λ k. va ∷ (pages_of e.active ++ k)) w
            ∙ sym (
                ap (λ k. va ∷ k)
                  (without-append-false va (pages_of e.active) (pages_of e.second) r.absent))
            ∙ sym (
                lru-hit (e.active_size + e.second_size) va (resident e)
                  (has-append-false va (pages_of e.active) (pages_of e.second) r.absent ∙ h));
        sound = record {
          sizes = omega (arith, s.sizes, length-snoc front tail p);
          bounded = omega (arith, s.bounded, length-snoc front tail p);
          filled = inr (omega (arith, length-snoc front tail p));
          room = s.room;
        };
      },
    )

-- A new page, when elements are left and the active list is not full.
pub place-serves :
    (e : Env) (va : ℕ)
    → IsSound e
    → IsReady e va
    → length e.active ≢ e.active_size
    → 0 < length e.page_list
    → (e' : Env) × (place e va ≡ some e') × IsServed e va e'
unfolding place pages_of has
place-serves e va s r gap left =
    let (rest, last, q, p) = take_last-snoc e.page_list left in
    let fault : WorkingSetElement = record last { virtual_address = va } in
    let (m, q2) = load-returns (record e { page_list = rest }) fault r.loadable r.frames in
    let none_second : e.second ≡ [] = elim s.filled [ inl n ↦ n | inr f ↦ absurd (gap f) ] in
    (
      record e { mem = m; page_list = rest; active = fault ∷ e.active },
      rw (q, q2) refl,
      record {
        stack = sym (
            lru-room (e.active_size + e.second_size) va (resident e)
              (absent_everywhere e va r (rw none_second refl))
              (λ w. absurd (omega (arith, s.sizes, w, length-resident e, left))));
        sound = record {
          sizes = omega (arith, s.sizes, length-snoc rest last p);
          bounded = omega (arith, s.bounded, gap);
          filled = inl none_second;
          room = s.room;
        };
      },
    )

-- A new page, when elements are left and the active list is full.
pub demote-place-serves :
    (e : Env) (va : ℕ)
    → IsSound e
    → IsReady e va
    → length e.active ≡ e.active_size
    → has va (pages_of e.second) ≡ false
    → 0 < length e.page_list
    → (e' : Env) × ((demote e >>= λ e1. place e1 va) ≡ some e') × IsServed e va e'
unfolding place
demote-place-serves e va s r full h left =
    let (front, tail, q1, p1) = take_last-snoc e.active (omega (arith, s.room)) in
    let (m1, d, k) = demote-returns e q1 (tail-IsBacked front tail p1 r.active_backed).table in
    let (rest, last, q2, p2) = take_last-snoc e.page_list left in
    let fault : WorkingSetElement = record last { virtual_address = va } in
    let e1 : Env = record e {
      mem = m1;
      active = front;
      second = tail ∷ e.second;
      page_list = rest;
    } in
    let (m2, q3) =
      load-returns e1 fault (IsLoadable-kept k r.loadable) (omega (arith, k.frames, r.frames)) in
    (
      record e1 { mem = m2; active = fault ∷ front },
      rw (d, q2, q3) refl,
      record {
        stack =
            moved_up e va front tail fault e.second refl p1
            ∙ sym (
                lru-room (e.active_size + e.second_size) va (resident e)
                  (absent_everywhere e va r h)
                  (λ w. absurd (omega (arith, s.sizes, w, length-resident e, left))));
        sound = record {
          sizes = omega (arith, s.sizes, length-snoc front tail p1, length-snoc rest last p2);
          bounded = omega (arith, s.bounded, length-snoc front tail p1);
          filled = inr (omega (arith, length-snoc front tail p1));
          room = s.room;
        };
      },
    )
