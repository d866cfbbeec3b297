-- ===== src/Queue/Walk.antt =====
-- LIST_FOREACH: what a walk visits, also when its body takes the current node out of the list.
use fos_simple_os.Prelude.{
  ℕ, suc, zero, ◌≡◌, refl, ap, ◌≢◌, List, [], ◌∷◌, arith, length, ◌<◌, Bool-cases, inl, inr, ◌==◌,
}
use fos_simple_os.Queue.{Lists, remove, foreach, for_all}
use fos_simple_os.Queue.Seg.{Seg, Holds}
use fos_simple_os.Queue.Remove.{remove-Holds}

-- A body that changes nothing, as in the searches of the kernel.
abbrev pub look : Lists → ℕ → Lists
look s var = s

foreach-done : (fuel : ℕ) (body : Lists → ℕ → Lists) (s : Lists) → foreach fuel body 0 s ≡ (s, [])
unfolding foreach
foreach-done zero body s = refl
foreach-done (suc fuel) body s = refl

foreach-step :
    (fuel : ℕ) (body : Lists → ℕ → Lists) (s : Lists) (x : ℕ)
    → x ≢ 0
    → foreach (suc fuel) body x s
      ≡ (let (s', rest) = foreach fuel body (s.next x) (body s x) in (s', x ∷ rest))
unfolding foreach
foreach-step fuel body s x nz = elim (Bool-cases (s.next x == 0)) [
  | inl e ↦ ground arith
  | inr e ↦ ground arith
]

-- The pointer with which a segment starts.
abbrev start : List ℕ → ℕ
start [] = 0
start (x ∷ l) = x

Seg-start :
    (next prev : ℕ → ℕ) (b p : ℕ) (l : List ℕ) (c : ℕ) → Seg next prev b p l c 0 → p ≡ start l
Seg-start next prev b p [] c g = g.0
Seg-start next prev b p (x ∷ l) c g = g.0

-- A walk from a segment's start visits the segment.
foreach-look :
    (fuel : ℕ) (s : Lists) (b p c : ℕ) (l : List ℕ)
    → Seg s.next s.prev b p l c 0
    → length l < fuel
    → foreach fuel look p s ≡ (s, l)
foreach-look zero s b p c l g h = elim h [ ]
foreach-look (suc fuel) s b p c [] g h = rw g.0 (foreach-done (suc fuel) look s)
foreach-look (suc fuel) s b p c (x ∷ l) g h =
    rw (g.0, foreach-step fuel look s x g.1, foreach-look fuel s x (s.next x) c l g.3 (omega arith))

foreach-remove :
    (fuel : ℕ) (s : Lists) (p : ℕ) (l : List ℕ)
    → Holds s l
    → p ≡ start l
    → length l < fuel
    → ((foreach fuel remove p s).1 ≡ l) × Holds (foreach fuel remove p s).0 []
foreach-remove zero s p l v e h = elim h [ ]
foreach-remove (suc fuel) s p [] v e h = rw (e, foreach-done (suc fuel) remove s) (refl, v)
foreach-remove (suc fuel) s p (x ∷ l) v e h =
    let ih =
      foreach-remove fuel (remove s x) (s.next x) l (remove-Holds s [] l x v)
        (Seg-start s.next s.prev x (s.next x) l s.last v.chain.3) (omega arith) in
    rw (e, foreach-step fuel remove s x v.chain.1) (ap (λ t. x ∷ t) ih.0, ih.1)

-- With fuel for one round more than the list is long, LIST_FOREACH visits the list's nodes in
-- order, each once, and leaves the list as it was.
pub for_all-look :
    (fuel : ℕ) (s : Lists) (l : List ℕ) → Holds s l → length l < fuel → for_all fuel look s ≡ (s, l)
unfolding for_all
for_all-look fuel s l v h = foreach-look fuel s 0 s.first s.last l v.chain h

-- A LIST_FOREACH whose body removes the current node still visits every node of the list in order,
-- and ends with the empty list.
pub for_all-remove :
    (fuel : ℕ) (s : Lists) (l : List ℕ)
    → Holds s l
    → length l < fuel
    → ((for_all fuel remove s).1 ≡ l) × Holds (for_all fuel remove s).0 []
unfolding for_all
for_all-remove fuel s l v h =
    foreach-remove fuel s s.first l v (Seg-start s.next s.prev 0 s.first l s.last v.chain) h
