-- ===== src/SystemCalls/Frames/Lost.antt =====
-- What __sys_allocate_page and sys_clearFFL do to the free frames.
use fos_simple_os.Prelude.{
  ℕ, ◌≡◌, refl, List, [], ◌∷◌, true, Option, some, ◌>>=◌, length, arith, All, Each, Each-bind,
  Each-if,
}
use fos_simple_os.Memory.{Mem, put, allocate_frame, map_frame}
use fos_simple_os.Memory.Safe.{IsSafe, IsFresh, allocate_frame-IsSafe, allocate-some, put_at}
use fos_simple_os.Memory.Filing.{contents-IsSafe}
use fos_simple_os.Memory.Paging.{map_frame-IsSafe}
use fos_simple_os.SystemCalls.Frames.{
  is_invalid, e_inval, perm_bits, use_frame, sys_allocate_page, take_frames, sys_clear_ffl,
}

use_frame-IsSafe :
    (va perm f : ℕ) (m : Mem)
    → IsSafe m
    → IsFresh f m
    → Each (λ r. IsSafe r.1) (use_frame va perm f m)
unfolding use_frame
use_frame-IsSafe va perm f m s h =
    let m0 : Mem = record m { ram = put m.ram f 0 } in
    Each-if (λ r. IsSafe r.1) (is_invalid va perm) _ _ (λ b. s)
      (λ b.
        Each-bind IsSafe (λ r. IsSafe r.1) (map_frame m0 f va (perm_bits perm)) _
          (map_frame-IsSafe m0 f va (perm_bits perm) (contents-IsSafe m (put m.ram f 0) s)
            (record { used = h.used; not_free = h.not_free; low = omega (arith, h.single) }))
          (λ m1 s1. s1))

-- __sys_allocate_page keeps the frames accounted for when it returns, errors included.
pub sys_allocate_page-IsSafe :
    (m : Mem) (va perm : ℕ) → IsSafe m → Each (λ r. IsSafe r.1) (sys_allocate_page m va perm)
unfolding sys_allocate_page
sys_allocate_page-IsSafe m va perm s =
    Each-bind (λ r. IsSafe r.1 × IsFresh r.0 r.1) (λ r. IsSafe r.1) (allocate_frame m) _
      (allocate_frame-IsSafe m s) (λ r h. use_frame-IsSafe va perm r.0 r.1 h.0 h.1)

invalid :
    (va perm f : ℕ) (m : Mem)
    → is_invalid va perm ≡ true
    → use_frame va perm f m ≡ some (e_inval, m)
unfolding use_frame
invalid va perm f m b = rw (use_frame, b) refl

-- With an argument that it refuses, __sys_allocate_page returns E_INVAL and has taken the first free
-- frame, which no page holds and nothing refers to.
pub sys_allocate_page-loses :
    (m : Mem) (va perm f : ℕ) (rest : List ℕ)
    → is_invalid va perm ≡ true
    → m.free_frames ≡ f ∷ rest
    → (m' : Mem) × (sys_allocate_page m va perm ≡ some (e_inval, m'))
      × (m'.free_frames ≡ rest)
      × (m'.references f ≡ 0)
      × (m'.pages ≡ m.pages)
unfolding sys_allocate_page
sys_allocate_page-loses m va perm f rest b q =
    let m' : Mem = record m { free_frames = rest; references = put m.references f 0 } in
    (
      m',
      rw (sys_allocate_page, allocate-some m f rest q, invalid va perm f m' b) refl,
      refl,
      put_at m.references f 0 f refl,
      refl,
    )

-- The first calls of a program, each with its address and permissions.
pub run_calls : List (ℕ × ℕ) → Mem → Option Mem
unfolding sys_allocate_page
run_calls [] m = some m
run_calls ((va, perm) ∷ calls) m = sys_allocate_page m va perm >>= λ (r, m1). run_calls calls m1

abbrev pub AreInvalid : List (ℕ × ℕ) → Type 0
AreInvalid = All (λ c. is_invalid c.0 c.1 ≡ true)

take_frames-none :
    (l : List ℕ) (m : Mem)
    → m.free_frames ≡ l
    → (m' : Mem) × (take_frames (length l) m ≡ some m') × (m'.free_frames ≡ [])
unfolding take_frames
take_frames-none [] m q = (m, refl, q)
take_frames-none (f ∷ l) m q =
    let m1 : Mem = record m { free_frames = l; references = put m.references f 0 } in
    let (m', e, h) = take_frames-none l m1 refl in
    (m', rw (take_frames, allocate-some m f l q, e) refl, h)

-- sys_clearFFL returns and leaves no free frame.
pub sys_clear_ffl-none :
    (m : Mem) → (m' : Mem) × (sys_clear_ffl m ≡ some m') × (m'.free_frames ≡ [])
unfolding sys_clear_ffl
sys_clear_ffl-none m = take_frames-none m.free_frames m refl
