-- ===== src/PageFault/Steps.antt =====
-- The steps of page_fault_handler return, and what they do to the lists.
use fos_simple_os.Prelude.{
  ℕ, ◌/◌, ◌≤◌, ◌<◌, ◌≡◌, refl, ap, ◌∙◌, List, ◌∷◌, Bool, true, ◌&&◌, ltb, leb, some, Bool-cases,
  length, arith, ◌⊎◌, inl, inr, round_down,
}
use fos_simple_os.Memory.{
  Mem, pdx, unmap_frame, get_frame_info, pt_get_page_permissions, user_page, only_present, no_perm,
}
use fos_simple_os.Memory.PageFile.{disk_frame_of, kernel_base}
use fos_simple_os.Memory.Kept.{
  IsKept, then-IsKept, allocate_frame-IsKept, pt_set-IsKept, unmap-IsKept, map_frame-IsKept,
  in_file, pf_read-IsKept, pf_update-IsKept, pf_add-returns,
}
use fos_simple_os.PageFault.{
  Env, WorkingSetElement, user_stack_top, user_stack_bottom, take_last, new_stack_page, load,
  demote, evict,
}

pub in_file-kept : {n : ℕ} {m m' : Mem} (va : ℕ) → IsKept n m m' → in_file m' va ≡ in_file m va
unfolding disk_frame_of
in_file-kept va k = rw (k.disk_tables, k.disk_pages) refl

-- The page lies in the user stack.
abbrev pub in_stack : ℕ → Bool
in_stack va = ltb va user_stack_top && leb user_stack_bottom va

-- A page that the handler may load: its table is there, and it is in the page file or the stack.
pub record IsLoadable (m : Mem) (va : ℕ) : Type 0 where
  pub table : m.tables (pdx va) ≡ true
  pub low : va < kernel_base
  pub aligned : round_down va 4096 ≡ va
  pub directory : m.disk_directory ≡ true
  pub known : (in_file m va ≡ true) ⊎ (in_stack va ≡ true)

pub IsLoadable-kept :
    {n : ℕ} {m m' : Mem} {va : ℕ} → IsKept n m m' → IsLoadable m va → IsLoadable m' va
IsLoadable-kept {va = va} k l = record {
  table = ap (λ t. t (pdx va)) k.tables ∙ l.table;
  low = l.low;
  aligned = l.aligned;
  directory = k.directory ∙ l.directory;
  known = elim l.known [ inl f ↦ inl (in_file-kept va k ∙ f) | inr s ↦ inr s ];
}

new_stack_page-returns :
    (m : Mem) (va : ℕ)
    → va < kernel_base
    → m.disk_directory ≡ true
    → 1 ≤ length m.free_frames
    → in_stack va ≡ true
    → (m' : Mem) × (new_stack_page m va va ≡ some m')
unfolding new_stack_page
new_stack_page-returns m va b d h s =
    let (m', added, q) = pf_add-returns m va b d h in (m', rw (s, q) refl)

-- A page that may be loaded is, with two free frames: its element heads the active list.
pub load-returns :
    (e : Env) (fault : WorkingSetElement)
    → IsLoadable e.mem fault.virtual_address
    → 2 ≤ length e.mem.free_frames
    → (m' : Mem) × (load e fault fault.virtual_address
        ≡ some (record e { mem = m'; active = fault ∷ e.active }))
unfolding load
load-returns e fault l h =
    let va : ℕ = fault.virtual_address in
    let (f, m1, q1, k1) = allocate_frame-IsKept e.mem (omega arith) in
    let l1 = IsLoadable-kept k1 l in
    let (m2, q2, k2) = map_frame-IsKept m1 f va user_page l1.table in
    let l2 = IsLoadable-kept k2 l1 in
    let (m3, q3, k3) = pf_read-IsKept m2 va l2.table l2.directory l2.aligned in
    let l3 = IsLoadable-kept k3 l2 in
    elim (Bool-cases (in_file m2 va)) [
      | inl y ↦ (m3, rw (q1, q2, q3, y) refl)
      | inr n ↦ elim l2.known [
        | inl y ↦ absurd (cc)
        | inr s ↦
            let (m4, q4) =
              new_stack_page-returns m3 va l.low l3.directory
                (omega (arith, h, k1.frames, k2.frames, k3.frames)) s in
            (m4, rw (q1, q2, q3, n, q4) refl)
      ]
    ]

pub demote-returns :
    (e : Env) {rest : List WorkingSetElement} {tail : WorkingSetElement}
    → take_last e.active ≡ some (rest, tail)
    → e.mem.tables (pdx tail.virtual_address) ≡ true
    → (m' : Mem) × (demote e
        ≡ some (record e { mem = m'; active = rest; second = tail ∷ e.second }))
      × IsKept 0 e.mem m'
unfolding demote
demote-returns e {rest} {tail} q t =
    let (m', p, k) = pt_set-IsKept e.mem tail.virtual_address no_perm only_present t in
    (m', rw (q, p) refl, k)

modified-frame :
    (m : Mem) (va : ℕ)
    → (pt_get_page_permissions m va).modified ≡ true
    → get_frame_info m va ≡ some (m.pages (va / 4096)).frame
unfolding pt_get_page_permissions get_frame_info
modified-frame m va h = ground arith

pub evict-returns :
    (m : Mem) (va : ℕ)
    → va < kernel_base
    → m.disk_directory ≡ true
    → (m' : Mem) × (evict m va ≡ some m') × IsKept 0 m m'
unfolding evict
evict-returns m va b d = elim (Bool-cases (pt_get_page_permissions m va).modified) [
  | inl y ↦
      let f : ℕ = (m.pages (va / 4096)).frame in
      let (m1, q, k) = pf_update-IsKept m va f b d in
      (
        unmap_frame m1 va,
        rw (y, modified-frame m va y, q) refl,
        then-IsKept 0 0 k (unmap-IsKept m1 va),
      )
  | inr n ↦ (unmap_frame m va, rw n refl, unmap-IsKept m va)
]
