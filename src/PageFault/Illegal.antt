-- ===== src/PageFault/Illegal.antt =====
-- A page that is neither in the page file nor in the stack stops the kernel.
use fos_simple_os.Prelude.{
  ℕ, ◌≡◌, refl, ap, ◌∙◌, List, [], ◌∷◌, true, false, ◌==◌, none, some, ◌>>=◌, option_cases,
  Bool-cases, length, arith, ◌⊎◌, inl, inr, eq_or_ne, ==_ne, ==_refl, round_down, ltb, ltb→lt,
}
use fos_simple_os.Memory.{
  Mem, Perm, pdx, get_frame_info, pt_get_page_permissions, allocate_frame, unmap_frame,
  pt_set_page_permissions, user_page, only_present, no_perm,
}
use fos_simple_os.Memory.PageFile.{pf_update_env_page, kernel_base}
use fos_simple_os.Memory.Kept.{
  IsKept, then-IsKept, in_file, allocate_frame-IsKept, map_frame-IsKept, pf_read-IsKept,
  pt_set-IsKept, unmap-IsKept,
}
use fos_simple_os.PageFault.{
  Env, WorkingSetElement, take_last, take_page, new_stack_page, load, evict, replace_active,
  replace_second, fault_when_full, demote, place, fault_with_room, page_fault_handler,
}
use fos_simple_os.PageFault.Lru.{pages_of, has, take_page-cases}
use fos_simple_os.PageFault.Steps.{in_file-kept, in_stack, evict-returns}

-- A page that the handler must not load.
pub record IsIllegal (m : Mem) (va : ℕ) : Type 0 where
  pub table : m.tables (pdx va) ≡ true
  pub directory : m.disk_directory ≡ true
  pub not_in_file : in_file m va ≡ false
  pub not_in_stack : in_stack va ≡ false

pub IsIllegal-kept :
    {n : ℕ} {m m' : Mem} {va : ℕ} → IsKept n m m' → IsIllegal m va → IsIllegal m' va
IsIllegal-kept {va = va} k l = record {
  table = ap (λ t. t (pdx va)) k.tables ∙ l.table;
  directory = k.directory ∙ l.directory;
  not_in_file = in_file-kept va k ∙ l.not_in_file;
  not_in_stack = l.not_in_stack;
}

allocate-none : (m : Mem) → length m.free_frames ≡ 0 → allocate_frame m ≡ none
unfolding allocate_frame
allocate-none m h = no_first m.free_frames refl h
  where
    no_first : (l : List ℕ) → m.free_frames ≡ l → length m.free_frames ≡ 0 → allocate_frame m ≡ none
    no_first [] q h = rw q refl
    no_first (f ∷ l) q h = absurd (omega (arith, h, ap length q))

new_stack_page-none : (m : Mem) (va : ℕ) → in_stack va ≡ false → new_stack_page m va va ≡ none
unfolding new_stack_page
new_stack_page-none m va h = rw h refl

pub load-none :
    (e : Env) (fault : WorkingSetElement)
    → IsIllegal e.mem fault.virtual_address
    → round_down fault.virtual_address 4096 ≡ fault.virtual_address
    → load e fault fault.virtual_address ≡ none
unfolding load
load-none e fault l al = elim (eq_or_ne (length e.mem.free_frames) 0) [
  | inl z ↦ rw (allocate-none e.mem z) refl
  | inr n ↦
      let va : ℕ = fault.virtual_address in
      let (f, m1, q1, k1) = allocate_frame-IsKept e.mem (omega arith) in
      let l1 = IsIllegal-kept k1 l in
      let (m2, q2, k2) = map_frame-IsKept m1 f va user_page l1.table in
      let l2 = IsIllegal-kept k2 l1 in
      let (m3, q3, k3) = pf_read-IsKept m2 va l2.table l2.directory al in
      rw (q1, q2, q3, l2.not_in_file, new_stack_page-none m3 va l.not_in_stack) refl
]

place-none : (e : Env) (va : ℕ) → IsIllegal e.mem va → round_down va 4096 ≡ va → place e va ≡ none
unfolding place
place-none e va l al = elim (option_cases (take_last e.page_list)) [
  | inl q ↦ rw q refl
  | inr ((rest, x), q) ↦
      rw (q, load-none (record e { page_list = rest }) (record x { virtual_address = va }) l al)
        refl
]

pt_set-none :
    (m : Mem) (va : ℕ) (on off : Perm)
    → m.tables (pdx va) ≡ false
    → pt_set_page_permissions m va on off ≡ none
unfolding pt_set_page_permissions
pt_set-none m va on off h = rw h refl

pf_update-none :
    (m : Mem) (va f : ℕ) → ltb va kernel_base ≡ false → pf_update_env_page m va f ≡ none
unfolding pf_update_env_page
pf_update-none m va f h = rw h refl

-- `demote` stops, or keeps the tables.
demote-cases :
    (e : Env) → (demote e ≡ none) ⊎ ((e1 : Env) × (demote e ≡ some e1) × IsKept 0 e.mem e1.mem)
unfolding demote
demote-cases e = elim (option_cases (take_last e.active)) [
  | inl q ↦ inl (rw q refl)
  | inr ((rest, x), q) ↦ elim (Bool-cases (e.mem.tables (pdx x.virtual_address))) [
    | inl t ↦
        let (m1, p, k) = pt_set-IsKept e.mem x.virtual_address no_perm only_present t in
        inr (record e { mem = m1; active = rest; second = x ∷ e.second }, rw (q, p) refl, k)
    | inr f ↦ inl (rw (q, pt_set-none e.mem x.virtual_address no_perm only_present f) refl)
  ]
]

-- `evict` stops, or keeps the tables.
evict-cases :
    (m : Mem) (va : ℕ)
    → m.disk_directory ≡ true
    → (evict m va ≡ none) ⊎ ((m' : Mem) × (evict m va ≡ some m') × IsKept 0 m m')
unfolding evict
evict-cases m va d = elim (Bool-cases (ltb va kernel_base)) [
  | inl b ↦ inr (evict-returns m va (ltb→lt va kernel_base b) d)
  | inr g ↦ elim (Bool-cases (pt_get_page_permissions m va).modified) [
    | inr n ↦ inr (unmap_frame m va, rw n refl, unmap-IsKept m va)
    | inl y ↦ elim (option_cases (get_frame_info m va)) [
      | inl q ↦ inl (rw (y, q) refl)
      | inr (f, q) ↦ inl (rw (y, q, pf_update-none m va f g) refl)
    ]
  ]
]

demote-place-none :
    (e : Env) (va : ℕ)
    → IsIllegal e.mem va
    → round_down va 4096 ≡ va
    → (demote e >>= λ e1. place e1 va) ≡ none
demote-place-none e va l al = elim (demote-cases e) [
  | inl q ↦ rw q refl
  | inr (e1, q, k) ↦ rw q (place-none e1 va (IsIllegal-kept k l) al)
]

replace_active-none :
    (e : Env) (va : ℕ) → IsIllegal e.mem va → round_down va 4096 ≡ va → replace_active e va ≡ none
unfolding replace_active
replace_active-none e va l al = elim (option_cases (take_last e.active)) [
  | inl q ↦ rw q refl
  | inr ((rest, x), q) ↦ elim (evict-cases e.mem x.virtual_address l.directory) [
    | inl v ↦ rw (q, v) refl
    | inr (m1, v, k) ↦
        rw
          (
            q,
            v,
            load-none (record e { mem = m1; active = rest }) (record x { virtual_address = va })
                (IsIllegal-kept k l) al,
          )
          refl
  ]
]

replace_second-none :
    (e : Env) (va : ℕ) → IsIllegal e.mem va → round_down va 4096 ≡ va → replace_second e va ≡ none
unfolding replace_second
replace_second-none e va l al = elim (option_cases (take_last e.second)) [
  | inl q ↦ rw q refl
  | inr ((rest, x), q) ↦ elim (evict-cases e.mem x.virtual_address l.directory) [
    | inl v ↦ rw (q, v) refl
    | inr (m1, v, k1) ↦ elim (demote-cases (record e { mem = m1; second = rest })) [
      | inl d ↦ rw (q, v, d) refl
      | inr (e1, d, k2) ↦
          rw
            (
              q,
              v,
              d,
              load-none e1 (record x { virtual_address = va })
                  (IsIllegal-kept (then-IsKept 0 0 k1 k2) l) al,
            )
            refl
    ]
  ]
]

take_page-none :
    (va : ℕ) (l : List WorkingSetElement) → has va (pages_of l) ≡ false → take_page va l ≡ none
take_page-none va l h = elim (take_page-cases va l) [
  | inl (q, n) ↦ q
  | inr (rest, x, q, at, y, w, len) ↦ absurd (cc)
]

illegal_with_room :
    (e : Env) (va : ℕ)
    → IsIllegal e.mem va
    → round_down va 4096 ≡ va
    → has va (pages_of e.second) ≡ false
    → fault_with_room e va ≡ none
unfolding fault_with_room
illegal_with_room e va l al h = elim (eq_or_ne (length e.active) e.active_size) [
  | inl full ↦
      rw (full, ==_refl e.active_size, take_page-none va e.second h) (demote-place-none e va l al)
  | inr n ↦ rw (==_ne (length e.active) e.active_size n) (place-none e va l al)
]

illegal_when_full :
    (e : Env) (va : ℕ)
    → IsIllegal e.mem va
    → round_down va 4096 ≡ va
    → has va (pages_of e.second) ≡ false
    → fault_when_full e va ≡ none
unfolding fault_when_full
illegal_when_full e va l al h = elim (Bool-cases (e.second_size == 0)) [
  | inl z ↦ rw (take_page-none va e.second h, fault_when_full, z) (replace_active-none e va l al)
  | inr n ↦ rw (take_page-none va e.second h, fault_when_full, n) (replace_second-none e va l al)
]

round_down-twice : (x : ℕ) → round_down (round_down x 4096) 4096 ≡ round_down x 4096
round_down-twice x = omega arith

-- page_fault_handler at a page whose table is there, which is neither in the second list nor in the
-- page file nor in the user stack, stops the kernel, on every branch, when the page file has its
-- directory.
pub page_fault_handler-illegal :
    (e : Env) (fault_va : ℕ)
    → IsIllegal e.mem (round_down fault_va 4096)
    → has (round_down fault_va 4096) (pages_of e.second) ≡ false
    → page_fault_handler e fault_va ≡ none
unfolding page_fault_handler
page_fault_handler-illegal e fault_va l h = elim (Bool-cases (length e.page_list == 0)) [
  | inl z ↦ rw z (illegal_when_full e (round_down fault_va 4096) l (round_down-twice fault_va) h)
  | inr n ↦ rw n (illegal_with_room e (round_down fault_va 4096) l (round_down-twice fault_va) h)
]
