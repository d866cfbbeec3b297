-- ===== src/PageFault/Safety.antt =====
-- page_fault_handler keeps the frames accounted for.
use fos_simple_os.Prelude.{
  ℕ, ◌≢◌, refl, List, [], ◌∷◌, Bool, ◌&&◌, if◌then◌else◌, ◌==◌, Option, none, some, ◌>>=◌, length,
  inl, inr, All, round_down, ltb, leb, Each, Each-bind, Each-if,
}
use fos_simple_os.Memory.{
  Mem, page, allocate_frame, map_frame, get_frame_info, pt_set_page_permissions,
  pt_get_page_permissions, user_page, only_present, no_perm,
}
use fos_simple_os.Memory.PageFile.{pf_read_env_page, pf_add_empty_env_page, pf_update_env_page}
use fos_simple_os.Memory.Safe.{IsSafe, IsFresh, allocate_frame-IsSafe}
use fos_simple_os.Memory.Unmapping.{unmap-IsSafe}
use fos_simple_os.Memory.Paging.{fresh-IsOwn, map_frame-IsSafe}
use fos_simple_os.Memory.Filing.{pt_set-IsSafe, pf_add-IsSafe, pf_update-IsSafe, pf_read-IsSafe}
use fos_simple_os.PageFault.{
  Env, WorkingSetElement, user_stack_top, user_stack_bottom, take_last, take_page, new_stack_page,
  load, demote, promote, evict, replace_active, replace_second, place, fault_with_room,
  fault_when_full, page_fault_handler,
}

abbrev pub Safely : Option Env → Type 0
Safely = Each (λ e. IsSafe e.mem)

always {ℓ} : {A : Type ℓ} (o : Option A) → Each (λ x. Unit {0}) o
always none = tt
always (some a) = tt

new_stack_page-IsSafe :
    (m : Mem) (va fault_va : ℕ) → IsSafe m → Each IsSafe (new_stack_page m va fault_va)
unfolding new_stack_page
new_stack_page-IsSafe m va fault_va s =
    Each-if IsSafe (ltb fault_va user_stack_top && leb user_stack_bottom fault_va) _ none
      (λ b.
        Each-bind (λ r. IsSafe r.0) IsSafe (pf_add_empty_env_page m va) _ (pf_add-IsSafe m va s)
          (λ r h. h))
      (λ b. tt)

load-IsSafe :
    (e : Env) (fault : WorkingSetElement) (fault_va : ℕ)
    → IsSafe e.mem
    → Safely (load e fault fault_va)
unfolding load
load-IsSafe e fault fault_va s =
    Each-bind {A = ℕ × Mem} (λ r. IsSafe r.1 × IsFresh r.0 r.1) (λ e'. IsSafe e'.mem)
      (allocate_frame e.mem) _ (allocate_frame-IsSafe e.mem s)
      (λ r h.
        Each-bind IsSafe (λ e'. IsSafe e'.mem) (map_frame r.1 r.0 fault.virtual_address user_page) _
          (map_frame-IsSafe r.1 r.0 fault.virtual_address user_page h.0 (fresh-IsOwn h.1))
          (λ m2 s2.
            Each-bind {A = Mem × Bool} (λ q. IsSafe q.0) (λ e'. IsSafe e'.mem)
              (pf_read_env_page m2 fault.virtual_address) _
              (pf_read-IsSafe m2 fault.virtual_address s2)
              (λ q s3.
                Each-bind IsSafe (λ e'. IsSafe e'.mem)
                  (if q.1 then some q.0 else new_stack_page q.0 fault.virtual_address fault_va) _
                  (Each-if IsSafe q.1 _ _ (λ b. s3)
                    (λ b. new_stack_page-IsSafe q.0 fault.virtual_address fault_va s3))
                  (λ m4 s4. s4))))

demote-IsSafe : (e : Env) → IsSafe e.mem → Safely (demote e)
unfolding demote
demote-IsSafe e s =
    Each-bind {A = List WorkingSetElement × WorkingSetElement} (λ r. Unit {0}) (λ e'. IsSafe e'.mem)
      (take_last e.active) _ (always (take_last e.active))
      (λ r h.
        Each-bind IsSafe (λ e'. IsSafe e'.mem)
          (pt_set_page_permissions e.mem r.1.virtual_address no_perm only_present) _
          (pt_set-IsSafe e.mem r.1.virtual_address no_perm only_present s (inr refl)) (λ m1 s1. s1))

promote-IsSafe :
    (e : Env) (rest : List WorkingSetElement) (fault : WorkingSetElement)
    → IsSafe e.mem
    → (e.mem.pages (page fault.virtual_address)).frame ≢ 0
    → Safely (promote e rest fault)
unfolding promote
promote-IsSafe e rest fault s n =
    Each-bind IsSafe (λ e'. IsSafe e'.mem)
      (pt_set_page_permissions e.mem fault.virtual_address only_present no_perm) _
      (pt_set-IsSafe e.mem fault.virtual_address only_present no_perm s (inl n))
      (λ m1 s1.
        Each-bind (λ e1. IsSafe e1.mem) (λ e'. IsSafe e'.mem)
          (demote (record e { mem = m1; second = rest })) _
          (demote-IsSafe (record e { mem = m1; second = rest }) s1) (λ e1 s2. s2))

evict-IsSafe : (m : Mem) (va : ℕ) → IsSafe m → Each IsSafe (evict m va)
unfolding evict
evict-IsSafe m va s =
    Each-bind IsSafe IsSafe
      (if (pt_get_page_permissions m va).modified
        then elim (get_frame_info m va) [ none ↦ none | some f ↦ pf_update_env_page m va f ]
        else some m)
      _
      (Each-if IsSafe (pt_get_page_permissions m va).modified _ _
        (λ b.
          elim (get_frame_info m va)
            as (λ o. Each IsSafe (elim o [ none ↦ none | some f ↦ pf_update_env_page m va f ])) [
              | none ↦ tt
              | some f ↦ pf_update-IsSafe m va f s
            ])
        (λ b. s))
      (λ m1 s1. unmap-IsSafe m1 va s1)

place-IsSafe : (e : Env) (va : ℕ) → IsSafe e.mem → Safely (place e va)
unfolding place
place-IsSafe e va s =
    Each-bind {A = List WorkingSetElement × WorkingSetElement} (λ r. Unit {0}) (λ e'. IsSafe e'.mem)
      (take_last e.page_list) _ (always (take_last e.page_list))
      (λ r h. load-IsSafe (record e { page_list = r.0 }) (record r.1 { virtual_address = va }) va s)

demote-place-IsSafe : (e : Env) (va : ℕ) → IsSafe e.mem → Safely (demote e >>= λ e1. place e1 va)
demote-place-IsSafe e va s =
    Each-bind (λ e1. IsSafe e1.mem) (λ e'. IsSafe e'.mem) (demote e) (λ e1. place e1 va)
      (demote-IsSafe e s) (λ e1 s1. place-IsSafe e1 va s1)

replace_active-IsSafe : (e : Env) (va : ℕ) → IsSafe e.mem → Safely (replace_active e va)
unfolding replace_active
replace_active-IsSafe e va s =
    Each-bind {A = List WorkingSetElement × WorkingSetElement} (λ r. Unit {0}) (λ e'. IsSafe e'.mem)
      (take_last e.active) _ (always (take_last e.active))
      (λ r h.
        Each-bind IsSafe (λ e'. IsSafe e'.mem) (evict e.mem r.1.virtual_address) _
          (evict-IsSafe e.mem r.1.virtual_address s)
          (λ m1 s1.
            load-IsSafe (record e { mem = m1; active = r.0 }) (record r.1 { virtual_address = va })
              va s1))

replace_second-IsSafe : (e : Env) (va : ℕ) → IsSafe e.mem → Safely (replace_second e va)
unfolding replace_second
replace_second-IsSafe e va s =
    Each-bind {A = List WorkingSetElement × WorkingSetElement} (λ r. Unit {0}) (λ e'. IsSafe e'.mem)
      (take_last e.second) _ (always (take_last e.second))
      (λ r h.
        Each-bind IsSafe (λ e'. IsSafe e'.mem) (evict e.mem r.1.virtual_address) _
          (evict-IsSafe e.mem r.1.virtual_address s)
          (λ m1 s1.
            Each-bind (λ e1. IsSafe e1.mem) (λ e'. IsSafe e'.mem)
              (demote (record e { mem = m1; second = r.0 })) _
              (demote-IsSafe (record e { mem = m1; second = r.0 }) s1)
              (λ e1 s2. load-IsSafe e1 (record r.1 { virtual_address = va }) va s2)))

-- The page of an element has a frame.
abbrev pub HasFrame : Mem → WorkingSetElement → Type 0
HasFrame m x = (m.pages (page x.virtual_address)).frame ≢ 0

take_page-HasFrame :
    (m : Mem) (va : ℕ) (l : List WorkingSetElement)
    → All (HasFrame m) l
    → Each (λ r. HasFrame m r.1) (take_page va l)
unfolding take_page
take_page-HasFrame m va [] a = tt
take_page-HasFrame m va (x ∷ l) a =
    Each-if {A = List WorkingSetElement × WorkingSetElement} (λ r. HasFrame m r.1)
      (x.virtual_address == va) (some (l, x)) _ (λ b. a.0)
      (λ b. later (take_page va l) (take_page-HasFrame m va l a.1))
  where
    later :
        (o : Option (List WorkingSetElement × WorkingSetElement))
        → Each (λ r. HasFrame m r.1) o
        → Each {A = List WorkingSetElement × WorkingSetElement}
            (λ r. HasFrame m r.1)
            (elim o [ none ↦ none | some (rest, y) ↦ some (x ∷ rest, y) ])
    later none h = tt
    later (some r) h = h

-- The fault is in the second list, or not.
found-or-not :
    (e : Env) (o : Option (List WorkingSetElement × WorkingSetElement)) (k : Option Env)
    → IsSafe e.mem
    → Each (λ r. HasFrame e.mem r.1) o
    → Safely k
    → Safely (elim o [ some (rest, fault) ↦ promote e rest fault | none ↦ k ])
found-or-not e none k s h t = t
found-or-not e (some r) k s h t = promote-IsSafe e r.0 r.1 s h

fault_with_room-IsSafe :
    (e : Env) (va : ℕ)
    → IsSafe e.mem
    → All (HasFrame e.mem) e.second
    → Safely (fault_with_room e va)
unfolding fault_with_room
fault_with_room-IsSafe e va s a =
    Each-if (λ e'. IsSafe e'.mem) (length e.active == e.active_size) _ (place e va)
      (λ b.
        found-or-not e (take_page va e.second) (demote e >>= λ e1. place e1 va) s
          (take_page-HasFrame e.mem va e.second a) (demote-place-IsSafe e va s))
      (λ b. place-IsSafe e va s)

fault_when_full-IsSafe :
    (e : Env) (va : ℕ)
    → IsSafe e.mem
    → All (HasFrame e.mem) e.second
    → Safely (fault_when_full e va)
unfolding fault_when_full
fault_when_full-IsSafe e va s a =
    found-or-not e (take_page va e.second)
      (if e.second_size == 0 then replace_active e va else replace_second e va) s
      (take_page-HasFrame e.mem va e.second a)
      (Each-if (λ e'. IsSafe e'.mem) (e.second_size == 0) _ _ (λ b. replace_active-IsSafe e va s)
        (λ b. replace_second-IsSafe e va s))

-- If frames are accounted for and the pages of the second list have frames, then they are accounted
-- for when page_fault_handler returns, at any address and on every branch: no free frame is mapped,
-- none is free twice, and a frame has at least as many references as pages that hold it.
pub page_fault_handler-IsSafe :
    (e : Env) (fault_va : ℕ)
    → IsSafe e.mem
    → All (HasFrame e.mem) e.second
    → Safely (page_fault_handler e fault_va)
unfolding page_fault_handler
page_fault_handler-IsSafe e fault_va s a =
    Each-if (λ e'. IsSafe e'.mem) (length e.page_list == 0) _ _
      (λ b. fault_when_full-IsSafe e (round_down fault_va 4096) s a)
      (λ b. fault_with_room-IsSafe e (round_down fault_va 4096) s a)
