-- ===== src/Traps/Faults.antt =====
-- A table fault and the page fault behind it.
use fos_simple_os.Prelude.{
  ℕ, ◌+◌, ◌≤◌, ◌<◌, ◌≡◌, ◌⊎◌, refl, sym, ap, subst, ◌∙◌, List, [], ◌∷◌, Bool, true, false, Option,
  none, some, length, All, All-map, Each, Each-bind, Each-if, arith, inl, inr, eq_or_ne, leb, add32,
  round_down,
}
use fos_simple_os.Memory.{Mem, put, pdx, static_cpt, clear_table}
use fos_simple_os.Memory.PageFile.{kernel_base, disk_frame_of}
use fos_simple_os.Memory.Safe.{IsSafe, put_at, put_away}
use fos_simple_os.Memory.Kept.{allocate_frame-IsKept, in_file}
use fos_simple_os.Memory.Paging.{new_table-IsSafe}
use fos_simple_os.PageFault.{Env, WorkingSetElement, user_stack_top, page_fault_handler}
use fos_simple_os.PageFault.Lru.{lru, has, pages_of}
use fos_simple_os.PageFault.Steps.{in_stack}
use fos_simple_os.PageFault.Sound.{IsSound, IsReady, IsBacked, resident}
use fos_simple_os.PageFault.Handler.{page_fault_handler-lru}
use fos_simple_os.PageFault.Safety.{HasFrame, page_fault_handler-IsSafe}
use fos_simple_os.Traps.{
  Running, off_stack, table_fault_handler, with_buffering, serve, fault_handler, faults,
}

-- What a fault leaves.
abbrev pub SafelyRun : Option Running → Type 0
SafelyRun = Each (λ r. IsSafe r.env.mem)

with_buffering-IsSafe :
    (b : Bool) (e : Env) (va : ℕ)
    → IsSafe e.mem
    → All (HasFrame e.mem) e.second
    → Each (λ e'. IsSafe e'.mem) (with_buffering b e va)
unfolding with_buffering
with_buffering-IsSafe true e va s h = tt
with_buffering-IsSafe false e va s h = page_fault_handler-IsSafe e va s h

table_fault-IsSafe :
    (e : Env) (va : ℕ) → IsSafe e.mem → Each (λ e'. IsSafe e'.mem) (table_fault_handler e va)
unfolding table_fault_handler
table_fault-IsSafe e va s =
    Each-bind IsSafe (λ e'. IsSafe e'.mem) (static_cpt e.mem va) _ (new_table-IsSafe e.mem va s)
      (λ m h. h)

-- From frames that are accounted for, with frames behind the pages of the second list, a fault of a
-- user program or of the kernel at any address, at a table or at a page, that does not panic leaves
-- the frames accounted for.
pub fault_handler-IsSafe :
    (user : Bool) (va : ℕ) (r : Running)
    → IsSafe r.env.mem
    → All (HasFrame r.env.mem) r.env.second
    → SafelyRun (fault_handler user va r)
unfolding fault_handler serve
fault_handler-IsSafe user va r s h =
    Each-if (λ t. IsSafe t.env.mem) (off_stack user va) none _ (λ b. tt)
      (λ b.
        Each-if (λ t. IsSafe t.env.mem) (r.env.mem.tables (pdx va)) _ _
          (λ t.
            Each-bind (λ e. IsSafe e.mem) (λ u. IsSafe u.env.mem)
              (with_buffering r.buffering r.env va) _
              (with_buffering-IsSafe r.buffering r.env va s h) (λ e k. k))
          (λ t.
            Each-bind (λ e. IsSafe e.mem) (λ u. IsSafe u.env.mem) (table_fault_handler r.env va) _
              (table_fault-IsSafe r.env va s) (λ e k. k)))

-- A page without a page table, in the page file or on the stack: the page is not resident as active,
-- and three frames are free.
pub record IsAwaited (e : Env) (va : ℕ) : Type 0 where
  pub missing : e.mem.tables (pdx va) ≡ false
  pub low : va < kernel_base
  pub aligned : round_down va 4096 ≡ va
  pub directory : e.mem.disk_directory ≡ true
  pub known : (in_file e.mem va ≡ true) ⊎ (in_stack va ≡ true)
  pub frames : 3 ≤ length e.mem.free_frames
  pub absent : has va (pages_of e.active) ≡ false
  pub active_backed : All (λ x. IsBacked e.mem x.virtual_address) e.active
  pub second_backed : All (λ x. IsBacked e.mem x.virtual_address) e.second

-- The memory after a new table.
record Tabled (m : Mem) (d : ℕ) (m' : Mem) : Type 0 where
  frames : length m.free_frames ≤ length m'.free_frames + 1
  there : m'.tables d ≡ true
  more : (c : ℕ) → m.tables c ≡ true → m'.tables c ≡ true
  directory : m'.disk_directory ≡ m.disk_directory
  disk_tables : m'.disk_tables ≡ m.disk_tables
  disk_pages : m'.disk_pages ≡ m.disk_pages

put-true : (t : ℕ → Bool) (k d : ℕ) → t d ≡ true → put t k true d ≡ true
put-true t k d h = elim (eq_or_ne k d) [
  | inl e ↦ put_at t k true d e
  | inr n ↦ put_away t k true d n ∙ h
]

cpt-Tabled :
    (m : Mem) (va : ℕ)
    → 1 ≤ length m.free_frames
    → (m' : Mem) × (static_cpt m va ≡ some m') × Tabled m (pdx va) m'
unfolding static_cpt
cpt-Tabled m va h =
    let (f, m1, q, k) = allocate_frame-IsKept m h in
    let m' : Mem = record m1 {
      references = put m1.references f 1;
      tables = put m1.tables (pdx va) true;
      table_frames = put m1.table_frames (pdx va) f;
      pages = clear_table m1.pages (pdx va);
    } in
    (
      m',
      rw q refl,
      record {
        frames = k.frames;
        there = put_at m1.tables (pdx va) true (pdx va) refl;
        more = λ d t. put-true m1.tables (pdx va) d (ap (λ u. u d) k.tables ∙ t);
        directory = k.directory;
        disk_tables = k.disk_tables;
        disk_pages = k.disk_pages;
      },
    )

IsBacked-still :
    (m m' : Mem) (d : ℕ) (l : List WorkingSetElement)
    → Tabled m d m'
    → All (λ x. IsBacked m x.virtual_address) l
    → All (λ x. IsBacked m' x.virtual_address) l
IsBacked-still m m' d l t a =
    All-map (λ x. IsBacked m x.virtual_address) (λ x. IsBacked m' x.virtual_address) l
      (λ x b. record { table = t.more (pdx x.virtual_address) b.table; low = b.low }) a

same_file : (m m' : Mem) (d w : ℕ) → Tabled m d m' → in_file m' w ≡ in_file m w
unfolding disk_frame_of
same_file m m' d w t = rw (t.disk_tables, t.disk_pages) refl

awaited-IsReady :
    (e : Env) (va : ℕ) (m : Mem)
    → IsAwaited e va
    → Tabled e.mem (pdx va) m
    → IsReady (record e { mem = m }) va
awaited-IsReady e va m h t = record {
  loadable = record {
    table = t.there;
    low = h.low;
    aligned = h.aligned;
    directory = t.directory ∙ h.directory;
    known = elim h.known [ inl f ↦ inl (same_file e.mem m (pdx va) va t ∙ f) | inr s ↦ inr s ];
  };
  frames = omega (arith, h.frames, t.frames);
  absent = h.absent;
  active_backed = IsBacked-still e.mem m (pdx va) e.active t h.active_backed;
  second_backed = IsBacked-still e.mem m (pdx va) e.second t h.second_backed;
}

-- A fault below the user stack's top is no stack fault.
serve_user : (va : ℕ) (r : Running) → va < user_stack_top → fault_handler true va r ≡ serve r va
unfolding fault_handler
serve_user va r h = let on : leb user_stack_top va ≡ false = ground arith in rw on refl

serve_table :
    (va : ℕ) (r : Running) (m : Mem)
    → r.env.mem.tables (pdx va) ≡ false
    → static_cpt r.env.mem va ≡ some m
    → serve r va
      ≡ some (record r { env = record r.env { mem = m }; table_faults = add32 r.table_faults 1 })
unfolding serve table_fault_handler
serve_table va r m t q = rw (serve, t, table_fault_handler, q) refl

serve_page :
    (va : ℕ) (r : Running) (e : Env)
    → r.buffering ≡ false
    → r.env.mem.tables (pdx va) ≡ true
    → page_fault_handler r.env va ≡ some e
    → serve r va ≡ some (record r { env = e; page_faults = add32 r.page_faults 1 })
unfolding serve with_buffering
serve_page va r e b t q = rw (serve, t, with_buffering, b, q) refl

same_table : (va : ℕ) → pdx (round_down va 4096) ≡ pdx va
same_table va = omega arith

-- A user program that touches a page of the page file or the stack whose page table is missing, with
-- three free frames, sound lists and buffering off, faults twice: the first fault makes the table,
-- the second loads the page; both lists together are what LRU makes of them, the page first, the
-- lists stay sound, and each counter is one more.
pub table_then_page :
    (va : ℕ) (r : Running)
    → IsSound r.env
    → IsAwaited r.env (round_down va 4096)
    → va < user_stack_top
    → r.buffering ≡ false
    → (r' : Running) × (faults true (va ∷ va ∷ []) r ≡ some r')
      × (resident r'.env
          ≡ lru (r.env.active_size + r.env.second_size) (round_down va 4096) (resident r.env))
      × IsSound r'.env
      × (r'.table_faults ≡ add32 r.table_faults 1)
      × (r'.page_faults ≡ add32 r.page_faults 1)
unfolding faults
table_then_page va r s h on b =
    let (m, q, t) = cpt-Tabled r.env.mem va (omega (arith, h.frames)) in
    let e1 : Env = record r.env { mem = m } in
    let r1 : Running = record r { env = e1; table_faults = add32 r.table_faults 1 } in
    let sound : IsSound e1 = record {
      sizes = s.sizes;
      bounded = s.bounded;
      filled = s.filled;
      room = s.room;
    } in
    let ready : IsReady e1 (round_down va 4096) =
      awaited-IsReady r.env (round_down va 4096) m h
        (subst (λ d. Tabled r.env.mem d m) (sym (same_table va)) t) in
    let (e2, q2, stack, sound2) = page_fault_handler-lru e1 va sound ready in
    let missing : r.env.mem.tables (pdx va) ≡ false =
      ap r.env.mem.tables (sym (same_table va)) ∙ h.missing in
    (
      record r1 { env = e2; page_faults = add32 r.page_faults 1 },
      rw
          (
            faults,
            serve_user va r on ∙ serve_table va r m missing q,
            serve_user va r1 on ∙ serve_page va r1 e2 b t.there q2,
          )
          refl,
      stack,
      sound2,
      refl,
      refl,
    )
