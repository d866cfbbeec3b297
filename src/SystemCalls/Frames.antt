-- ===== src/SystemCalls/Frames.antt =====
-- The system calls of PROJECT_template/kern/syscall.c on frames: __sys_allocate_page, sys_clearFFL and
-- sys_calculate_free_frames. A page of zeros has the contents 0. `none` is the panic of
-- allocate_frame without a free frame.
pub mod Lost
use Prim.Native.Nat.{bit_and}
use fos_simple_os.Prelude.{
  ℕ, zero, suc, ◌+◌, ◌-◌, ◌*◌, ◌/◌, ◌%◌, ◌^◌, [], ◌∷◌, Bool, true, false, not, ◌&&◌, ◌||◌, ◌==◌,
  leb, if◌then◌else◌, Option, none, some, ◌>>=◌, length,
}
use fos_simple_os.Memory.{user_top, Mem, Perm, put, allocate_frame, map_frame}

-- E_INVAL as a word
abbrev pub e_inval : ℕ
e_inval = 2 ^ 32 - 3

-- The bits of `perm` as an entry has them.
abbrev pub perm_bits : ℕ → Perm
perm_bits perm = record {
  present = perm % 2 == 1;
  writeable = perm / 2 % 2 == 1;
  user = perm / 4 % 2 == 1;
  modified = perm / 64 % 2 == 1;
}

-- `(perm & (~PERM_AVAILABLE & ~PERM_WRITEABLE)) == PERM_USER`
abbrev pub perm_fits : ℕ → Bool
perm_fits perm = bit_and perm (2 ^ 32 - 1 - 0xE00 - 2) == 4

-- The two checks of the arguments.
abbrev pub is_invalid : ℕ → ℕ → Bool
is_invalid va perm = (leb user_top va || not (va % 4096 == 0)) || not (perm_fits perm)

-- From the checks on, with the frame that was allocated. map_frame returns 0 always.
unfoldable pub use_frame : ℕ → ℕ → ℕ → Mem → Option (ℕ × Mem)
use_frame va perm f m =
    if is_invalid va perm
    then some (e_inval, m)
    else (do m1 ← map_frame (record m { ram = put m.ram f 0 }) f va (perm_bits perm); some (0, m1))

-- `__sys_allocate_page`: the result and the memory.
unfoldable pub sys_allocate_page : Mem → ℕ → ℕ → Option (ℕ × Mem)
unfolding use_frame
sys_allocate_page m va perm = allocate_frame m >>= λ (f, m1). use_frame va perm f m1

-- The loop of `sys_clearFFL`.
unfoldable pub take_frames : ℕ → Mem → Option Mem
take_frames zero m = some m
take_frames (suc n) m = allocate_frame m >>= λ (f, m1). take_frames n m1

unfoldable pub sys_clear_ffl : Mem → Option Mem
unfolding take_frames
sys_clear_ffl m = take_frames (length m.free_frames) m

-- `sys_calculate_free_frames`, with calculate_available_frames: no frame is buffered.
abbrev pub sys_calculate_free_frames : Mem → ℕ
sys_calculate_free_frames m = 0 + length m.free_frames
