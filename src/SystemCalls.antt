-- ===== src/SystemCalls.antt =====
-- The system calls of PROJECT_template/kern/syscall.c.
pub mod Frames
pub mod Output
mod Tests
