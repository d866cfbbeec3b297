-- ===== src/Console.antt =====
-- PROJECT_template/kern/console.c: the console input buffer, the display and the keyboard. What a
-- device delivers is a list of what its driver returns before -1.
pub mod Input
pub mod Screen
pub mod Keyboard
pub mod Poll
mod Tests
