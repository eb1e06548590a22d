-- ===== src/Mutex/Invariant.antt =====
-- How the words of the mutex represent a fair lock, and that every step keeps to it.
pub mod Defs
pub mod Registering
pub mod Unlocking
