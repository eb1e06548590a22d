-- ===== src/Worker.antt =====
-- include/co_context/detail/worker_meta.hpp and lib/co_context/detail/worker_meta.cpp: the worker
-- of an io_context. It keeps the ready coroutines in `reap_swap`, a ring of 2 ^ k handles behind an
-- unsafe cursor of 32 bits, and turns the completions of io_uring into ready coroutines.
pub mod State
pub mod Ready
pub mod Completion
pub mod Spawn
mod Tests
