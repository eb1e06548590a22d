-- ===== src/Task.antt =====
-- include/co_context/task.hpp: the promises of a task, the awaiters by which a task starts another
-- one and is resumed by it, and the frames of the coroutines.
pub mod Promise
pub mod Machine
pub mod Calls
pub mod Detached
pub use Promise.*
pub use Machine.*
mod Tests
