-- ===== src/Lib.antt =====
-- co_context, a C++20 coroutine library over io_uring: models of its parts and what holds of them.
--
-- A program runs one `io_context` per thread. Its worker keeps the coroutines that are ready in a
-- ring behind a cursor of two wrapping counters, resumes them one at a time, and turns the
-- completions that io_uring reports into ready coroutines. The awaitable objects (mutexes and so
-- on) keep the coroutines that wait in lists through the `next` fields of their awaiters, and hand
-- them back to their worker with `co_spawn`.
--
--   Cursor      include/co_context/detail/spsc_cursor.hpp, `spsc_cursor`: the counters are words of
--               `w` bits and the capacity is 2 ^ k, both parameters. `Counts` counts what is in the
--               ring, `Window` and `Fifo` read the ring as a queue.
--   Worker      include/co_context/detail/worker_meta.hpp, lib/co_context/detail/worker_meta.cpp,
--               include/co_context/detail/{user_data,task_info}.hpp, `worker_meta`: `State` has the
--               fields, `Ready` the ready queue, `Completion` what reads completions,
--               `Spawn` the ways to spawn a coroutine at a worker.
--   Awaiters    the `next` fields and the loop by which lib/co_context/co/mutex.cpp and
--               lib/co_context/co/semaphore.cpp turn a stack of awaiters into a queue.
--   Mutex       include/co_context/co/mutex.hpp and lib/co_context/co/mutex.cpp, `mutex`, as the
--               atomic steps of any number of coroutines. `Queue` is the contract of a fair lock,
--               `Invariant` ties the lists of awaiters to it, `Safety` and `Assertions` have what
--               follows for every run.
--   Context     lib/co_context/io_context.cpp, `io_context`: the loop over the worker. `Round` has one
--               round of the worker, `Stop` the decision to end the loop. `Startup` has the
--               contexts that are made, wait for each other, run and end, as steps under the mutex of
--               include/co_context/detail/io_context_meta.hpp.
--   Semaphore   include/co_context/co/semaphore.hpp and lib/co_context/co/semaphore.cpp,
--               `counting_semaphore`: `Order` has the order of waking where each operation is one
--               step, and `Faults` two releases that go wrong; `Steps` has the atomic steps of any
--               number of coroutines and threads, with an invariant that relates the counter, the
--               lists and the wakes that are under way.
--   Condition   include/co_context/co/condition_variable.hpp and
--               lib/co_context/co/condition_variable.cpp, `condition_variable`: the lists of
--               `notify_one` and `notify_all`. `Turn` has the loop of the first, `Notify` whom it
--               wakes, `Lost` what happens when another notification comes between its two critical
--               sections, `Everyone` whom the second wakes and who joins the lists, `Waking` how
--               those who are woken ask for the mutex.
--   Channel     include/co_context/co/channel.hpp, `channel`: the bounded channel (`Fifo`), the
--               channel of one item (`One`) and the one without a buffer (`Rendezvous`).
--   Spin        include/co_context/detail/spinlock.hpp and lib/co_context/co/spin_mutex.cpp,
--               `spinlock` and `spin_mutex`: one flag, as the atomic steps of any number of users.
--   Task        include/co_context/task.hpp, `task`: `Promise` has the promises, `Machine` the frames of
--               the coroutines and who resumes whom, for bodies that make, await, destroy and detach
--               tasks. `Calls` compares coroutines that call each other with functions, `Detached`
--               has the tasks that nobody holds.
--   SharedTask  include/co_context/shared_task.hpp: the promise of a shared task, as the atomic steps
--               of the coroutine and of any number of others that await it. `Invariant` says what
--               each of them knows, `Preserved` that every step keeps it, `Safety` and `Wake` have
--               what follows. `Refs` has the objects of class `shared_task` that hold the coroutine,
--               and its reference count.
--   When        include/co_context/co/when_all.hpp and include/co_context/co/when_any.hpp, `all`, `any`
--               and `some`: `Offset` has the places of the values in the buffer of `all`, by the
--               functions of TypeList, `Start` the tasks that begin and end in any order, and `All`,
--               `Any` and `Some` what the awaiting coroutine gets.
--   LazyIo      include/co_context/detail/lazy_io_awaiter.hpp, what the awaiters of input and output
--               write into their submission entries for the worker: `Chain` has the links by `&&`,
--               `Timeout` the time limits, `Detach` the requests that nobody waits for. What the
--               worker does with the tags is taken from Worker.
--   Time        include/co_context/utility/time_cast.hpp: durations as seconds and nanoseconds, and
--               the bias that timeouts get.
--   Address     include/co_context/net/inet_address.hpp and lib/co_context/net/inet_address.cpp,
--               `inet_address`, over the functions of the system that read and print addresses.
--   TypeList    include/co_context/mpl/type_list.hpp, the list functions on types: `Order` takes lists
--               apart and puts them together, `Filter`, `Search`, `Sets` and `Split` have the
--               functions of their names. A use that does not compile gives none.
--   Prelude     lists, machine words, integers, and results of code that may stop by a fault.
--
-- State is passed explicitly. A word of `w` bits is a number with its wrap-around written out. An
-- assertion that fails, `std::terminate`, the use of a null pointer and what the language leaves
-- undefined are results of their own. A coroutine and an object are named by their addresses, and
-- the address of a destroyed frame of a task is not used again; memory orders are not modelled.
-- In the step relations a fault ends the run, as a step of its own: the final awaiter of a shared task
-- that reads the link of a destroyed waiter, and a release of a semaphore that finds nobody to wake.
-- The theorems that need the absence of such a fault have it as a hypothesis: of a task, that no
-- function that its program calls as a `task<T>` ends with an exception (`IsSafe`); of a shared task, that no
-- waiter has been destroyed before its link is read.
--
-- The loop that turns a stack round runs on fuel, for which the length of the list that it turns
-- round is enough, and the step relation of the mutex lets it take any fuel with which it ends. The
-- loop of `notify_all` runs on fuel, for which one more than the length of its list is enough. The
-- loop of a shared task that wakes those who wait is a run of steps. A run of tasks takes fuel for
-- each transfer of control, and the theorems on tasks say that there is enough.
--
-- The loop of `io_context::run` runs on fuel too, since it has no bound: a context may run for
-- ever. An operation of a channel with a buffer runs under the channel's mutex and is one step,
-- which is not taken while it has to wait; that of a channel without a buffer is one step for each
-- time that it owns the lock.
--
-- The io_uring library, extern/liburingcxx, is a parameter of the worker: a record of the calls
-- that the worker makes, with one law, that a completion that was retired is gone and the others
-- stay in order. What a coroutine does when it is resumed is a parameter of the loop, and so are
-- the calls that enter the kernel. The functions of the system that convert addresses are a record
-- too, with what their documentation promises as laws.
--
-- Not modelled are: sockets, files, logging, the configuration, the benchmarks and the examples,
-- which are input and output or use the library; stop_token.hpp and generator.hpp, which are copies
-- of other code; what each kind of request asks of the kernel, which the io_uring library writes;
-- and the exceptions and values of shared tasks and of the tasks of `all`, `any` and `some`. A task
-- of `any` or `some` is one step between two suspensions, as without threads.
pub mod Prelude
pub mod Cursor
pub mod Worker
pub mod Context
pub mod Awaiters
pub mod Mutex
pub mod Condition
pub mod Semaphore
pub mod Channel
pub mod Spin
pub mod Task
pub mod SharedTask
pub mod When
pub mod LazyIo
pub mod Time
pub mod Address
pub mod TypeList
