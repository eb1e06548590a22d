-- ===== src/Context/Startup.antt =====
-- lib/co_context/io_context.cpp, `start` and `deinit`, include/co_context/io_context.hpp, the
-- constructor, and include/co_context/detail/io_context_meta.hpp: contexts that are made, wait for
-- each other, run and end. A part that holds `meta.mtx` is one step; `wait_for` releases it when it
-- begins to sleep, and takes it again when it is notified, woken for no reason, or out of time.
pub mod Invariant
pub mod Safety
mod Tests
use co_context.Prelude.{
  ℕ, suc, ◌^◌, ◌≡◌, ◌≢◌, Bool, true, false, ◌==◌, if◌then◌else◌, word_add, word_sub,
}
use co_context.Prelude.Names.{update}

-- Where a context stands, or its thread.
pub data Pc : Type 0 where
  unmade : Pc
  created : Pc  -- constructed, and not started
  sleeping : Pc  -- in `wait_for`
  awake : Pc  -- in `wait_for`, about to take the mutex and to test the condition
  passed : Pc  -- before `notify_all`
  running : Pc
  terminated : Pc
  ended : Pc

-- The two counts are of type `ctx_id_t`, a byte. `made` counts the contexts that were constructed.
pub record System : Type 0 where
  pub create_count : ℕ
  pub ready_count : ℕ
  pub pc : ℕ → Pc
  pub made : ℕ

-- The condition of `wait_for`, and where it leads.
abbrev pub checked : System → Pc
checked s = if s.create_count == s.ready_count then passed else sleeping

-- `notify_all`
abbrev pub notified : Pc → Pc
notified sleeping = awake
notified p = p

-- `io_context()`
abbrev pub constructed : System → ℕ → System
constructed s i = record s {
  create_count = word_add (2 ^ 8) s.create_count 1;
  pc = update s.pc i created;
  made = suc s.made;
}

-- `++meta.ready_count` and the first test of the condition.
abbrev pub readied : System → System
readied s = record s { ready_count = word_add (2 ^ 8) s.ready_count 1 }

abbrev pub started : System → ℕ → System
started s i = record (readied s) { pc = update s.pc i (checked (readied s)) }

-- `meta.cv.notify_all()`
abbrev pub notifies : System → ℕ → System
notifies s i = record s { pc = update (λ b. notified (s.pc b)) i running }

-- `deinit()`
abbrev pub deinited : System → ℕ → System
deinited s i = record s {
  create_count = word_sub (2 ^ 8) s.create_count 1;
  ready_count = word_sub (2 ^ 8) s.ready_count 1;
  pc = update s.pc i ended;
}

pub data Step (s : System) : System → Type 0 where
  constructs : (i : ℕ) → s.pc i ≡ unmade → Step s (constructed s i)
  starts : (i : ℕ) → s.pc i ≡ created → Step s (started s i)
  notifies_all : (i : ℕ) → s.pc i ≡ passed → Step s (notifies s i)
  wakes : (i : ℕ) → s.pc i ≡ sleeping → Step s (record s { pc = update s.pc i awake })
  tests : (i : ℕ) → s.pc i ≡ awake → Step s (record s { pc = update s.pc i (checked s) })
  times_out :
      (i : ℕ)
      → s.pc i ≡ awake
      → s.create_count ≢ s.ready_count
      → Step s (record s { pc = update s.pc i terminated })
  ends : (i : ℕ) → s.pc i ≡ running → Step s (deinited s i)

abbrev pub nothing : System
nothing = record { create_count = 0; ready_count = 0; pc = λ i. unmade; made = 0 }

pub data Reach : System → Type 0 where
  here : Reach nothing
  later : {s t : System} → Reach s → Step s t → Reach t
