-- ===== src/Worker/Tests.antt =====
-- A worker with a ready queue of four handles, and a concrete io_uring: a ring is the requests that
-- were prepared and the completions that are ready, and there is always a submission entry.
use co_context.Prelude.{ℕ, ◌+◌, ◌<◌, ◌≡◌, ◌≢◌, refl, List, [], ◌∷◌, true, some, arith}
use co_context.Prelude.Result.{ok, fault, terminated}
use co_context.Cursor.{Cursor, size}
use co_context.Worker.State.{TaskInfo, CqEntry, Request, Uring, UringLaws, Worker}
use co_context.Worker.Ready.Fifo.{ready, IsReady}
use co_context.Worker.Ready.Runs.{forward, take, queue_run, worker_run, run_refines}
use co_context.Worker.Completion.{selector_of, raw_of, poll_completion, handle_co_spawn_events}
use co_context.Worker.Completion.Dispatch.{wakes, Handles, handle_cq_entry_lem}
use co_context.Worker.Completion.Poll.{poll_completion_lem}
use co_context.Worker.Completion.Events.{handle_co_spawn_events_overflow}

record Ring : Type 0 where
  prepared : List Request
  completions : List CqEntry

abbrev drop_first : List CqEntry → List CqEntry
drop_first [] = []
drop_first (c ∷ cs) = cs

abbrev io : Uring Ring
io = record {
  get_sq_entry = λ r. some (0, r);
  prepare = λ sqe request r. record r { prepared = request ∷ r.prepared };
  ready = λ r. r.completions;
  seen_cq_entry = λ r. record r { completions = drop_first r.completions };
}

io_laws : UringLaws io
io_laws = record { ready-seen = λ r c cs e. rw e }

-- A task at 800 that was started as a coroutine at 64, and one whose task_info at 256 belongs to
-- the coroutine at 96.
abbrev spawned : CqEntry
spawned = record { user_data = 65; res = 0 }

abbrev read_done : CqEntry
read_done = record { user_data = 256; res = 12 }

abbrev linked_done : CqEntry
linked_done = record { user_data = 258; res = 7 }

abbrev infos : ℕ → TaskInfo
infos p = record { handle = p + 8; result = 0 }

abbrev cursor : Cursor
cursor = record { m_head = 4294967295; m_tail = 0 }

abbrev worker : Worker Ring
worker = record {
  ring = record { prepared = []; completions = spawned ∷ linked_done ∷ read_done ∷ [] };
  reap_swap = 0 ∷ 0 ∷ 0 ∷ 40 ∷ [];
  reap_cur = cursor;
  co_spawn_queue = 72 ∷ 80 ∷ [];
  co_spawn_local_queue = [];
  requests_to_reap = 3;
  requests_to_submit = 0;
  infos = infos;
}

abbrev crowded : Worker Ring
crowded = record worker { co_spawn_queue = 72 ∷ 80 ∷ 88 ∷ 96 ∷ [] }

one_ready : ready 2 worker ≡ 40 ∷ []
unfolding size
one_ready = refl

one_size : size 32 cursor ≡ 1
unfolding size
one_size = refl

worker-IsReady : IsReady 2 worker
worker-IsReady = record {
  cursor = record {
    fits = omega arith;
    head_in = omega arith;
    tail_in = omega arith;
    size_in = omega (arith, one_size);
  };
  storage = omega arith;
  full_handles = rw one_ready ((λ e. omega (arith, e)), tt);
}

crowded-IsReady : IsReady 2 crowded
crowded-IsReady =
    let v = worker-IsReady in
    record { cursor = v.cursor; storage = v.storage; full_handles = v.full_handles }

some_handle : (n : ℕ) → 0 < n → n ≢ 0
some_handle n h e = omega arith

handle_cq_entry_example : Handles io true 3 2 read_done worker
unfolding selector_of raw_of wakes
handle_cq_entry_example =
    handle_cq_entry_lem io true 3 2 read_done worker worker-IsReady
      (record {
        unreserved = refl;
        known = omega arith;
        full = (some_handle 264 (omega arith), tt);
      })
      (rw one_ready (omega arith))

poll_completion_example :
    (w' : Worker Ring) × (poll_completion io true 3 2 worker ≡ ok (3, w'))
    × (ready 2 w' ≡ 40 ∷ 64 ∷ 264 ∷ [])
    × IsReady 2 w'
    × (w'.ring.completions ≡ [])
unfolding selector_of raw_of wakes size
poll_completion_example =
    poll_completion_lem true 3 2 io_laws worker worker-IsReady
      (
        record {
          unreserved = refl;
          known = omega arith;
          full = (some_handle 64 (omega arith), tt);
        },
        (
          record { unreserved = refl; known = omega arith; full = tt },
          (
            record {
              unreserved = refl;
              known = omega arith;
              full = (some_handle 264 (omega arith), tt);
            },
            tt,
          ),
        ),
      )
      (omega arith)

run_refines_example :
    (w' : Worker Ring) × (worker_run 2 worker (take ∷ forward 48 ∷ forward 56 ∷ take ∷ [])
      ≡ ok (40 ∷ 48 ∷ [], w'))
    × (ready 2 w' ≡ 56 ∷ [])
    × IsReady 2 w'
unfolding queue_run
run_refines_example =
    run_refines 2 (take ∷ forward 48 ∷ forward 56 ∷ take ∷ []) worker (40 ∷ []) (40 ∷ 48 ∷ [])
      (56 ∷ []) worker-IsReady one_ready refl

handle_co_spawn_events_overflow_example :
    handle_co_spawn_events io true 3 2 crowded ≡ fault terminated
handle_co_spawn_events_overflow_example =
    handle_co_spawn_events_overflow io true 3 2 crowded crowded-IsReady refl
      (rw one_ready (omega arith))

abbrev quiet : Worker Ring
quiet = record worker { co_spawn_queue = [] }

quiet-IsReady : IsReady 2 quiet
quiet-IsReady =
    let v = worker-IsReady in
    record { cursor = v.cursor; storage = v.storage; full_handles = v.full_handles }
