-- ===== src/Context/Tests.antt =====
-- A context whose coroutines each make one other coroutine ready, over an io_uring in which nothing
-- ever completes.
use co_context.Prelude.{ℕ, suc, ◌+◌, ◌≡◌, ◌⊎◌, refl, List, [], ◌∷◌, true, false, some, arith}
use co_context.Prelude.Result.{ok}
use co_context.Cursor.{size, is_empty}
use co_context.Worker.State.{Handle, Uring, Worker}
use co_context.Worker.Ready.{has_task_ready}
use co_context.Worker.Ready.Fifo.{ready, IsReady, forwarded, forwarded-ready, forwarded-IsReady}
use co_context.Context.{Enter, Context, do_worker_part, do_completion_part}
use co_context.Context.Round.{Resumes, Rejected, do_worker_part_lem}
use co_context.Context.Stop.{stops_when_idle}

-- A ring of which nothing is observed.
abbrev io : Uring ℕ
io = record {
  get_sq_entry = λ r. some (0, r);
  prepare = λ sqe request r. r + 1;
  ready = λ r. [];
  seen_cq_entry = λ r. r;
}

abbrev enter : Enter ℕ
enter = record {
  submit_and_wait = λ will_wait r. (true, 0);
  submit_and_get_events = λ r. (true, 0);
  wait_cq_entry = λ r. r;
}

abbrev resume : Handle → Worker ℕ → Worker ℕ
resume h w = forwarded 2 (suc h) w

abbrev spawned : Handle → List Handle
spawned h = suc h ∷ []

resumes : Resumes 2 resume spawned
resumes = record {
  puts = λ h w v room. (
    forwarded-ready 2 (suc h) w v (omega arith),
    forwarded-IsReady 2 (suc h) w (λ e. omega (arith, e)) v (omega arith),
  );
}

abbrev worker : Worker ℕ
worker = record {
  ring = 5;
  reap_swap = 48 ∷ 0 ∷ 0 ∷ 40 ∷ [];
  reap_cur = record { m_head = 4294967295; m_tail = 1 };
  co_spawn_queue = [];
  co_spawn_local_queue = [];
  requests_to_reap = 0;
  requests_to_submit = 2;
  infos = λ p. record { handle = p; result = 0 };
}

two_size : size 32 worker.reap_cur ≡ 2
unfolding size
two_size = refl

two_ready : ready 2 worker ≡ 40 ∷ 48 ∷ []
unfolding size
two_ready = refl

worker-IsReady : IsReady 2 worker
worker-IsReady = record {
  cursor = record {
    fits = omega arith;
    head_in = omega arith;
    tail_in = omega arith;
    size_in = omega (arith, two_size);
  };
  storage = omega arith;
  full_handles = rw two_ready ((λ e. omega (arith, e)), ((λ e. omega (arith, e)), tt));
}

do_worker_part_example :
    ((w' : Worker ℕ) × (do_worker_part io enter resume true 3 2 2 worker ≡ ok w')
      × (ready 2 w' ≡ 41 ∷ 49 ∷ [])
      × IsReady 2 w')
    ⊎ Rejected enter 2 (do_worker_part io enter resume true 3 2 2 worker)
unfolding size
do_worker_part_example =
    do_worker_part_lem io enter resume true 3 2 2 spawned resumes worker worker-IsReady
      (omega arith)

-- Nothing is left to do.
abbrev idle : Context ℕ
idle = record {
  worker = record worker { reap_cur = record { m_head = 7; m_tail = 7 }; requests_to_submit = 0 };
  will_stop = false;
  create_count = 1;
  ready_count = 1;
}

idle_stops :
    do_completion_part io enter resume true 3 2 2 idle ≡ ok (record idle { will_stop = true })
unfolding has_task_ready is_empty
idle_stops = stops_when_idle io enter resume true 3 2 2 idle refl refl refl refl (omega arith)
