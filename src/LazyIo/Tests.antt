-- ===== src/LazyIo/Tests.antt =====
-- Four requests at the entries 100 to 103, with their task_infos at 8, 16, 24 and 32.
use co_context.Prelude.{ℕ, ◌+◌, ◌*◌, some, ◌≡◌, refl, List, [], ◌∷◌, true, false, arith, All}
use co_context.Cursor.{empty_cursor}
use co_context.Worker.State.{CqEntry, Uring, Worker}
use co_context.Worker.Completion.{raw_of}
use co_context.LazyIo.{
  Submission, LazyAwaiter, lazy_awaiter, LinkIo, awaiters, link_io_awaiter, awaiter_timeout,
  suspend_link,
}
use co_context.LazyIo.Chain.{Passes, wakes_of, suspend_link_lem}

abbrev request : ℕ → LazyAwaiter
request n = record { sqe = 100 + n; io_info = 8 * (n + 1) }

abbrev fresh : Submission
fresh = record {
  entries = λ p. record { user_data = 0; is_link = false; is_cqe_skip = false };
  infos = λ p. record { handle = 0; result = 0 };
  requests_to_reap = 4;
}

abbrev prepared : Submission
prepared =
    lazy_awaiter (request 3)
      (lazy_awaiter (request 2) (lazy_awaiter (request 1) (lazy_awaiter (request 0) fresh)))

abbrev three : LinkIo
three = link_io_awaiter (awaiters (request 0) (request 1)) (request 2)

suspend_link_example :
    All (Passes (suspend_link true three 64 prepared)) (request 0 ∷ request 1 ∷ [])
    × (((suspend_link true three 64 prepared).entries 102).is_link ≡ false)
    × (raw_of ((suspend_link true three 64 prepared).entries 102).user_data ≡ 24)
    × (wakes_of (suspend_link true three 64 prepared) (request 2) ≡ 64 ∷ [])
unfolding lazy_awaiter
suspend_link_example =
    suspend_link_lem true three 64 prepared tt
      ((λ e. omega (arith, e)), ((λ e. omega (arith, e)), tt))
      (((λ e. omega (arith, e)), tt), (tt, tt)) ((refl, refl, refl), ((refl, refl, refl), tt))
      (refl, refl, refl)

abbrev broken : LinkIo
broken = link_io_awaiter (awaiter_timeout (request 0) (request 1) (request 2)) (request 3)

abbrev io : Uring (List CqEntry)
io = record {
  get_sq_entry = λ r. some (0, r);
  prepare = λ sqe request r. r;
  ready = λ r. r;
  seen_cq_entry = λ r. [];
}

abbrev worker : Worker (List CqEntry)
worker = record {
  ring = [];
  reap_swap = 0 ∷ 0 ∷ [];
  reap_cur = empty_cursor;
  co_spawn_queue = [];
  co_spawn_local_queue = [];
  requests_to_reap = 1;
  requests_to_submit = 0;
  infos = prepared.infos;
}
