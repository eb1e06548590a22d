-- ===== src/Worker/Ready/Fifo.antt =====
-- The ready queue of the worker against a list of handles, oldest first.
use co_context.Prelude.{
  ℕ, ◌^◌, ◌≤◌, ◌<◌, ◌≡◌, ◌≢◌, sym, ap, ◌∙◌, List, [], ◌∷◌, ◌++◌, true, false, arith, length,
  length-set, get_or, set, All, All-append,
}
use co_context.Prelude.Result.{ok, fault, assertion_failed}
use co_context.Cursor.{is_empty, tail, head, push, pop, size}
use co_context.Cursor.Counts.{IsValid, push-IsValid, pop-IsValid, is_empty_iff}
use co_context.Cursor.Fifo.{contents, length-contents, contents-push, contents-pop}
use co_context.Worker.State.{Handle, Worker}
use co_context.Worker.Ready.{cur_bits, number_to_schedule, forward_task, schedule}

module _ {R : Type 0} (k : ℕ) where
  abbrev pub ready : Worker R → List Handle
  ready w = contents cur_bits k 0 w.reap_swap w.reap_cur

  -- The array has an entry for each index, and no ready handle is empty.
  pub record IsReady (w : Worker R) : Type 0 where
    pub cursor : IsValid cur_bits k w.reap_cur
    pub storage : 2 ^ k ≤ length w.reap_swap
    pub full_handles : All (λ h. h ≢ 0) (ready w)

  -- The worker after `forward_task` of a handle.
  abbrev pub forwarded : Handle → Worker R → Worker R
  forwarded h w = record w {
    reap_swap = set w.reap_swap (tail k w.reap_cur) h;
    reap_cur = push cur_bits w.reap_cur 1;
  }

  pub forward_task-ok :
      (h : Handle) (w : Worker R) → h ≢ 0 → forward_task k h w ≡ ok (forwarded h w)
  unfolding forward_task
  forward_task-ok h w ne = ground arith

  pub number_to_schedule-length : (w : Worker R) → number_to_schedule w ≡ length (ready w)
  unfolding number_to_schedule
  number_to_schedule-length w = sym (length-contents cur_bits k 0 w.reap_swap w.reap_cur)

  pub forwarded-ready :
      (h : Handle) (w : Worker R)
      → IsReady w
      → length (ready w) < 2 ^ k
      → ready (forwarded h w) ≡ ready w ++ h ∷ []
  forwarded-ready h w v room =
      contents-push cur_bits k 0 w.reap_swap w.reap_cur h v.cursor v.storage (
        omega
          (arith, number_to_schedule-length w, length-contents cur_bits k 0 w.reap_swap w.reap_cur))

  pub forwarded-IsReady :
      (h : Handle) (w : Worker R)
      → h ≢ 0
      → IsReady w
      → length (ready w) < 2 ^ k
      → IsReady (forwarded h w)
  forwarded-IsReady h w ne v room = record {
    cursor =
        (push-IsValid v.cursor 1
          (omega (arith, length-contents cur_bits k 0 w.reap_swap w.reap_cur))).0;
    storage = omega (arith, v.storage, length-set w.reap_swap (tail k w.reap_cur) h);
    full_handles =
        rw (forwarded-ready h w v room)
          (All-append (λ h. h ≢ 0) (ready w) (h ∷ []) v.full_handles (ne, tt));
  }

  -- `schedule` hands out the oldest ready handle and leaves the others.
  pub schedule-ok :
      (w : Worker R) (h : Handle) (hs : List Handle)
      → IsReady w
      → ready w ≡ h ∷ hs
      → let w' = record w { reap_cur = pop cur_bits w.reap_cur 1 } in
        (schedule k w ≡ ok (h, w')) × (ready w' ≡ hs) × IsReady w'
  unfolding schedule
  schedule-ok w h hs v e =
      let ne : h ≢ 0 = (rw e at (v.full_handles)).0 in
      let busy : is_empty w.reap_cur ≡ false = ground (arith, is_empty_iff v.cursor) in
      (
        rw (busy, oldest) (ground arith),
        rest,
        record {
          cursor = (pop-IsValid v.cursor 1 present).0;
          storage = v.storage;
          full_handles = rw rest (rw e at (v.full_handles)).1;
        },
      )
    where
      present : 0 < size cur_bits w.reap_cur
      present = omega (arith, ap length e, length-contents cur_bits k 0 w.reap_swap w.reap_cur)

      split :
          get_or w.reap_swap (head k w.reap_cur) 0
            ∷ ready (record w { reap_cur = pop cur_bits w.reap_cur 1 })
          ≡ h ∷ hs
      split = sym (contents-pop cur_bits k 0 w.reap_swap w.reap_cur v.cursor present) ∙ e

      oldest : get_or w.reap_swap (head k w.reap_cur) 0 ≡ h
      oldest = cc split

      rest : ready (record w { reap_cur = pop cur_bits w.reap_cur 1 }) ≡ hs
      rest = cc split

  -- With nothing ready, the assertion of `schedule` fails.
  pub schedule-empty :
      (w : Worker R) → IsReady w → ready w ≡ [] → schedule k w ≡ fault assertion_failed
  unfolding schedule
  schedule-empty w v e = rw idle
    where
      idle : is_empty w.reap_cur ≡ true
      idle =
          (is_empty_iff v.cursor).1
            (omega (arith, ap length e, length-contents cur_bits k 0 w.reap_swap w.reap_cur))
