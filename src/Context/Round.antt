-- ===== src/Context/Round.antt =====
-- One round of the worker: the coroutines that were ready when it began.
use co_context.Prelude.{
  ℕ, ◌+◌, ◌-◌, ◌^◌, ◌≤◌, ◌≡◌, ◌≢◌, ◌⊎◌, refl, sym, ap, ◌∙◌, List, [], ◌∷◌, ◌++◌, Bool, false, not,
  ◌&&◌, ◌==◌, leb, if◌then◌else◌, Bool-cases, inl, inr, arith, length, length-append, append-nil,
  append_assoc,
}
use co_context.Prelude.Result.{Result, ok, fault, assertion_failed}
use co_context.Worker.State.{Handle, Uring, Worker}
use co_context.Worker.Ready.Fifo.{ready, IsReady, schedule-ok, number_to_schedule-length}
use co_context.Context.{Enter, work_once, check_submission_threshold, work_times, do_worker_part}

-- What `resume` does to the ready queue: a coroutine puts `spawned` behind the others.
pub record Resumes {R : Type 0} (k : ℕ) (resume : Handle → Worker R → Worker R)
    (spawned : Handle → List Handle) : Type 0 where
  pub puts :
      (h : Handle) (w : Worker R)
      → IsReady k w
      → length (ready k w) + length (spawned h) ≤ 2 ^ k
      → (ready k (resume h w) ≡ ready k w ++ spawned h) × IsReady k (resume h w)

abbrev pub spawned_by : (Handle → List Handle) → List Handle → List Handle
spawned_by spawned [] = []
spawned_by spawned (h ∷ hs) = spawned h ++ spawned_by spawned hs

-- An assertion has failed, where submissions wait for a threshold and the system rejects one.
abbrev pub Rejected : {R : Type 0} → Enter R → ℕ → Result (Worker R) → Type 0
Rejected {R = R} enter submission_threshold result =
    (submission_threshold ≢ 2 ^ 32 - 1)
    × ((r : R) × ((enter.submit_and_get_events r).0 ≡ false))
    × (result ≡ fault assertion_failed)

module _ {R : Type 0} (io : Uring R) (enter : Enter R) (resume : Handle → Worker R → Worker R)
    (is_using_eventfd : Bool) (event_fd k submission_threshold : ℕ) (spawned : Handle → List Handle)
    (resumes : Resumes k resume spawned) where
  check_lem :
      (w : Worker R)
      → IsReady k w
      → ((w' : Worker R) × (check_submission_threshold io enter resume is_using_eventfd event_fd k
              submission_threshold w
            ≡ ok w')
          × (ready k w' ≡ ready k w)
          × IsReady k w')
        ⊎ Rejected enter submission_threshold (
            check_submission_threshold io enter resume is_using_eventfd event_fd k
              submission_threshold w)
  unfolding check_submission_threshold
  check_lem w v =
      elim (Bool-cases (
        not (submission_threshold == 2 ^ 32 - 1)
        && leb submission_threshold w.requests_to_submit)) [
          | inl due ↦ elim (Bool-cases (enter.submit_and_get_events w.ring).0) [
            | inl accepted ↦ inl (
              record w { ring = (enter.submit_and_get_events w.ring).1; requests_to_submit = 0 },
              rw (due, if◌then◌else◌, accepted) refl,
              refl,
              record { cursor = v.cursor; storage = v.storage; full_handles = v.full_handles },
            )
            | inr rejected ↦ inr (
              (λ e. ground (arith, due, e)),
              (w.ring, rejected),
              rw (due, if◌then◌else◌, rejected) refl,
            )
          ]
          | inr below ↦ inl (w, rw (below, if◌then◌else◌) refl, refl, v)
        ]

  work_times_lem :
      (hs others : List Handle) (w : Worker R)
      → IsReady k w
      → ready k w ≡ hs ++ others
      → length hs + length others + length (spawned_by spawned hs) ≤ 2 ^ k
      → ((w' : Worker R) × (work_times io enter resume is_using_eventfd event_fd k
              submission_threshold
              (length hs)
              w
            ≡ ok w')
          × (ready k w' ≡ others ++ spawned_by spawned hs)
          × IsReady k w')
        ⊎ Rejected enter submission_threshold (
            work_times io enter resume is_using_eventfd event_fd k submission_threshold
              (length hs)
              w)
  unfolding work_times work_once
  work_times_lem [] others w v e room = inl (w, refl, e ∙ sym (append-nil others), v)
  work_times_lem (h ∷ hs) others w v e room =
      let (taken, rest, v1) = schedule-ok k w h (hs ++ others) v e in
      let (grown, v2) = resumes.puts h _ v1 (
        omega (
          arith,
          ap length rest,
          length-append hs others,
          length-append (spawned h) (spawned_by spawned hs),
        )) in
      elim (check_lem (resume h _) v2) [
        | inl (w3, run3, same, v3) ↦
            elim (work_times_lem hs (others ++ spawned h) w3 v3
              (same ∙ grown ∙ ap (λ l. l ++ spawned h) rest ∙ append_assoc hs others (spawned h))
              (omega (
                arith,
                length-append others (spawned h),
                length-append (spawned h) (spawned_by spawned hs),
              ))) [
                | inl (w4, run4, end, v4) ↦ inl (
                  w4,
                  rw (taken, run3) run4,
                  end ∙ append_assoc others (spawned h) (spawned_by spawned hs),
                  v4,
                )
                | inr (waits, rejected, run4) ↦ inr (waits, rejected, rw (taken, run3) run4)
              ]
        | inr (waits, rejected, run3) ↦ inr (waits, rejected, rw (taken, run3) refl)
      ]

  -- When each coroutine puts those that it makes ready behind the others, and the ready queue has
  -- room for them all, one round resumes every coroutine that was ready when it began, in order,
  -- and leaves those that they have made ready, in the order of their makers; or it ends in a
  -- failed assertion, which happens only where there is a submission that the system rejects, and
  -- where submissions wait for a threshold, that is, the threshold is not the largest number.
  pub do_worker_part_lem :
      (w : Worker R)
      → IsReady k w
      → length (ready k w) + length (spawned_by spawned (ready k w)) ≤ 2 ^ k
      → ((w' : Worker R) × (do_worker_part io enter resume is_using_eventfd event_fd k
              submission_threshold w
            ≡ ok w')
          × (ready k w' ≡ spawned_by spawned (ready k w))
          × IsReady k w')
        ⊎ Rejected enter submission_threshold
            (do_worker_part io enter resume is_using_eventfd event_fd k submission_threshold w)
  unfolding do_worker_part
  do_worker_part_lem w v room =
      elim (work_times_lem (ready k w) [] w v (sym (append-nil (ready k w))) (omega arith)) [
        | inl (w', run, end, v') ↦ inl (w', rw (number_to_schedule-length k w) run, end, v')
        | inr (waits, rejected, run) ↦ inr (waits, rejected, rw (number_to_schedule-length k w) run)
      ]
