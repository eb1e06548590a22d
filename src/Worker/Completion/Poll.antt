-- ===== src/Worker/Completion/Poll.antt =====
-- `poll_completion` over all completions that are ready.
use native.Mathlib.Nat.{add-zero}
use co_context.Prelude.{
  ℕ, ◌+◌, ◌^◌, ◌≤◌, ◌≡◌, refl, sym, ap, ◌∙◌, List, [], ◌∷◌, ◌++◌, Bool, arith, append-nil,
  append_assoc, length, length-append, All, All-map,
}
use co_context.Prelude.Result.{ok}
use co_context.Worker.State.{Handle, TaskInfo, CqEntry, Uring, UringLaws, Worker}
use co_context.Worker.Ready.Fifo.{ready, IsReady}
use co_context.Worker.Completion.{selector_of, raw_of, poll_from, poll_completion}
use co_context.Worker.Completion.Dispatch.{wakes, IsTask, woken_by, handle_cq_entry_lem}

-- The coroutines that completions wake, in the order of the completions.
abbrev pub woken_by_all : (ℕ → TaskInfo) → List CqEntry → List Handle
woken_by_all infos [] = []
woken_by_all infos (c ∷ cs) = woken_by infos c ++ woken_by_all infos cs

wakes-same :
    (infos infos' : ℕ → TaskInfo) (s raw : ℕ)
    → ((p : ℕ) → (infos' p).handle ≡ (infos p).handle)
    → wakes infos' s raw ≡ wakes infos s raw
unfolding wakes
wakes-same infos infos' s raw e = ground (arith, e raw)

woken_by_all-same :
    (infos infos' : ℕ → TaskInfo)
    → ((p : ℕ) → (infos' p).handle ≡ (infos p).handle)
    → (cs : List CqEntry) → woken_by_all infos' cs ≡ woken_by_all infos cs
woken_by_all-same infos infos' e [] = refl
woken_by_all-same infos infos' e (c ∷ cs) = rw (
  wakes-same infos infos' (selector_of c.user_data) (raw_of c.user_data) e,
  woken_by_all-same infos infos' e cs,
)

IsTask-same :
    (is_using_eventfd : Bool) (infos infos' : ℕ → TaskInfo)
    → ((p : ℕ) → (infos' p).handle ≡ (infos p).handle)
    → (c : CqEntry) → IsTask is_using_eventfd infos c
    → IsTask is_using_eventfd infos' c
IsTask-same is_using_eventfd infos infos' e c t = record {
  unreserved = t.unreserved;
  known = t.known;
  full = rw (wakes-same infos infos' (selector_of c.user_data) (raw_of c.user_data) e) t.full;
}

module _ {R : Type 0} {io : Uring R} (is_using_eventfd : Bool) (event_fd k : ℕ)
    (laws : UringLaws io) where
  abbrev Polls : ℕ → List CqEntry → Worker R → Type 0
  Polls num cs w =
      (w' : Worker R) × (poll_from io is_using_eventfd event_fd k cs num w
        ≡ ok (num + length cs, w'))
      × (ready k w' ≡ ready k w ++ woken_by_all w.infos cs)
      × IsReady k w'
      × (io.ready w'.ring ≡ [])

  poll_from_lem :
      (cs : List CqEntry) (num : ℕ) (w : Worker R)
      → IsReady k w
      → All (IsTask is_using_eventfd w.infos) cs
      → length (ready k w) + length (woken_by_all w.infos cs) ≤ 2 ^ k
      → io.ready w.ring ≡ cs
      → Polls num cs w
  unfolding poll_from
  poll_from_lem [] num w v t room e = (w, rw add-zero, sym (append-nil (ready k w)), v, e)
  poll_from_lem (c ∷ cs) num w v t room e =
      let (w1, run, q, v1, same, ring, reap, result) =
        handle_cq_entry_lem io is_using_eventfd event_fd k c w v t.0
          (omega (arith, length-append hs (woken_by_all w.infos cs))) in
      let regroup : ready k w1 ++ woken_by_all w1.infos cs
          ≡ ready k w ++ woken_by_all w.infos (c ∷ cs) =
        rw (q, woken_by_all-same w.infos w1.infos same cs)
          (append_assoc (ready k w) hs (woken_by_all w.infos cs)) in
      let (w2, run2, q2, v2, done) =
        poll_from_lem cs (num + 1) w1 v1
          (All-map (IsTask is_using_eventfd w.infos) (IsTask is_using_eventfd w1.infos) cs
            (IsTask-same is_using_eventfd w.infos w1.infos same) t.1)
          (omega (
            arith,
            ap length regroup,
            length-append (ready k w) (woken_by_all w.infos (c ∷ cs)),
            length-append (ready k w1) (woken_by_all w1.infos cs),
          ))
          (rw ring (laws.ready-seen w.ring c cs e)) in
      (w2, rw run (run2 ∙ ap (λ n. ok (n, w2)) (omega arith)), q2 ∙ regroup, v2, done)
    where
      hs : List Handle
      hs = woken_by w.infos c

  -- When every completion that is ready belongs to a task and the ready queue has room for the
  -- coroutines to wake, all completions are handled and counted, none is left, and the coroutines
  -- stand behind those that were ready, in the order of their completions.
  pub poll_completion_lem :
      (w : Worker R)
      → IsReady k w
      → All (IsTask is_using_eventfd w.infos) (io.ready w.ring)
      → length (ready k w) + length (woken_by_all w.infos (io.ready w.ring)) ≤ 2 ^ k
      → (w' : Worker R) × (poll_completion io is_using_eventfd event_fd k w
          ≡ ok (length (io.ready w.ring), w'))
        × (ready k w' ≡ ready k w ++ woken_by_all w.infos (io.ready w.ring))
        × IsReady k w'
        × (io.ready w'.ring ≡ [])
  unfolding poll_completion
  poll_completion_lem w v t room =
      let (w', run, q, v', done) = poll_from_lem (io.ready w.ring) 0 w v t room refl in
      (w', run ∙ ap (λ n. ok (n, w')) (omega arith), q, v', done)
