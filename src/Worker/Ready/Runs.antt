-- ===== src/Worker/Ready/Runs.antt =====
-- Any sequence of `forward_task` and `schedule` against a bounded queue of handles.
use co_context.Prelude.{
  ℕ, ◌^◌, ◌≡◌, inl, inr, List, [], ◌∷◌, ◌++◌, Option, none, some, not, ◌&&◌, ◌==◌, ltb,
  if◌then◌else◌, Option-cases, arith, length,
}
use co_context.Prelude.Result.{Result, ok, ◌>>=◌}
use co_context.Worker.State.{Handle, Worker}
use co_context.Worker.Ready.{forward_task, schedule}
use co_context.Worker.Ready.Fifo.{
  ready, IsReady, forwarded, forward_task-ok, forwarded-ready, forwarded-IsReady, schedule-ok,
}

pub data Op : Type 0 where
  forward : Handle → Op
  take : Op

-- What a queue of at most `cap` handles answers: the handles taken and the queue left, or none if
-- an empty handle is put in, the queue is full at a put, or empty at a take.
unfoldable pub queue_run : ℕ → List Handle → List Op → Option (List Handle × List Handle)
queue_run cap q [] = some ([], q)
queue_run cap q (forward h ∷ ops) =
    if not (h == 0) && ltb (length q) cap then queue_run cap (q ++ h ∷ []) ops else none
queue_run cap [] (take ∷ ops) = none
queue_run cap (h ∷ q) (take ∷ ops) = elim (queue_run cap q ops) [
  | none ↦ none
  | some (out, rest) ↦ some (h ∷ out, rest)
]

module _ {R : Type 0} (k : ℕ) where
  unfoldable pub worker_run : Worker R → List Op → Result (List Handle × Worker R)
  worker_run w [] = ok ([], w)
  worker_run w (forward h ∷ ops) = forward_task k h w >>= λ w'. worker_run w' ops
  worker_run w (take ∷ ops) = do
    (h, w') ← schedule k w
    (out, w'') ← worker_run w' ops
    ok (h ∷ out, w'')

  abbrev pub Answers : Worker R → List Op → List Handle → List Handle → Type 0
  Answers w ops out q =
      (w' : Worker R) × (worker_run w ops ≡ ok (out, w')) × (ready k w' ≡ q) × IsReady k w'

  run_take :
      (w : Worker R) (h : Handle) (hs out q : List Handle) (ops : List Op)
      → IsReady k w
      → ready k w ≡ h ∷ hs
      → ((w' : Worker R) → IsReady k w' → ready k w' ≡ hs → Answers w' ops out q)
      → Answers w (take ∷ ops) (h ∷ out) q
  unfolding worker_run
  run_take w h hs out q ops v e next =
      let (s, r, v') = schedule-ok k w h hs v e in
      let (w'', a, b, c) = next _ v' r in (w'', rw (s, a), b, c)

  -- Where a bounded queue of the ready handles answers a sequence of puts and takes, the worker's
  -- `forward_task` and `schedule` give the same handles without a fault, and leave the same queue.
  pub run_refines :
      (ops : List Op) (w : Worker R) (q0 out q : List Handle)
      → IsReady k w
      → ready k w ≡ q0
      → queue_run (2 ^ k) q0 ops ≡ some (out, q)
      → Answers w ops out q
  unfolding queue_run worker_run
  run_refines [] w q0 out q v e h = (w, ground arith, ground arith, v)
  run_refines (forward h ∷ ops) w q0 out q v e p =
      let (w', a, b, c) =
        run_refines ops (forwarded k h w) (q0 ++ h ∷ []) out q
          (forwarded-IsReady k h w (ground arith) v (ground arith))
          (ground (arith, forwarded-ready k h w v)) (ground arith) in
      (w', rw (forward_task-ok k h w (ground arith)) a, b, c)
  run_refines (take ∷ ops) w [] out q v e p = cc
  run_refines (take ∷ ops) w (h ∷ q0) out q v e p = elim (Option-cases (queue_run (2 ^ k) q0 ops)) [
    | inl stuck ↦ cc (rw (stuck, queue_run) at p)
    | inr ((out', rest), run) ↦
        let answered : ◌≡◌ {A = Option (List Handle × List Handle)} (some (h ∷ out', rest))
            (some (out, q)) =
          ground (arith, run) in
        let same : h ∷ out' ≡ out = cc in
        let left : rest ≡ q = cc in
        rw (← same, ← left)
          (run_take w h q0 out' rest ops v e
            (λ w' v' e'. run_refines ops w' q0 out' rest v' e' run))
  ]
