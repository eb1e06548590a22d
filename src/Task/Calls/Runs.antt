-- ===== src/Task/Calls/Runs.antt =====
-- A call runs to the end of its callee, and the caller goes on.
use co_context.Prelude.{
  ℕ, suc, ◌+◌, ◌≤◌, ◌<◌, ◌≡◌, ◌≢◌, refl, sym, ap, ◌∙◌, some, ◌⊎◌, inl, inr, arith,
}
use co_context.Awaiters.{Ptr}
use co_context.Task.Promise.{Outcome, Kind, value_task, new_promise}
use co_context.Task.Machine.{
  Body, running, Frame, Heap, put, new_task, ended, complete, execute, run,
}
use co_context.Prelude.Result.{fault, undefined_behaviour}
use co_context.Task.Calls.{
  IsSafe, CanEnd, Program, gives, raises, calls, outcome, meaning, awaited_call, coroutine, IsFresh,
  Same, Reaches,
}
use co_context.Task.Calls.Steps.{
  put_own, put_other, settled, complete-settled, complete-undefined, callee, waiting, called,
  call_starts, run-transfer, callee_starts, caller_goes_on,
}
use co_context.Task.Calls.Frames.{
  Same-IsFresh, entered, left_again, entered-IsFresh, entered_caller, entered-callee, entered_above,
  left_again-Same,
}

module _ {A E : Type 0} where
  -- The equations of a call, one after the other.
  call_runs :
      (kind : Kind) (p : Program A E) (k : Outcome A E → Body A E) (h : Ptr) (f : Frame A E)
      (s t : Heap A E) (r : A ⊎ E) (fuel n m : ℕ)
      → s.frames h ≡ some f
      → f.point ≡ running
      → h < s.top
      → 2 ≤ h
      → IsFresh s
      → CanEnd kind r
      → Same (entered kind p k h f s) t
      → ((fuel m : ℕ)
          → fuel ≡ n + m
          → run fuel (execute s.top (coroutine p) (entered kind p k h f s))
            ≡ run m (complete s.top r t))
      → fuel ≡ suc (n + suc m)
      → run fuel (execute h (awaited_call kind (coroutine p) k) s)
        ≡ run m (execute h (k (outcome kind r)) (left_again kind r s.top h f t))
  call_runs kind p k h f s t r fuel n m e now below big fresh can (same, above) callee_runs enough =
      ap (run fuel) (call_starts kind p k h f s e below fresh.0)
      ∙ run-transfer fuel (n + suc m) s.top (called kind (coroutine p) k h f s) enough fresh.0
      ∙ ap (run (n + suc m)) (
          callee_starts kind p s.top h (called kind (coroutine p) k h f s)
            (put_own s.top (some (callee kind (coroutine p) h)) suspended_heap))
      ∙ callee_runs (n + suc m) (suc m) refl
      ∙ ap (run (suc m)) (complete-settled kind r s.top g t can at_callee refl)
      ∙ run-transfer (suc m) m h ended_heap refl big
      ∙ ap (run m) (
          caller_goes_on kind r k s.top h f g ended_heap can apart
            (λ z. omega (arith, z, big, below))
            (put_other s.top h (some (ended g (settled kind r))) t (λ z. apart (sym z)) ∙ at_caller)
            (put_own s.top (some (ended g (settled kind r))) t))
    where
      g : Frame A E
      g = record { parent_coro = h; promise = new_promise kind; point = running }

      apart : s.top ≢ h
      apart z = omega (arith, z, below)

      suspended_heap : Heap A E
      suspended_heap =
          put h (some (record f { point = waiting s.top k })) (new_task kind (coroutine p) s)

      ended_heap : Heap A E
      ended_heap = put s.top (some (ended g (settled kind r))) t

      at_callee : t.frames s.top ≡ some g
      at_callee = same s.top ∙ entered-callee kind p k h f s

      at_caller : t.frames h ≡ some (record f { point = waiting s.top k })
      at_caller = same h ∙ entered_caller kind p k h f s (λ z. apart (sym z))

  pub reaches :
      (p : Program A E) (h : Ptr) (f : Frame A E) (s : Heap A E)
      → s.frames h ≡ some f
      → f.point ≡ running
      → h < s.top
      → 2 ≤ h
      → IsFresh s
      → IsSafe p
      → Reaches h (coroutine p) (meaning p) s
  unfolding execute
  reaches (gives a) h f s e now below big fresh safe = (
    0,
    s,
    (λ fuel m z. ap (λ n. run n (complete h (inl a) s)) (omega (arith, z))),
    ((λ a. refl), omega arith),
  )
  reaches (raises x) h f s e now below big fresh safe = (
    0,
    s,
    (λ fuel m z. ap (λ n. run n (complete h (inr x) s)) (omega (arith, z))),
    ((λ a. refl), omega arith),
  )
  reaches (calls kind p k) h f s e now below big fresh safe =
      let k' : Outcome A E → Body A E = λ o. coroutine (k o) in
      let (n, t, callee_runs, same) =
        reaches p s.top (record { parent_coro = h; promise = new_promise kind; point = running })
          (entered kind p k' h f s) (entered-callee kind p k' h f s) refl
          (entered_above kind p k' h f s) fresh.0 (entered-IsFresh kind p k' h f s below fresh)
          safe.0 in
      let after : Heap A E = left_again kind (meaning p) s.top h f t in
      let same' = left_again-Same kind p k' h f s t (meaning p) e now below fresh same in
      let (n', t', goes_on, same'') =
        reaches (k (outcome kind (meaning p))) h f after (same'.0 h ∙ e) now
          (omega (arith, same'.1)) big (Same-IsFresh s after same' fresh) safe.2 in
      (
        suc (n + suc n'),
        t',
        (λ fuel m z.
            call_runs kind p k' h f s t (meaning p) fuel n (n' + m) e now below big fresh safe.1
              same callee_runs (omega (arith, z))
            ∙ goes_on (n' + m) m refl),
        ((λ a. same''.0 a ∙ same'.0 a), omega (arith, same'.1, same''.1)),
      )

  -- The callee alone, in its frame.
  callee-Reaches :
      (kind : Kind) (p : Program A E) (k : Outcome A E → Body A E) (h : Ptr) (f : Frame A E)
      (s : Heap A E)
      → h < s.top
      → IsFresh s
      → IsSafe p
      → Reaches s.top (coroutine p) (meaning p) (entered kind p k h f s)
  callee-Reaches kind p k h f s below fresh safe =
      reaches p s.top (record { parent_coro = h; promise = new_promise kind; point = running })
        (entered kind p k h f s) (entered-callee kind p k h f s) refl (entered_above kind p k h f s)
        fresh.0 (entered-IsFresh kind p k h f s below fresh) safe

  -- Where no function that is called as a `task<T>` ends with an exception, a coroutine that awaits
  -- the call of a function goes on, after finitely many transfers of control, with what the function
  -- gives, the exception of a `task<void>` or `task<T &>` included, however deep the calls inside
  -- the function go; and every frame that was made on the way is destroyed by then.
  pub call_lem :
      (kind : Kind) (p : Program A E) (k : Outcome A E → Body A E) (h : Ptr) (f : Frame A E)
      (s : Heap A E)
      → s.frames h ≡ some f
      → f.point ≡ running
      → h < s.top
      → 2 ≤ h
      → IsFresh s
      → IsSafe p
      → CanEnd kind (meaning p)
      → (n : ℕ) × (t : Heap A E) × Same s t
        × ((m : ℕ)
            → run (n + m) (execute h (awaited_call kind (coroutine p) k) s)
              ≡ run m (execute h (k (outcome kind (meaning p))) t))
  call_lem kind p k h f s e now below big fresh safe can =
      let (n, t, callee_runs, same) = callee-Reaches kind p k h f s below fresh safe in
      (
        suc (suc n),
        left_again kind (meaning p) s.top h f t,
        left_again-Same kind p k h f s t (meaning p) e now below fresh same,
        λ m.
            call_runs kind p k h f s t (meaning p) (suc (suc n) + m) n m e now below big fresh can
              same callee_runs (omega arith),
      )

  -- A coroutine that awaits, as a `task<T>`, a function that ends with an exception does not go on:
  -- the run ends in what the language leaves undefined.
  pub call-undefined :
      (p : Program A E) (x : E) (k : Outcome A E → Body A E) (h : Ptr) (f : Frame A E)
      (s : Heap A E)
      → s.frames h ≡ some f
      → h < s.top
      → IsFresh s
      → IsSafe p
      → meaning p ≡ inr x
      → (n : ℕ) × (run n (execute h (awaited_call value_task (coroutine p) k) s)
          ≡ some (fault undefined_behaviour))
  unfolding run
  call-undefined p x k h f s e below fresh safe throws =
      let (n, t, callee_runs, (same, above)) =
        callee-Reaches value_task p k h f s below fresh safe in
      let s' : Heap A E = called value_task (coroutine p) k h f s in
      let at : t.frames s.top ≡ some g = same s.top ∙ entered-callee value_task p k h f s in
      (
        suc (n + 1),
        ap (run (suc (n + 1))) (call_starts value_task p k h f s e below fresh.0)
            ∙ run-transfer (suc (n + 1)) (n + 1) s.top s' refl fresh.0
            ∙ ap (run (n + 1)) (
                callee_starts value_task p s.top h s' (
                  put_own s.top (some (callee value_task (coroutine p) h)) (
                    put h (some (record f { point = waiting s.top k }))
                      (new_task value_task (coroutine p) s))))
            ∙ callee_runs (n + 1) 1 refl
            ∙ ap (λ r. run 1 (complete s.top r t)) throws
            ∙ ap (run 1) (complete-undefined x s.top g t at refl),
      )
    where
      g : Frame A E
      g = record { parent_coro = h; promise = new_promise value_task; point = running }
