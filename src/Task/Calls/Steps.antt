-- ===== src/Task/Calls/Steps.antt =====
-- What the steps of a call do to the heap: the start of the callee, its end, and the caller that
-- goes on.
use co_context.Prelude.{
  ℕ, suc, ◌≤◌, ◌<◌, ◌≡◌, ◌≢◌, refl, Option, none, some, true, false, ◌==◌, ◌⊎◌, inl, inr, arith,
}
use co_context.Prelude.Result.{ok, fault, undefined_behaviour}
use co_context.Awaiters.{Ptr}
use co_context.Task.Promise.{
  Outcome, Promise, Kind, value_task, void_task, reference_task, of_void, of_reference,
  exception_ptr, new_promise, return_value, result,
}
use co_context.Task.Machine.{
  Body, destroy, Point, initial, running, awaits, Frame, Heap, noop_coroutine, put, transfer,
  new_task, destroy_task, await_ready, await_suspend, await_resume, ended, complete, execute,
  continue, resume, run,
}
use co_context.Task.Calls.{CanEnd, Program, outcome, awaited_call, coroutine}

module _ {A E : Type 0} where
  pub put_own : (h : Ptr) (o : Option (Frame A E)) (s : Heap A E) → (put h o s).frames h ≡ o
  put_own h o s = ground arith

  pub put_other :
      (h a : Ptr) (o : Option (Frame A E)) (s : Heap A E)
      → a ≢ h
      → (put h o s).frames a ≡ s.frames a
  put_other h a o s ne = ground arith

  -- The promise of a task that has ended.
  abbrev pub settled : Kind → A ⊎ E → Promise A E
  settled kind (inl a) = return_value a (new_promise kind)
  settled void_task (inr e) = of_void (exception_ptr e)
  settled reference_task (inr e) = of_reference none (some e)
  settled value_task (inr e) = new_promise value_task

  pub settled-result :
      (kind : Kind) (r : A ⊎ E) → CanEnd kind r → result (settled kind r) ≡ ok (outcome kind r)
  settled-result value_task (inl a) c = refl
  settled-result void_task (inl a) c = refl
  settled-result reference_task (inl a) c = refl
  settled-result value_task (inr e) c = absurd c
  settled-result void_task (inr e) c = refl
  settled-result reference_task (inr e) c = refl

  pub complete-settled :
      (kind : Kind) (r : A ⊎ E) (h : Ptr) (f : Frame A E) (s : Heap A E)
      → CanEnd kind r
      → s.frames h ≡ some f
      → f.promise ≡ new_promise kind
      → complete h r s ≡ ok (put h (some (ended f (settled kind r))) s, transfer f.parent_coro)
  unfolding complete
  complete-settled value_task (inl a) h f s c e p = rw (e, p) refl
  complete-settled void_task (inl a) h f s c e p = rw (e, p) refl
  complete-settled reference_task (inl a) h f s c e p = rw (e, p) refl
  complete-settled value_task (inr x) h f s c e p = absurd c
  complete-settled void_task (inr x) h f s c e p = rw (e, p) refl
  complete-settled reference_task (inr x) h f s c e p = rw (e, p) refl

  -- The end of a `task<T>` with an exception.
  pub complete-undefined :
      (x : E) (h : Ptr) (f : Frame A E) (s : Heap A E)
      → s.frames h ≡ some f
      → f.promise ≡ new_promise value_task
      → complete h (inr x) s ≡ fault undefined_behaviour
  unfolding complete
  complete-undefined x h f s e p = rw (e, p) refl

  -- The frame of the callee as `co_await` leaves it.
  abbrev pub callee : Kind → Body A E → Ptr → Frame A E
  callee kind body h = record { parent_coro = h; promise = new_promise kind; point = initial body }

  abbrev pub waiting : Ptr → (Outcome A E → Body A E) → Point A E
  waiting c k = awaits c (λ o. destroy c (k o))

  -- The heap after `co_await callee()` has suspended `h`.
  abbrev pub called :
      Kind → Body A E → (Outcome A E → Body A E) → Ptr → Frame A E → Heap A E → Heap A E
  called kind body k h f s =
      put s.top (some (callee kind body h))
        (put h (some (record f { point = waiting s.top k })) (new_task kind body s))

  pub call_starts :
      (kind : Kind) (p : Program A E) (k : Outcome A E → Body A E) (h : Ptr) (f : Frame A E)
      (s : Heap A E)
      → s.frames h ≡ some f
      → h < s.top
      → 2 ≤ s.top
      → execute h (awaited_call kind (coroutine p) k) s
        ≡ ok (called kind (coroutine p) k h f s, transfer s.top)
  unfolding execute new_task await_ready await_suspend
  call_starts kind p k h f s e below fresh =
      let own : (s.top == s.top) ≡ true = ground arith in
      let other : (h == s.top) ≡ false = ground arith in
      let other' : (s.top == h) ≡ false = ground arith in
      let there : (s.top == 0) ≡ false = ground arith in
      rw (execute, own, there, other, e, other') refl

  pub run-transfer :
      (fuel g : ℕ) (h : Ptr) (s : Heap A E)
      → fuel ≡ suc g
      → 2 ≤ h
      → run fuel (ok (s, transfer h)) ≡ run g (resume h s)
  unfolding run
  run-transfer fuel g h s e big =
      let there : (h == noop_coroutine) ≡ false = ground arith in rw (e, run, there) refl

  pub callee_starts :
      (kind : Kind) (p : Program A E) (c h : Ptr) (s : Heap A E)
      → s.frames c ≡ some (callee kind (coroutine p) h)
      → resume c s
        ≡ execute c
            (coroutine p)
            (put c (some (record (callee kind (coroutine p) h) { point = running })) s)
  unfolding resume continue
  callee_starts kind p c h s e = rw e refl

  -- The parent reads the result and destroys the task.
  pub caller_goes_on :
      (kind : Kind) (r : A ⊎ E) (k : Outcome A E → Body A E) (c h : Ptr) (f g : Frame A E)
      (s : Heap A E)
      → CanEnd kind r
      → c ≢ h
      → c ≢ 0
      → s.frames h ≡ some (record f { point = waiting c k })
      → s.frames c ≡ some (ended g (settled kind r))
      → resume h s
        ≡ execute h
            (k (outcome kind r))
            (put c none (put h (some (record f { point = running })) s))
  unfolding resume continue await_resume execute destroy_task
  caller_goes_on kind r k c h f g s can ne null e e' =
      let other : (c == h) ≡ false = ground arith in
      let there : (c == 0) ≡ false = ground arith in
      rw (e, there, other, e', settled-result kind r can) refl
