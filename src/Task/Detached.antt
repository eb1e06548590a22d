-- ===== src/Task/Detached.antt =====
-- include/co_context/task.hpp: a task that is detached and then resumed, as the workers do with the
-- tasks that are spawned on them.
use native.Mathlib.Decide.{ℕ_discrete}
use co_context.Prelude.{
  ℕ, suc, ◌+◌, ◌<◌, ◌≡◌, ◌≢◌, refl, sym, ap, ◌∙◌, Option, none, some, true, false, ◌==◌, inl, inr,
  arith,
}
use co_context.Prelude.Result.{◌>>=◌, Result, ok}
use co_context.Awaiters.{Ptr}
use co_context.Task.Promise.{
  Promise, Kind, value_task, void_task, reference_task, flag, of_void, is_detached, new_promise,
}
use co_context.Task.Machine.{
  Body, initial, running, done, Frame, Heap, noop_coroutine, put, Control, transfer, new_task,
  ended, detach_task, complete, execute, continue, resume, run,
}
use co_context.Task.Calls.{IsSafe, Program, meaning, coroutine, IsFresh}
use co_context.Task.Calls.Steps.{put_own, put_other, settled, complete-settled}
use co_context.Task.Calls.Runs.{reaches}

-- `t.detach()` for the task of a new coroutine, whose handle is then resumed.
abbrev pub spawn : {A E : Type 0} → Kind → Body A E → Heap A E → Result (Heap A E × Control E)
spawn kind body s = detach_task kind s.top (new_task kind body s) >>= (λ s'. resume s.top s')

abbrev pub detached_promise : {A E : Type 0} → Kind → Promise A E
detached_promise void_task = of_void (flag is_detached)
detached_promise kind = new_promise kind

module _ {A E : Type 0} where
  abbrev root : Kind → Frame A E
  root kind = record {
    parent_coro = noop_coroutine;
    promise = detached_promise kind;
    point = running;
  }

  -- What is left of the frame.
  abbrev pub OnlyAt : Ptr → Heap A E → Heap A E → Type 0
  OnlyAt h s t = (a : Ptr) → a ≢ h → t.frames a ≡ s.frames a

  abbrev Started : Kind → Body A E → Heap A E → Type 0
  Started kind body s =
      (t : Heap A E) × (spawn kind body s ≡ execute s.top body t)
      × (t.frames s.top ≡ some (root kind))
      × (s.top < t.top)
      × (IsFresh s → IsFresh t)
      × OnlyAt s.top s t

  -- The new frame, once it is resumed.
  placed :
      (kind : Kind) (body : Body A E) (s u : Heap A E)
      → spawn kind body s ≡ execute s.top body (put s.top (some (root kind)) u)
      → u.top ≡ suc s.top
      → OnlyAt s.top s u
      → Started kind body s
  placed kind body s u start above only = (
    put s.top (some (root kind)) u,
    start,
    put_own s.top (some (root kind)) u,
    omega (arith, above),
    (λ (big, free). (
      omega (arith, above, big),
      λ a far. others a (λ e. omega (arith, e, far, above)) ∙ free a (omega (arith, far, above)),
    )),
    others,
  )
    where
      others : OnlyAt s.top s (put s.top (some (root kind)) u)
      others a ne = put_other s.top a (some (root kind)) u ne ∙ only a ne

  new_task_only :
      (kind : Kind) (body : Body A E) (s : Heap A E) → OnlyAt s.top s (new_task kind body s)
  unfolding new_task
  new_task_only kind body s a ne = let other : (a == s.top) ≡ false = ground arith in rw other refl

  spawn_starts : (kind : Kind) (body : Body A E) (s : Heap A E) → Started kind body s
  unfolding new_task detach_task resume continue
  spawn_starts value_task body s =
      let own : (s.top == s.top) ≡ true = ground arith in
      placed value_task body s (new_task value_task body s) (rw own refl) refl
        (new_task_only value_task body s)
  spawn_starts reference_task body s =
      let own : (s.top == s.top) ≡ true = ground arith in
      placed reference_task body s (new_task reference_task body s) (rw own refl) refl
        (new_task_only reference_task body s)
  spawn_starts void_task body s =
      let own : (s.top == s.top) ≡ true = ground arith in
      placed void_task body s (put s.top (some detached) (new_task void_task body s))
        (rw (own, resume, own) refl) refl
        (λ a ne.
          put_other s.top a (some detached) (new_task void_task body s) ne
          ∙ new_task_only void_task body s a ne)
    where
      detached : Frame A E
      detached = record {
        parent_coro = noop_coroutine;
        promise = of_void (flag is_detached);
        point = initial body;
      }

  run_ends :
      (s : Heap A E) (o : Option (Frame A E)) (h : Ptr)
      → run 1 (ok (put h o s, transfer noop_coroutine)) ≡ some (ok (put h o s, none))
  unfolding run
  run_ends s o h = refl

  -- Where no function that is called as a `task<T>` ends with an exception, a detached `task<void>`
  -- whose function returns runs to its end, and no frame is left of it or of the tasks that it
  -- awaited.
  pub detached_ends :
      (p : Program A E) (a : A) (s : Heap A E)
      → IsSafe p
      → meaning p ≡ inl a
      → IsFresh s
      → (n : ℕ) × (t : Heap A E) × (run n (spawn void_task (coroutine p) s) ≡ some (ok (t, none)))
        × ((h : Ptr) → t.frames h ≡ s.frames h)
  unfolding complete
  detached_ends p a s safe gives fresh =
      let (u, start, own, above, fresh_after, others) = spawn_starts void_task (coroutine p) s in
      let (n, t, runs, same) =
        reaches p s.top (root void_task) u own refl above fresh.0 (fresh_after fresh) safe in
      (
        n + 1,
        put s.top none t,
        ap (run (n + 1)) start
            ∙ runs (n + 1) 1 refl
            ∙ rw (gives, same.0 s.top, own) (run_ends t none s.top),
        λ h. elim (ℕ_discrete h s.top) [
          | yes e ↦ rw e (put_own s.top none t) ∙ sym (fresh.1 h (omega (arith, e)))
          | no ne ↦ put_other s.top h none t ne ∙ same.0 h ∙ others h ne
        ],
      )

  -- Where no function that is called as a `task<T>` ends with an exception, an exception that leaves
  -- the function of a detached `task<void>` itself reaches whoever resumed the task, and its frame
  -- stays, at its end.
  pub detached_throws :
      (p : Program A E) (e : E) (s : Heap A E)
      → IsSafe p
      → meaning p ≡ inr e
      → IsFresh s
      → (n : ℕ) × (t : Heap A E) × (f : Frame A E) × (run n (spawn void_task (coroutine p) s)
          ≡ some (ok (t, some e)))
        × (t.frames s.top ≡ some f)
        × (f.point ≡ done)
        × OnlyAt s.top s t
  unfolding complete run
  detached_throws p e s safe raises fresh =
      let (u, start, own, above, fresh_after, others) = spawn_starts void_task (coroutine p) s in
      let (n, t, runs, same) =
        reaches p s.top (root void_task) u own refl above fresh.0 (fresh_after fresh) safe in
      let f : Frame A E = record (root void_task) { point = done } in
      (
        n + 1,
        put s.top (some f) t,
        f,
        ap (run (n + 1)) start ∙ runs (n + 1) 1 refl ∙ rw (raises, same.0 s.top, own) refl,
        put_own s.top (some f) t,
        refl,
        λ h ne. put_other s.top h (some f) t ne ∙ same.0 h ∙ others h ne,
      )

  -- Where no function that is called as a `task<T>` ends with an exception, the frame of a detached
  -- `task<T>` whose function returns a value is still there, at its end, when nothing runs any more.
  pub detached_value_stays :
      (p : Program A E) (a : A) (s : Heap A E)
      → IsSafe p
      → meaning p ≡ inl a
      → IsFresh s
      → (n : ℕ) × (t : Heap A E) × (f : Frame A E) × (run n (spawn value_task (coroutine p) s)
          ≡ some (ok (t, none)))
        × (t.frames s.top ≡ some f)
        × (f.point ≡ done)
  detached_value_stays p a s safe gives fresh =
      let (u, start, own, above, fresh_after, others) = spawn_starts value_task (coroutine p) s in
      let (n, t, runs, same) =
        reaches p s.top (root value_task) u own refl above fresh.0 (fresh_after fresh) safe in
      let f : Frame A E = ended (root value_task) (settled value_task (inl a)) in
      (
        n + 1,
        put s.top (some f) t,
        f,
        ap (run (n + 1)) start
            ∙ runs (n + 1) 1 refl
            ∙ ap (λ r. run 1 (complete s.top r t)) gives
            ∙ ap (run 1) (
                complete-settled value_task (inl a) s.top (root value_task) t tt
                  (same.0 s.top ∙ own) refl)
            ∙ run_ends t (some f) s.top,
        put_own s.top (some f) t,
        refl,
      )
