-- ===== src/Task/Calls/Frames.antt =====
-- The frames before, during and after a call.
use native.Mathlib.Decide.{ℕ_discrete}
use co_context.Prelude.{◌<◌, ◌≡◌, ◌≢◌, refl, sym, ◌∙◌, none, some, true, false, ◌==◌, ◌⊎◌, arith}
use co_context.Awaiters.{Ptr}
use co_context.Task.Promise.{Outcome, Kind, new_promise}
use co_context.Task.Machine.{Body, running, Frame, Heap, put, new_task, ended}
use co_context.Task.Calls.{Program, coroutine, IsFresh, Same}
use co_context.Task.Calls.Steps.{settled, callee, waiting, called}

module _ {A E : Type 0} where
  pub Same-IsFresh : (s t : Heap A E) → Same s t → IsFresh s → IsFresh t
  Same-IsFresh s t (same, above) (big, free) = (omega arith, λ a h. same a ∙ free a (omega arith))

  -- The heap in which the callee's body starts, and the one in which the caller goes on.
  abbrev pub entered :
      Kind → Program A E → (Outcome A E → Body A E) → Ptr → Frame A E → Heap A E → Heap A E
  entered kind p k h f s =
      put s.top (some (record (callee kind (coroutine p) h) { point = running }))
        (called kind (coroutine p) k h f s)

  abbrev pub left_again : Kind → A ⊎ E → Ptr → Ptr → Frame A E → Heap A E → Heap A E
  left_again kind r c h f t = put c none (
      put h (some (record f { point = running })) (
        put c
          (some (
            ended (record { parent_coro = h; promise = new_promise kind; point = running })
              (settled kind r)))
          t))

  pub entered-IsFresh :
      (kind : Kind) (p : Program A E) (k : Outcome A E → Body A E) (h : Ptr) (f : Frame A E)
      (s : Heap A E)
      → h < s.top
      → IsFresh s
      → IsFresh (entered kind p k h f s)
  unfolding new_task
  entered-IsFresh kind p k h f s below (big, free) = (
    omega arith,
    λ a m.
        let other : (a == s.top) ≡ false = ground arith in
        let other' : (a == h) ≡ false = ground arith in rw (other, other') (free a (omega arith)),
  )

  pub entered_other :
      (kind : Kind) (p : Program A E) (k : Outcome A E → Body A E) (h : Ptr) (f : Frame A E)
      (s : Heap A E) (a : Ptr)
      → a ≢ h
      → a ≢ s.top
      → (entered kind p k h f s).frames a ≡ s.frames a
  unfolding new_task
  entered_other kind p k h f s a ne ne' =
      let other : (a == s.top) ≡ false = ground arith in
      let other' : (a == h) ≡ false = ground arith in rw (other, other') refl

  pub entered_caller :
      (kind : Kind) (p : Program A E) (k : Outcome A E → Body A E) (h : Ptr) (f : Frame A E)
      (s : Heap A E)
      → h ≢ s.top
      → (entered kind p k h f s).frames h ≡ some (record f { point = waiting s.top k })
  unfolding new_task
  entered_caller kind p k h f s ne =
      let other : (h == s.top) ≡ false = ground arith in
      let own : (h == h) ≡ true = ground arith in rw (other, own) refl

  pub entered-callee :
      (kind : Kind) (p : Program A E) (k : Outcome A E → Body A E) (h : Ptr) (f : Frame A E)
      (s : Heap A E)
      → (entered kind p k h f s).frames s.top
        ≡ some (record (callee kind (coroutine p) h) { point = running })
  unfolding new_task
  entered-callee kind p k h f s = let own : (s.top == s.top) ≡ true = ground arith in rw own refl

  pub entered_above :
      (kind : Kind) (p : Program A E) (k : Outcome A E → Body A E) (h : Ptr) (f : Frame A E)
      (s : Heap A E)
      → s.top < (entered kind p k h f s).top
  unfolding new_task
  entered_above kind p k h f s = omega arith

  -- After the call the frames are those from before.
  pub left_again-Same :
      (kind : Kind) (p : Program A E) (k : Outcome A E → Body A E) (h : Ptr) (f : Frame A E)
      (s t : Heap A E) (r : A ⊎ E)
      → s.frames h ≡ some f
      → f.point ≡ running
      → h < s.top
      → IsFresh s
      → Same (entered kind p k h f s) t
      → Same s (left_again kind r s.top h f t)
  unfolding new_task
  left_again-Same kind p k h f s t r e now below (big, free) (same, above) = (frames, omega arith)
    where
      frames : (a : Ptr) → (left_again kind r s.top h f t).frames a ≡ s.frames a
      frames a = elim (ℕ_discrete a s.top) [
        | yes x ↦
            let own : (a == s.top) ≡ true = ground arith in rw own (sym (free a (omega arith)))
        | no x ↦
            let other : (a == s.top) ≡ false = ground arith in
            elim (ℕ_discrete a h) [
              | yes y ↦
                  let own : (a == h) ≡ true = ground arith in rw (other, own, y, e, ← now) refl
              | no y ↦
                  let other' : (a == h) ≡ false = ground arith in
                  rw (other, other') (same a ∙ entered_other kind p k h f s a y x)
            ]
      ]
