-- ===== src/LazyIo/Timeout.antt =====
-- Links with a time limit.
use Prim.Native.Nat.{bit_or}
use co_context.Prelude.{
  ℕ, ◌%◌, ◌≡◌, ◌≢◌, refl, sym, ap, ◌∙◌, [], ◌∷◌, Bool, true, false, if◌then◌else◌, arith,
}
use co_context.Worker.State.{Handle, decrement}
use co_context.Worker.Completion.{task_info_ptr__link_sqe}
use co_context.Worker.Completion.Dispatch.{selector_raw_of, wakes}
use co_context.LazyIo.{
  Submission, LazyAwaiter, await_suspend, linked_entry, set_link_sqe, set_link_awaiter,
  set_link_link_io, lazy_link_timeout, link_io_awaiter, awaiter_timeout, link, suspend_link,
}
use co_context.LazyIo.Chain.{
  wakes_of, IsPrepared, Passes, linked-Passes, untagged_wakes, set_link_awaiter-other,
  set_link_awaiter-own,
}

-- The completion of the timer resumes nobody and is not waited for.
abbrev pub IsIgnored : (is_kernel_5_17 : Bool) (before after : Submission) → LazyAwaiter → Type 0
IsIgnored true s t timer =
    ((t.entries timer.sqe).is_cqe_skip ≡ true) × (t.requests_to_reap ≡ decrement s.requests_to_reap)
IsIgnored false s t timer = (wakes_of t timer ≡ []) × (t.requests_to_reap ≡ s.requests_to_reap)

set_link_awaiter_waits :
    (a : LazyAwaiter) (s : Submission)
    → (set_link_awaiter a s).requests_to_reap ≡ s.requests_to_reap
unfolding set_link_awaiter set_link_sqe
set_link_awaiter_waits a s = refl

-- The entries after `lazy_link_timeout`.
module _ (timed timer : LazyAwaiter) (s : Submission) (apart : timed.sqe ≢ timer.sqe) where
  timed_entry :
      (k : Bool)
      → (lazy_link_timeout k timed timer s).entries timed.sqe
        ≡ record (s.entries timed.sqe) { is_link = true }
  unfolding lazy_link_timeout
  timed_entry true = ground (arith, apart)
  timed_entry false = ground (arith, apart)

  timer_entry_skips :
      (lazy_link_timeout true timed timer s).entries timer.sqe
      ≡ record (s.entries timer.sqe) { is_cqe_skip = true }
  unfolding lazy_link_timeout
  timer_entry_skips = ground (arith, apart)

  timer_entry_tagged :
      (lazy_link_timeout false timed timer s).entries timer.sqe
      ≡ record (s.entries timer.sqe) { user_data = bit_or timer.io_info task_info_ptr__link_sqe }
  unfolding lazy_link_timeout
  timer_entry_tagged = ground (arith, apart)

  other_entry :
      (k : Bool) (p : ℕ)
      → p ≢ timed.sqe
      → p ≢ timer.sqe
      → (lazy_link_timeout k timed timer s).entries p ≡ s.entries p
  unfolding lazy_link_timeout
  other_entry true p nt nm = ground (arith, nt, nm)
  other_entry false p nt nm = ground (arith, nt, nm)

  timer_waits :
      (k : Bool)
      → (lazy_link_timeout k timed timer s).requests_to_reap
        ≡ (if k then decrement s.requests_to_reap else s.requests_to_reap)
  unfolding lazy_link_timeout
  timer_waits true = refl
  timer_waits false = refl

  timer-IsIgnored :
      (k : Bool) (t : Submission)
      → timer.io_info % 8 ≡ 0
      → t.entries timer.sqe ≡ (lazy_link_timeout k timed timer s).entries timer.sqe
      → t.requests_to_reap ≡ (lazy_link_timeout k timed timer s).requests_to_reap
      → IsIgnored k s t timer
  unfolding wakes
  timer-IsIgnored true t aligned e n =
      (ap (λ x. x.is_cqe_skip) (e ∙ timer_entry_skips), n ∙ timer_waits true)
  timer-IsIgnored false t aligned e n =
      let tagged : (t.entries timer.sqe).user_data ≡ bit_or timer.io_info 2 =
        ap (λ x. x.user_data) (e ∙ timer_entry_tagged) in
      let (tag, address) = selector_raw_of timer.io_info 2 aligned (omega arith) in
      (rw (tagged, tag) refl, n ∙ timer_waits false)

  timer_link :
      (k : Bool)
      → ((lazy_link_timeout k timed timer s).entries timer.sqe).is_link
        ≡ (s.entries timer.sqe).is_link
  timer_link true = ap (λ x. x.is_link) timer_entry_skips
  timer_link false = ap (λ x. x.is_link) timer_entry_tagged

-- A request with a time limit, after another or alone, resumes the coroutine when it completes, and
-- is linked to the timer. The timer ends the chain; its completion is ignored: it resumes nobody,
-- or does not come where the kernel can leave it out. A request in front of the two passes the
-- chain on to them.
pub lazy_link_timeout_lem :
    (is_kernel_5_17 : Bool) (lhs timed timer : LazyAwaiter) (current : Handle) (s : Submission)
    → timed.sqe ≢ timer.sqe
    → lhs.sqe ≢ timed.sqe
    → lhs.sqe ≢ timer.sqe
    → IsPrepared s lhs
    → IsPrepared s timed
    → IsPrepared s timer
    → (((suspend_link is_kernel_5_17 (awaiter_timeout lhs timed timer) current s).entries
          timed.sqe).is_link
        ≡ true)
      × (wakes_of (suspend_link is_kernel_5_17 (awaiter_timeout lhs timed timer) current s) timed
          ≡ current ∷ [])
      × (((suspend_link is_kernel_5_17 (awaiter_timeout lhs timed timer) current s).entries
            timer.sqe).is_link
          ≡ false)
      × IsIgnored is_kernel_5_17 s
          (suspend_link is_kernel_5_17 (awaiter_timeout lhs timed timer) current s)
          timer
      × Passes (suspend_link is_kernel_5_17 (awaiter_timeout lhs timed timer) current s) lhs
unfolding suspend_link await_suspend link
lazy_link_timeout_lem k lhs timed timer h s apart lt lm pl pt pm =
    let t = suspend_link k (awaiter_timeout lhs timed timer) h s in
    let mid = lazy_link_timeout k timed timer s in
    let at_timed : t.entries timed.sqe ≡ record (s.entries timed.sqe) { is_link = true } =
      set_link_awaiter-other lhs mid timed.sqe (λ e. lt (sym e))
      ∙ timed_entry timed timer s apart k in
    let at_timer : t.entries timer.sqe ≡ mid.entries timer.sqe =
      set_link_awaiter-other lhs mid timer.sqe (λ e. lm (sym e)) in
    let set : (t.infos timed.io_info).handle ≡ h = ground arith in
    let (address, woken) =
      untagged_wakes t timed h pt.0 (ap (λ x. x.user_data) at_timed ∙ pt.1) set in
    (
      ap (λ x. x.is_link) at_timed,
      woken,
      ap (λ x. x.is_link) at_timer ∙ timer_link timed timer s apart k ∙ pm.2,
      timer-IsIgnored timed timer s apart k t pm.0 at_timer (set_link_awaiter_waits lhs mid),
      linked-Passes s t lhs pl (
          set_link_awaiter-own lhs mid
          ∙ ap linked_entry (other_entry timed timer s apart k lhs.sqe lt lm)),
    )

-- When a request is linked behind a request with a time limit, the timer between them has no link,
-- and yet the request with the time limit no longer resumes the coroutine: the new one does.
pub link_after_timeout :
    (is_kernel_5_17 : Bool) (lhs timed timer rhs : LazyAwaiter) (current : Handle) (s : Submission)
    → timed.sqe ≢ timer.sqe
    → lhs.sqe ≢ timed.sqe
    → lhs.sqe ≢ timer.sqe
    → rhs.sqe ≢ lhs.sqe
    → rhs.sqe ≢ timed.sqe
    → rhs.sqe ≢ timer.sqe
    → IsPrepared s timed
    → IsPrepared s timer
    → IsPrepared s rhs
    → (((suspend_link is_kernel_5_17
            (link_io_awaiter (awaiter_timeout lhs timed timer) rhs)
            current
            s).entries
          timer.sqe).is_link
        ≡ false)
      × (wakes_of
            (suspend_link is_kernel_5_17
              (link_io_awaiter (awaiter_timeout lhs timed timer) rhs)
              current
              s)
            timed
          ≡ [])
      × (wakes_of
            (suspend_link is_kernel_5_17
              (link_io_awaiter (awaiter_timeout lhs timed timer) rhs)
              current
              s)
            rhs
          ≡ current ∷ [])
unfolding suspend_link await_suspend link set_link_link_io
link_after_timeout k lhs timed timer rhs h s apart lt lm rl rt rm pt pm pr =
    let t = suspend_link k (link_io_awaiter (awaiter_timeout lhs timed timer) rhs) h s in
    let first = lazy_link_timeout k timed timer s in
    let mid = set_link_awaiter lhs first in
    let at_timer : t.entries timer.sqe ≡ first.entries timer.sqe =
      set_link_awaiter-other timed mid timer.sqe (λ e. apart (sym e))
      ∙ set_link_awaiter-other lhs first timer.sqe (λ e. lm (sym e)) in
    let at_rhs : t.entries rhs.sqe ≡ s.entries rhs.sqe =
      set_link_awaiter-other timed mid rhs.sqe rt
      ∙ set_link_awaiter-other lhs first rhs.sqe rl
      ∙ other_entry timed timer s apart k rhs.sqe rt rm in
    let before : mid.entries timed.sqe ≡ record (s.entries timed.sqe) { is_link = true } =
      set_link_awaiter-other lhs first timed.sqe (λ e. lt (sym e))
      ∙ timed_entry timed timer s apart k in
    let set : (t.infos rhs.io_info).handle ≡ h = ground arith in
    let (address, woken) = untagged_wakes t rhs h pr.0 (ap (λ x. x.user_data) at_rhs ∙ pr.1) set in
    let at_timed : t.entries timed.sqe ≡ linked_entry (s.entries timed.sqe) =
      set_link_awaiter-own timed mid ∙ ap linked_entry before in
    (
      ap (λ x. x.is_link) at_timer ∙ timer_link timed timer s apart k ∙ pm.2,
      (linked-Passes s t timed pt at_timed).2,
      woken,
    )
