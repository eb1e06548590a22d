-- ===== src/LazyIo/Chain.antt =====
-- Links without a time limit: one chain of requests, the last of which resumes the coroutine.
use Prim.Native.Nat.{bit_or}
use co_context.Prelude.{
  ℕ, ◌%◌, ◌≡◌, ◌≢◌, refl, sym, ap, ◌∙◌, List, [], ◌∷◌, ◌++◌, Bool, true, false, arith, All, Fresh,
  Distinct, bit_or-tag,
}
use co_context.Worker.State.{Handle}
use co_context.Worker.Completion.{task_info_ptr, selector_of, raw_of}
use co_context.Worker.Completion.Dispatch.{selector_raw_of, wakes}
use co_context.LazyIo.{
  Submission, LazyAwaiter, await_suspend, linked_entry, set_link_sqe, set_link_awaiter,
  set_link_link_io, LinkIo, awaiters, link_io_awaiter, link_ios, link_timeout, awaiter_timeout,
  last_io, link, suspend_link,
}

-- No time limit is part of the link.
abbrev pub IsUntimed : LinkIo → Type 0
IsUntimed (awaiters lhs rhs) = Unit {0}
IsUntimed (link_io_awaiter lhs rhs) = IsUntimed lhs
IsUntimed (link_ios lhs rhs) = IsUntimed lhs × IsUntimed rhs
IsUntimed (link_timeout timed_io timer) = ⊥
IsUntimed (awaiter_timeout lhs timed_io timer) = ⊥

-- All but the last of the link, in the order in which the operators mark them.
abbrev pub front : LinkIo → List LazyAwaiter
front (awaiters lhs rhs) = lhs ∷ []
front (link_io_awaiter lhs rhs) = front lhs ++ last_io lhs ∷ []
front (link_ios lhs rhs) = (front lhs ++ front rhs) ++ last_io lhs ∷ []
front (link_timeout timed_io timer) = []
front (awaiter_timeout lhs timed_io timer) = lhs ∷ []

abbrev pub sqes : List LazyAwaiter → List ℕ
sqes [] = []
sqes (a ∷ xs) = a.sqe ∷ sqes xs

abbrev link_all : List LazyAwaiter → Submission → Submission
link_all [] s = s
link_all (a ∷ xs) s = link_all xs (set_link_awaiter a s)

link_all-append :
    (xs bs : List LazyAwaiter) (s : Submission)
    → link_all (xs ++ bs) s ≡ link_all bs (link_all xs s)
link_all-append [] bs s = refl
link_all-append (a ∷ xs) bs s = link_all-append xs bs (set_link_awaiter a s)

link-front :
    (k : Bool) (l : LinkIo) (s : Submission) → IsUntimed l → link k l s ≡ link_all (front l) s
unfolding link set_link_link_io
link-front k (awaiters lhs rhs) s u = refl
link-front k (link_io_awaiter lhs rhs) s u =
    ap (set_link_awaiter (last_io lhs)) (link-front k lhs s u)
    ∙ sym (link_all-append (front lhs) (last_io lhs ∷ []) s)
link-front k (link_ios lhs rhs) s u =
    ap (set_link_awaiter (last_io lhs)) (
      link-front k rhs (link k lhs s) u.1
      ∙ ap (link_all (front rhs)) (link-front k lhs s u.0)
      ∙ sym (link_all-append (front lhs) (front rhs) s))
    ∙ sym (link_all-append (front lhs ++ front rhs) (last_io lhs ∷ []) s)
link-front k (link_timeout timed_io timer) s u = absurd u
link-front k (awaiter_timeout lhs timed_io timer) s u = absurd u

link_all-infos : (xs : List LazyAwaiter) (s : Submission) → (link_all xs s).infos ≡ s.infos
unfolding set_link_awaiter set_link_sqe
link_all-infos [] s = refl
link_all-infos (a ∷ xs) s = link_all-infos xs (set_link_awaiter a s)

pub set_link_awaiter-other :
    (a : LazyAwaiter) (s : Submission) (p : ℕ)
    → p ≢ a.sqe
    → (set_link_awaiter a s).entries p ≡ s.entries p
unfolding set_link_awaiter set_link_sqe
set_link_awaiter-other a s p ne = ground (arith, ne)

pub set_link_awaiter-own :
    (a : LazyAwaiter) (s : Submission)
    → (set_link_awaiter a s).entries a.sqe ≡ linked_entry (s.entries a.sqe)
unfolding set_link_awaiter set_link_sqe
set_link_awaiter-own a s = ground arith

link_all-other :
    (xs : List LazyAwaiter) (s : Submission) (p : ℕ)
    → Fresh p (sqes xs)
    → (link_all xs s).entries p ≡ s.entries p
link_all-other [] s p f = refl
link_all-other (a ∷ xs) s p f =
    link_all-other xs (set_link_awaiter a s) p f.1 ∙ set_link_awaiter-other a s p (λ e. f.0 (sym e))

transfer :
    (a : LazyAwaiter) (xs : List LazyAwaiter) (s t : Submission)
    → Fresh a.sqe (sqes xs)
    → All (λ x. t.entries x.sqe ≡ linked_entry ((set_link_awaiter a s).entries x.sqe)) xs
    → All (λ x. t.entries x.sqe ≡ linked_entry (s.entries x.sqe)) xs
transfer a [] s t f h = tt
transfer a (x ∷ xs) s t f h =
    (h.0 ∙ ap linked_entry (set_link_awaiter-other a s x.sqe f.0), transfer a xs s t f.1 h.1)

link_all-own :
    (xs : List LazyAwaiter) (s : Submission)
    → Distinct (sqes xs)
    → All (λ a. (link_all xs s).entries a.sqe ≡ linked_entry (s.entries a.sqe)) xs
link_all-own [] s d = tt
link_all-own (a ∷ xs) s d = (
  link_all-other xs (set_link_awaiter a s) a.sqe d.0 ∙ set_link_awaiter-own a s,
  transfer a xs s (link_all xs (set_link_awaiter a s)) d.0
      (link_all-own xs (set_link_awaiter a s) d.1),
)

-- What the completion of this awaiter's request makes ready.
abbrev pub wakes_of : Submission → LazyAwaiter → List Handle
wakes_of s a =
    let user_data = (s.entries a.sqe).user_data in
    wakes s.infos (selector_of user_data) (raw_of user_data)

-- An awaiter as `lazy_awaiter()` leaves it: an aligned address without a tag, and no link.
abbrev pub IsPrepared : Submission → LazyAwaiter → Type 0
IsPrepared s a =
    (a.io_info % 8 ≡ 0)
    × ((s.entries a.sqe).user_data ≡ bit_or a.io_info task_info_ptr)
    × ((s.entries a.sqe).is_link ≡ false)

-- The request is linked to the next one, its result goes to its own task_info, and its completion
-- resumes nobody.
abbrev pub Passes : Submission → LazyAwaiter → Type 0
Passes s a =
    ((s.entries a.sqe).is_link ≡ true)
    × (raw_of (s.entries a.sqe).user_data ≡ a.io_info)
    × (wakes_of s a ≡ [])

pub linked-Passes :
    (s t : Submission) (a : LazyAwaiter)
    → IsPrepared s a
    → t.entries a.sqe ≡ linked_entry (s.entries a.sqe)
    → Passes t a
unfolding wakes
linked-Passes s t a p e =
    let plain : bit_or a.io_info 0 ≡ a.io_info =
      omega (arith, bit_or-tag a.io_info 0 p.0 (omega arith)) in
    let tagged : (t.entries a.sqe).user_data ≡ bit_or a.io_info 2 =
      ap (λ x. x.user_data) e ∙ ap (λ u. bit_or u 2) (p.1 ∙ plain) in
    let (tag, address) = selector_raw_of a.io_info 2 p.0 (omega arith) in
    (ap (λ x. x.is_link) e, rw tagged address, rw (tagged, tag) refl)

pub untagged_wakes :
    (t : Submission) (a : LazyAwaiter) (h : Handle)
    → a.io_info % 8 ≡ 0
    → (t.entries a.sqe).user_data ≡ bit_or a.io_info task_info_ptr
    → (t.infos a.io_info).handle ≡ h
    → (raw_of (t.entries a.sqe).user_data ≡ a.io_info) × (wakes_of t a ≡ h ∷ [])
unfolding wakes
untagged_wakes t a h aligned tagged i =
    let (tag, address) = selector_raw_of a.io_info 0 aligned (omega arith) in
    (rw tagged address, rw (tagged, tag, address) (ap (λ x. x ∷ []) i))

All-linked_Passes :
    (xs : List LazyAwaiter) (s t : Submission)
    → All (IsPrepared s) xs
    → All (λ a. t.entries a.sqe ≡ linked_entry (s.entries a.sqe)) xs
    → All (Passes t) xs
All-linked_Passes [] s t p e = tt
All-linked_Passes (a ∷ xs) s t p e = (linked-Passes s t a p.0 e.0, All-linked_Passes xs s t p.1 e.1)

-- A link of different awaiters without a time limit: every request but the last is linked to its
-- successor and resumes nobody, and the last ends the chain and resumes the coroutine that waits;
-- each result goes to the task_info of its own awaiter.
pub suspend_link_lem :
    (is_kernel_5_17 : Bool) (l : LinkIo) (current : Handle) (s : Submission)
    → IsUntimed l
    → Fresh (last_io l).sqe (sqes (front l))
    → Distinct (sqes (front l))
    → All (IsPrepared s) (front l)
    → IsPrepared s (last_io l)
    → All (Passes (suspend_link is_kernel_5_17 l current s)) (front l)
      × (((suspend_link is_kernel_5_17 l current s).entries (last_io l).sqe).is_link ≡ false)
      × (raw_of ((suspend_link is_kernel_5_17 l current s).entries (last_io l).sqe).user_data
          ≡ (last_io l).io_info)
      × (wakes_of (suspend_link is_kernel_5_17 l current s) (last_io l) ≡ current ∷ [])
unfolding suspend_link await_suspend
suspend_link_lem k l h s u new d ps p =
    let t = suspend_link k l h s in
    let same : t.entries ≡ (link_all (front l) s).entries =
      ap (λ x. x.entries) (link-front k l s u) in
    let own = link_all-own (front l) s d in
    let kept : t.entries (last_io l).sqe ≡ s.entries (last_io l).sqe =
      ap (λ x. x (last_io l).sqe) same ∙ link_all-other (front l) s (last_io l).sqe new in
    let set : (t.infos (last_io l).io_info).handle ≡ h = ground arith in
    let (address, woken) =
      untagged_wakes t (last_io l) h p.0 (ap (λ x. x.user_data) kept ∙ p.1) set in
    (
      All-linked_Passes (front l) s t ps (rw same own),
      ap (λ x. x.is_link) kept ∙ p.2,
      address,
      woken,
    )
