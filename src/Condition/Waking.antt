-- ===== src/Condition/Waking.antt =====
-- lib/co_context/co/condition_variable.cpp, `try_notify_one` and `try_notify_all`, and
-- lib/co_context/co/mutex.cpp, `register_awaiting`: an awaiter that is notified asks for the user's
-- mutex on behalf of its coroutine. A list of awaiters does so with no other thread in between.
use mathlib.Core.Path.{subst}
use co_context.Prelude.{
  ◌≤◌, ◌≡◌, ◌≢◌, refl, sym, ap, ◌∙◌, Option, none, some, true, List, [], ◌∷◌, ◌++◌, ◌==◌,
  if◌then◌else◌, arith, inl, inr, Bool-cases, append-nil, append_assoc, All, Fresh, Distinct,
}
use co_context.Awaiters.{Ptr, Links, set_next}
use co_context.Mutex.{
  Mutex, locked_no_awaiting, not_locked, Pc, idle, trying, linked, suspended, holding, Register,
  load, lock, link, push, System, owns, update, Step, registers, Reach, later,
}
use co_context.Mutex.Queue.{FairLock}
use co_context.Mutex.Invariant.Defs.{Inv, update_self}
use co_context.Mutex.Invariant.Registering.{moves, unlocked, takes-Inv, joins-Inv}
use co_context.Mutex.Safety.{Represents, Inv-Represents, shown}

-- `mtx.awaiting.load()`
abbrev pub loaded : Ptr → System → System
loaded a s = record s { pc = update s.pc a (trying s.mtx.awaiting) }

-- The compare-exchange of a mutex that is not locked: the coroutine is spawned as the owner.
abbrev pub locked : Ptr → System → System
locked a s = record {
  mtx = record s.mtx { awaiting = locked_no_awaiting };
  pc = update s.pc a holding;
}

abbrev pub linked_to : Ptr → Ptr → System → System
linked_to a old s = record {
  mtx = record s.mtx { next = set_next s.mtx.next a old };
  pc = update s.pc a (linked old);
}

abbrev pub pushed : Ptr → System → System
pushed a s = record { mtx = record s.mtx { awaiting = a }; pc = update s.pc a suspended }

-- `register_awaiting()`
unfoldable pub register_awaiting : Ptr → System → System
register_awaiting a s =
    let t = loaded a s in
    if s.mtx.awaiting == not_locked then locked a t else pushed a (linked_to a s.mtx.awaiting t)

-- `try_notify_all`, for the awaiters of a list.
unfoldable pub try_notify : List Ptr → System → System
try_notify [] s = s
try_notify (a ∷ xs) s = try_notify xs (register_awaiting a s)

-- A fair lock that is asked for by one coroutine, and by several in turn.
abbrev admit_at : Option Ptr → List Ptr → Ptr → FairLock
admit_at none queue a = record { owner = some a; queue = [] }
admit_at (some b) queue a = record { owner = some b; queue = queue ++ a ∷ [] }

abbrev pub admit : FairLock → Ptr → FairLock
admit q a = admit_at q.owner q.queue a

abbrev pub admits : FairLock → List Ptr → FairLock
admits q [] = q
admits q (a ∷ xs) = admits (admit q a) xs

abbrev pub Asks : System → Ptr → Type 0
Asks s a = (s.pc a ≡ idle) × (2 ≤ a)

step_at :
    {s : System} {m : Mutex} {p here : Pc} (a : Ptr)
    → s.pc a ≡ here
    → 2 ≤ a
    → Register a s.mtx here m p
    → Step s (record { mtx = m; pc = update s.pc a p })
step_at {s} {m} {p} a e aligned mv =
    registers a aligned (subst (λ h. Register a s.mtx h m p) (sym e) mv)

module _ {next : Links} {s : System} (a : Ptr) where
  loaded-Reach : Reach next s → Asks s a → Reach next (loaded a s)
  loaded-Reach r (at, al) = later r (step_at a at al load)

  register_awaiting-Reach : Reach next s → Asks s a → Reach next (register_awaiting a s)
  unfolding register_awaiting
  register_awaiting-Reach r (at, al) = elim (Bool-cases (s.mtx.awaiting == not_locked)) [
    | inl free ↦
        let is_free : s.mtx.awaiting ≡ not_locked = ground (arith, free) in
        rw free (
          later (loaded-Reach r (at, al))
            (step_at a (update_self s.pc a (trying s.mtx.awaiting)) al (lock is_free refl)))
    | inr busy ↦
        let is_busy : s.mtx.awaiting ≢ not_locked = λ e. ground (arith, busy, e) in
        rw busy (
          later
            (later (loaded-Reach r (at, al))
              (step_at a (update_self s.pc a (trying s.mtx.awaiting)) al (link is_busy)))
            (step_at a
              (update_self (update s.pc a (trying s.mtx.awaiting)) a (linked s.mtx.awaiting)) al
              (push refl)))
  ]

module _ {s : System} {q : FairLock} (v : Inv s q) (a : Ptr) where
  loaded-Inv : s.pc a ≡ idle → Inv (loaded a s) q
  loaded-Inv at =
      moves v a (trying s.mtx.awaiting) s.mtx.next (λ w. cc) (rw at refl) refl (λ w. cc)
        (λ b n. refl) (λ old l. cc)

  linked-Inv :
      (old : Ptr) → s.pc a ≡ trying old → old ≢ not_locked → 2 ≤ a → Inv (linked_to a old s) q
  linked-Inv old at locked al =
      moves v a (linked old) (set_next s.mtx.next a old) (λ w. cc) (rw at refl) refl (λ w. cc)
        (λ b n. ground arith) (λ old' l. ground arith)

admit-free :
    (q : FairLock) (a : Ptr) → q.owner ≡ none → admit q a ≡ record { owner = some a; queue = [] }
admit-free q a e = rw e refl

admit-held :
    (q : FairLock) (a b : Ptr)
    → q.owner ≡ some b
    → admit q a ≡ record { owner = some b; queue = q.queue ++ a ∷ [] }
admit-held q a b e = rw e refl

register_awaiting-Inv :
    {s : System} {q : FairLock}
    → Inv s q
    → (a : Ptr) → Asks s a
    → Inv (register_awaiting a s) (admit q a)
unfolding register_awaiting
register_awaiting-Inv {s} {q} v a (at, al) = elim (Bool-cases (s.mtx.awaiting == not_locked)) [
  | inl free ↦
      let is_free : s.mtx.awaiting ≡ not_locked = ground (arith, free) in
      let here : (loaded a s).pc a ≡ trying s.mtx.awaiting =
        update_self s.pc a (trying s.mtx.awaiting) in
      rw free (
        subst (Inv (locked a (loaded a s))) (sym (admit-free q a (unlocked v a is_free)))
          (takes-Inv (loaded-Inv v a at) a (λ w. cc) is_free))
  | inr busy ↦
      let is_busy : s.mtx.awaiting ≢ not_locked = λ e. ground (arith, busy, e) in
      let here : (loaded a s).pc a ≡ trying s.mtx.awaiting =
        update_self s.pc a (trying s.mtx.awaiting) in
      let v' = linked-Inv (loaded-Inv v a at) a s.mtx.awaiting here is_busy al in
      let (b, held, w) =
        joins-Inv v' a s.mtx.awaiting (update_self (loaded a s).pc a (linked s.mtx.awaiting))
          refl in
      rw busy (
        subst (Inv (pushed a (linked_to a s.mtx.awaiting (loaded a s))))
          (sym (admit-held q a b held)) w)
]

register_awaiting-other : (a b : Ptr) (s : System) → b ≢ a → (register_awaiting a s).pc b ≡ s.pc b
unfolding register_awaiting
register_awaiting-other a b s ne = elim (Bool-cases (s.mtx.awaiting == not_locked)) [
  | inl free ↦ rw free (ground (arith, ne))
  | inr busy ↦ rw busy (ground (arith, ne))
]

still-Asks :
    (a : Ptr) (xs : List Ptr) (s : System)
    → Fresh a xs
    → All (Asks s) xs
    → All (Asks (register_awaiting a s)) xs
still-Asks a [] s f h = tt
still-Asks a (x ∷ xs) s f h =
    ((register_awaiting-other a x s f.0 ∙ h.0.0, h.0.1), still-Asks a xs s f.1 h.1)

try_notify-Inv :
    {next : Links} (xs : List Ptr) {s : System} {q : FairLock}
    → Reach next s
    → Inv s q
    → All (Asks s) xs
    → Distinct xs
    → Reach next (try_notify xs s) × Inv (try_notify xs s) (admits q xs)
unfolding try_notify
try_notify-Inv [] r v h d = (r, v)
try_notify-Inv (a ∷ xs) {s} r v h d =
    try_notify-Inv xs (register_awaiting-Reach a r h.0) (register_awaiting-Inv v a h.0)
      (still-Asks a xs s d.0 h.1) d.1

admits-held :
    (q : FairLock) (b : Ptr) (xs : List Ptr)
    → q.owner ≡ some b
    → admits q xs ≡ record { owner = some b; queue = q.queue ++ xs }
admits-held q b [] e = rw (append-nil q.queue, ← e) refl
admits-held q b (a ∷ xs) e =
    ap (λ x. admits x xs) (admit-held q a b e)
    ∙ admits-held (record { owner = some b; queue = q.queue ++ a ∷ [] }) b xs refl
    ∙ ap (λ l. record { owner = some b; queue = l }) (append_assoc q.queue (a ∷ []) xs)

-- While a coroutine owns the mutex, those whose awaiters are notified one after the other, with no
-- other thread in between, join the queue of the mutex in that order behind those who wait for it,
-- and the owner keeps the mutex; what happens is a run of the mutex.
pub try_notify_lem :
    {next : Links} {s : System} (xs : List Ptr) (b : Ptr)
    → Reach next s
    → owns (s.pc b) ≡ true
    → All (Asks s) xs
    → Distinct xs
    → (q : FairLock) × Represents s q
      × Reach next (try_notify xs s)
      × Represents (try_notify xs s) (record { owner = some b; queue = q.queue ++ xs })
try_notify_lem {next} {s} xs b r inside h d =
    let (q, fair, v) = shown r in
    let (r', v') = try_notify-Inv xs r v h d in
    (
      q,
      Inv-Represents v,
      r',
      Inv-Represents (subst (Inv (try_notify xs s)) (admits-held q b xs (v.owners b inside)) v'),
    )
