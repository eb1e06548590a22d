-- ===== src/Mutex/Invariant/Defs.antt =====
-- The invariant: three lists of waiting coroutines stand for the queue. `resume` is what the owner
-- has put in order, `taken` is what it has taken off `awaiting` to put in order, and `stack` is
-- still on `awaiting`, the latest first.
use co_context.Prelude.{
  ◌≤◌, ◌≡◌, ◌≢◌, refl, none, some, true, List, [], ◌∷◌, ◌++◌, reverse, arith, All, Fresh, Listed,
  Distinct, Disjoint,
}
use co_context.Awaiters.{Ptr, Links, Chain, Chain-frame}
use co_context.Mutex.{
  not_locked, Pc, idle, trying, linked, suspended, holding, releasing, exchanging, reversing, owns,
  System, update,
}
use co_context.Mutex.Queue.{FairLock}

abbrev pub Waits : (Ptr → Pc) → Ptr → Type 0
Waits pc a = (pc a ≡ suspended) × (2 ≤ a)

-- What the three lists are like at each place where the owner can stand.
abbrev pub Phase : Links → Pc → (resume taken stack : List Ptr) → Type 0
Phase next holding resume taken stack = taken ≡ []
Phase next releasing resume taken stack = (taken ≡ []) × (resume ≡ [])
Phase next exchanging resume taken stack = (taken ≡ []) × (resume ≡ []) × (stack ≢ [])
Phase next (reversing top) resume taken stack = (resume ≡ []) × (taken ≢ []) × Chain next top taken
Phase next _ resume taken stack = ⊥

pub record Inv (s : System) (q : FairLock) : Type 0 where
  pub resume : List Ptr
  pub taken : List Ptr
  pub stack : List Ptr
  pub order : q.queue ≡ resume ++ (reverse taken ++ reverse stack)
  pub chain : Chain s.mtx.next s.mtx.to_resume resume
  pub resume_waits : All (Waits s.pc) resume
  pub taken_waits : All (Waits s.pc) taken
  pub stack_waits : All (Waits s.pc) stack
  pub distinct : Distinct resume × Distinct taken × Distinct stack
  pub disjoint : Disjoint resume stack × Disjoint taken stack
  pub unowned :
      q.owner ≡ none → (s.mtx.awaiting ≡ not_locked) × (resume ≡ []) × (taken ≡ []) × (stack ≡ [])
  pub owned :
      (b : Ptr)
      → q.owner ≡ some b
      → Phase s.mtx.next (s.pc b) resume taken stack × Chain s.mtx.next s.mtx.awaiting stack
  pub owners : (b : Ptr) → owns (s.pc b) ≡ true → q.owner ≡ some b
  pub queued : (b : Ptr) → s.pc b ≡ suspended → Listed b q.queue
  pub links :
      (b old : Ptr) → s.pc b ≡ linked old → (s.mtx.next b ≡ old) × (old ≢ not_locked) × (2 ≤ b)

-- A coroutine that does not wait is in none of the lists.
pub Waits-Fresh :
    (pc : Ptr → Pc) (a : Ptr) (xs : List Ptr) → pc a ≢ suspended → All (Waits pc) xs → Fresh a xs
Waits-Fresh pc a [] h w = tt
Waits-Fresh pc a (x ∷ xs) h w = ((λ e. h (rw (← e) (w.0.0))), Waits-Fresh pc a xs h w.1)

-- A move of another coroutine leaves those in a list waiting.
pub Waits-update :
    (pc : Ptr → Pc) (a : Ptr) (p : Pc) (xs : List Ptr)
    → Fresh a xs
    → All (Waits pc) xs
    → All (Waits (update pc a p)) xs
Waits-update pc a p [] f w = tt
Waits-update pc a p (x ∷ xs) f w =
    ((ground (arith, f.0, w.0), w.0.1), Waits-update pc a p xs f.1 w.1)

-- The word `not_locked` heads no list of waiting coroutines.
pub not-Chain-not_locked :
    (next : Links) (pc : Ptr → Pc) (xs : List Ptr)
    → All (Waits pc) xs
    → Chain next not_locked xs
    → ⊥
not-Chain-not_locked next pc [] w c = omega arith
not-Chain-not_locked next pc (x ∷ xs) w c = omega (arith, w.0.1, c.0)

pub update_self : (pc : Ptr → Pc) (a : Ptr) (p : Pc) → update pc a p a ≡ p
update_self pc a p = ground arith

-- Only an owner has a phase.
pub Phase-owns :
    (next : Links) (p : Pc) (xs ys zs : List Ptr) → Phase next p xs ys zs → owns p ≡ true
Phase-owns next holding xs ys zs h = refl
Phase-owns next releasing xs ys zs h = refl
Phase-owns next exchanging xs ys zs h = refl
Phase-owns next (reversing top) xs ys zs h = refl
Phase-owns next idle xs ys zs h = absurd h
Phase-owns next (trying old) xs ys zs h = absurd h
Phase-owns next (linked old) xs ys zs h = absurd h
Phase-owns next suspended xs ys zs h = absurd h

pub Phase-frame :
    (next next' : Links) (p : Pc) (xs ys zs : List Ptr)
    → All (λ x. next' x ≡ next x) ys
    → Phase next p xs ys zs
    → Phase next' p xs ys zs
Phase-frame next next' holding xs ys zs f h = h
Phase-frame next next' releasing xs ys zs f h = h
Phase-frame next next' exchanging xs ys zs f h = h
Phase-frame next next' (reversing top) xs ys zs f h =
    (h.0, h.1, Chain-frame next next' top ys f h.2)
Phase-frame next next' idle xs ys zs f h = h
Phase-frame next next' (trying old) xs ys zs f h = h
Phase-frame next next' (linked old) xs ys zs f h = h
Phase-frame next next' suspended xs ys zs f h = h

-- Links that agree but for `a` agree on a list without `a`.
pub agree_off :
    (next next' : Links) (a : Ptr) (xs : List Ptr)
    → ((b : Ptr) → b ≢ a → next' b ≡ next b)
    → Fresh a xs
    → All (λ x. next' x ≡ next x) xs
agree_off next next' a [] same f = tt
agree_off next next' a (x ∷ xs) same f = (same x f.0, agree_off next next' a xs same f.1)

-- A push does not end the phase of the owner.
pub Phase-push :
    (next : Links) (p : Pc) (xs ys zs : List Ptr) (a : Ptr)
    → Phase next p xs ys zs
    → Phase next p xs ys (a ∷ zs)
Phase-push next holding xs ys zs a h = h
Phase-push next releasing xs ys zs a h = h
Phase-push next exchanging xs ys zs a h = (h.0, h.1, λ e. cc)
Phase-push next (reversing top) xs ys zs a h = h
Phase-push next idle xs ys zs a h = h
Phase-push next (trying old) xs ys zs a h = h
Phase-push next (linked old) xs ys zs a h = h
Phase-push next suspended xs ys zs a h = h
