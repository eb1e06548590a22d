-- ===== src/SharedTask/Invariant.antt =====
-- The invariant: a list of the coroutines that wait stands for the chain of waiters.
use mathlib.Core.Path.{subst}
use native.Mathlib.Decide.{ℕ_discrete}
use co_context.Prelude.{
  ℕ, ◌≤◌, ◌≡◌, ◌≢◌, refl, sym, ap, ◌∙◌, List, [], ◌∷◌, arith, All, Fresh, Listed, Distinct, inl,
  inr, ◌⊎◌,
}
use co_context.Awaiters.{Ptr, Links, Chain, Chain-frame}
use co_context.SharedTask.{
  value_ready, not_started, Pc, idle, checked, loaded, starting, trying, linked, suspended, goes_on,
  gone, Task, unstarted, running, waking, spawned, finished, read_freed, System, update, Local,
  is_ready, is_not_ready, load, start_fails, started_before, resume_returns, already_completed,
  link, push_fails, leave, start,
}

-- What each coroutine knows of the word, of its own link and of the list.
abbrev pub Knows : (w : ℕ) → Links → List Ptr → Ptr → Pc → Type 0
Knows w next xs a (loaded old) =
    ((old ≡ not_started) ⊎ (w ≢ not_started)) × (old ≡ value_ready → w ≡ value_ready)
Knows w next xs a starting = w ≢ not_started
Knows w next xs a (trying old) =
    (old ≢ not_started) × (w ≢ not_started) × (old ≡ value_ready → w ≡ value_ready)
Knows w next xs a (linked old) =
    (old ≢ not_started) × (old ≢ value_ready) × (w ≢ not_started) × (next a ≡ old)
Knows w next xs a suspended = Listed a xs
Knows w next xs a goes_on = w ≡ value_ready
Knows w next xs a gone = w ≡ value_ready
Knows w next xs a _ = Unit {0}

abbrev pub Waits : (Ptr → Pc) → Ptr → Type 0
Waits pc a = (pc a ≡ suspended) × (3 ≤ a)

-- It was resumed.
abbrev pub Left : Pc → Type 0
Left goes_on = Unit {0}
Left gone = Unit {0}
Left _ = ⊥

-- Where the chain of those who wait begins, and how often the coroutine was started.
abbrev pub Heads : Task → (w starts : ℕ) → Links → (Ptr → Pc) → List Ptr → Type 0
Heads unstarted w n next pc xs = (n ≡ 0) × (w ≡ not_started) × (xs ≡ [])
Heads running w n next pc xs = (n ≡ 1) × (w ≢ not_started) × (w ≢ value_ready) × Chain next w xs
Heads (waking p) w n next pc xs = (n ≡ 1) × (w ≡ value_ready) × (p ≢ 0) × Chain next p xs
Heads (spawned p) w n next pc xs =
    (n ≡ 1) × (w ≡ value_ready) × Left (pc p) × Chain next (next p) xs
Heads finished w n next pc xs = (n ≡ 1) × (w ≡ value_ready) × (xs ≡ [])
Heads read_freed w n next pc xs = (n ≡ 1) × (w ≡ value_ready)

pub record Inv (s : System) : Type 0 where
  pub waiting : List Ptr
  pub heads : Heads s.task s.waiters s.starts s.next s.pc waiting
  pub waits : All (Waits s.pc) waiting
  pub distinct : Distinct waiting
  pub knows : (a : Ptr) → Knows s.waiters s.next waiting a (s.pc a)

pub start-Inv : (next : Links) → Inv (start next)
start-Inv next = record {
  waiting = [];
  heads = (refl, refl, refl);
  waits = tt;
  distinct = tt;
  knows = λ a. tt;
}

pub waiting-Fresh :
    (pc : Ptr → Pc) (a : Ptr) (xs : List Ptr) → pc a ≢ suspended → All (Waits pc) xs → Fresh a xs
waiting-Fresh pc a [] h w = tt
waiting-Fresh pc a (x ∷ xs) h w = ((λ e. h (rw (← e) (w.0.0))), waiting-Fresh pc a xs h w.1)

pub waiting-update :
    (pc : Ptr → Pc) (a : Ptr) (p : Pc) (xs : List Ptr)
    → Fresh a xs
    → All (Waits pc) xs
    → All (Waits (update pc a p)) xs
waiting-update pc a p [] f w = tt
waiting-update pc a p (x ∷ xs) f w =
    ((ground (arith, f.0, w.0), w.0.1), waiting-update pc a p xs f.1 w.1)

agrees :
    (next next' : Links) (a : Ptr) (xs : List Ptr)
    → ((b : Ptr) → b ≢ a → next' b ≡ next b)
    → Fresh a xs
    → All (λ x. next' x ≡ next x) xs
agrees next next' a [] same f = tt
agrees next next' a (x ∷ xs) same f = (same x f.0, agrees next next' a xs same f.1)

-- A coroutine that does not wait moves, and may set its own link.
Heads-moves :
    (t : Task) (w n : ℕ) (next next' : Links) (pc : Ptr → Pc) (a : Ptr) (p : Pc) (xs : List Ptr)
    → Fresh a xs
    → ((b : Ptr) → b ≢ a → next' b ≡ next b)
    → (Left (pc a) → Left p × (next' a ≡ next a))
    → Heads t w n next pc xs
    → Heads t w n next' (update pc a p) xs
Heads-moves unstarted w n next next' pc a p xs f same stays h = h
Heads-moves running w n next next' pc a p xs f same stays h =
    (h.0, h.1, h.2, Chain-frame next next' w xs (agrees next next' a xs same f) h.3)
Heads-moves (waking q) w n next next' pc a p xs f same stays h =
    (h.0, h.1, h.2, Chain-frame next next' q xs (agrees next next' a xs same f) h.3)
Heads-moves (spawned q) w n next next' pc a p xs f same stays h =
    let framed = Chain-frame next next' (next q) xs (agrees next next' a xs same f) h.3 in
    elim (ℕ_discrete q a) [
      | yes e ↦
          let (left, kept) = stays (subst (λ b. Left (pc b)) e h.2) in
          let now : update pc a p q ≡ p = ground arith in
          let link : next' q ≡ next q = ap next' e ∙ kept ∙ ap next (sym e) in
          (h.0, h.1, subst Left (sym now) left, rw link framed)
      | no ne ↦
          let now : update pc a p q ≡ pc q = ground arith in
          (h.0, h.1, subst Left (sym now) h.2, rw (same q ne) framed)
    ]
Heads-moves finished w n next next' pc a p xs f same stays h = h
Heads-moves read_freed w n next next' pc a p xs f same stays h = h

-- Whoever does not move keeps what it knows.
pub Knows-other :
    (w w' : ℕ) (next next' : Links) (xs xs' : List Ptr) (b : Ptr) (p : Pc)
    → (w ≢ not_started → w' ≢ not_started)
    → (w ≡ value_ready → w' ≡ value_ready)
    → next' b ≡ next b
    → (Listed b xs → Listed b xs')
    → Knows w next xs b p
    → Knows w' next' xs' b p
Knows-other w w' next next' xs xs' b idle s r k l h = tt
Knows-other w w' next next' xs xs' b checked s r k l h = tt
Knows-other w w' next next' xs xs' b (loaded old) s r k l (inl e, h) = (inl e, λ z. r (h z))
Knows-other w w' next next' xs xs' b (loaded old) s r k l (inr e, h) = (inr (s e), λ z. r (h z))
Knows-other w w' next next' xs xs' b starting s r k l h = s h
Knows-other w w' next next' xs xs' b (trying old) s r k l h = (h.0, s h.1, λ z. r (h.2 z))
Knows-other w w' next next' xs xs' b (linked old) s r k l h = (h.0, h.1, s h.2, k ∙ h.3)
Knows-other w w' next next' xs xs' b suspended s r k l h = l h
Knows-other w w' next next' xs xs' b goes_on s r k l h = r h
Knows-other w w' next next' xs xs' b gone s r k l h = r h

module _ {s : System} (v : Inv s) (a : Ptr) where
  pub Knows-update :
      (w : ℕ) (next : Links) (xs : List Ptr) (p : Pc)
      → (s.waiters ≢ not_started → w ≢ not_started)
      → (s.waiters ≡ value_ready → w ≡ value_ready)
      → ((b : Ptr) → b ≢ a → next b ≡ s.next b)
      → ((b : Ptr) → b ≢ a → Listed b v.waiting → Listed b xs)
      → Knows w next xs a p
      → (b : Ptr) → Knows w next xs b (update s.pc a p b)
  Knows-update w next xs p st rd same list known b = elim (ℕ_discrete b a) [
    | yes e ↦
        let now : update s.pc a p b ≡ p = ground arith in
        subst (λ q. Knows w next xs b q) (sym now) (subst (λ c. Knows w next xs c p) (sym e) known)
    | no ne ↦
        let now : update s.pc a p b ≡ s.pc b = ground arith in
        subst (λ q. Knows w next xs b q) (sym now)
          (Knows-other s.waiters w s.next next v.waiting xs b (s.pc b) st rd (same b ne) (list b ne)
            (v.knows b))
  ]

  -- A step of one coroutine that leaves the word alone.
  moved :
      (next : Links) (p : Pc)
      → s.pc a ≢ suspended
      → ((b : Ptr) → b ≢ a → next b ≡ s.next b)
      → (Left (s.pc a) → Left p × (next a ≡ s.next a))
      → Knows s.waiters next v.waiting a p
      → Inv (record s { next = next; pc = update s.pc a p })
  moved next p up same stays known =
      let f = waiting-Fresh s.pc a v.waiting up v.waits in
      record {
        waiting = v.waiting;
        heads =
            Heads-moves s.task s.waiters s.starts s.next next s.pc a p v.waiting f same stays
              v.heads;
        waits = waiting-update s.pc a p v.waiting f v.waits;
        distinct = v.distinct;
        knows = Knows-update s.waiters next v.waiting p (λ h. h) (λ h. h) same (λ b ne h. h) known;
      }

  moved_from :
      (at : Pc) (next : Links) (p : Pc)
      → s.pc a ≡ at
      → at ≢ suspended
      → ((b : Ptr) → b ≢ a → next b ≡ s.next b)
      → (Left at → Left p × (next a ≡ s.next a))
      → (Knows s.waiters s.next v.waiting a at → Knows s.waiters next v.waiting a p)
      → Inv (record s { next = next; pc = update s.pc a p })
  moved_from at next p e up same stays known =
      moved next p (λ h. up (sym e ∙ h)) same (λ l. stays (subst Left e l))
        (known (subst (Knows s.waiters s.next v.waiting a) e (v.knows a)))

  pub Local-Inv :
      (at : Pc) (next : Links) (p : Pc)
      → s.pc a ≡ at
      → Local a s.waiters s.next at next p
      → Inv (record s { next = next; pc = update s.pc a p })
  Local-Inv at next p e (is_ready h) =
      moved_from at next p e (λ q. cc) (λ b ne. refl) (λ l. absurd l) (λ k. h)
  Local-Inv at next p e (is_not_ready h) =
      moved_from at next p e (λ h. cc) (λ b ne. refl) (λ l. absurd l) (λ k. tt)
  Local-Inv at next p e load =
      moved_from at next p e (λ h. cc) (λ b ne. refl) (λ l. absurd l)
        (λ k. (elim (ℕ_discrete s.waiters not_started) [ yes y ↦ inl y | no n ↦ inr n ], λ z. z))
  Local-Inv at next p e (start_fails h ne) =
      moved_from at next p e (λ h. cc) (λ b ne. refl) (λ l. absurd l)
        (λ k. let q : s.waiters ≢ not_started = λ z. ne (z ∙ sym h) in (q, q, λ z. z))
  Local-Inv at next p e (started_before h) =
      moved_from at next p e (λ h. cc) (λ b ne. refl) (λ l. absurd l)
        (λ k. (h, elim k.0 [ inl x ↦ absurd (h x) | inr y ↦ y ], k.1))
  Local-Inv at next p e resume_returns =
      moved_from at next p e (λ h. cc) (λ b ne. refl) (λ l. absurd l) (λ k. (k, k, λ z. z))
  Local-Inv at next p e (already_completed h) =
      moved_from at next p e (λ h. cc) (λ b ne. refl) (λ l. absurd l) (λ k. k.2 h)
  Local-Inv at next p e (link {old} h) =
      moved_from at next p e (λ h. cc) (λ b ne. ground (arith, ne)) (λ l. absurd l)
        (λ k. (k.0, h, k.1, ground arith))
  Local-Inv at next p e push_fails =
      moved_from at next p e (λ h. cc) (λ b ne. refl) (λ l. absurd l) (λ k. (k.2, k.2, λ z. z))
  Local-Inv at next p e leave =
      moved_from at next p e (λ h. cc) (λ b ne. refl) (λ l. (tt, refl)) (λ k. k)
