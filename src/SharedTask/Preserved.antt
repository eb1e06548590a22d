-- ===== src/SharedTask/Preserved.antt =====
-- Every step of a shared task keeps the invariant, so that it holds in every reachable state.
use mathlib.Core.Path.{subst}
use native.Mathlib.Decide.{ℕ_discrete}
use co_context.Prelude.{
  ℕ, ◌≤◌, ◌≡◌, ◌≢◌, refl, sym, ap, ◌∙◌, List, [], ◌∷◌, arith, All, Listed, Distinct, inl, inr, suc,
}
use co_context.Awaiters.{Ptr, Links, Chain, Chain-null, Chain-cons}
use co_context.SharedTask.{
  started_no_waiters, value_ready, not_started, Pc, loaded, starting, linked, suspended, goes_on,
  Task, unstarted, running, waking, spawned, finished, read_freed, System, update, at_waiter, Step,
  moves, starts, pushes, finishes, spawns, advances, reads_freed, Reach, here, later,
}
use co_context.SharedTask.Invariant.{
  Knows, Waits, Left, Heads, Inv, start-Inv, waiting-Fresh, waiting-update, Knows-update,
  Knows-other, Local-Inv,
}

Heads-not_started :
    (t : Task) (w n : ℕ) (next : Links) (pc : Ptr → Pc) (xs : List Ptr)
    → w ≡ not_started
    → Heads t w n next pc xs
    → (n ≡ 0) × (xs ≡ [])
Heads-not_started unstarted w n next pc xs e h = (h.0, h.2)
Heads-not_started running w n next pc xs e h = absurd (h.1 e)
Heads-not_started (waking p) w n next pc xs e h = absurd (omega (arith, e, h.1))
Heads-not_started (spawned p) w n next pc xs e h = absurd (omega (arith, e, h.1))
Heads-not_started finished w n next pc xs e h = absurd (omega (arith, e, h.1))
Heads-not_started read_freed w n next pc xs e h = absurd (omega (arith, e, h.1))

Heads-pushes :
    (t : Task) (w n : ℕ) (next : Links) (pc pc' : Ptr → Pc) (a : Ptr) (xs : List Ptr)
    → 3 ≤ a
    → w ≢ not_started
    → w ≢ value_ready
    → next a ≡ w
    → Heads t w n next pc xs
    → Heads t a n next pc' (a ∷ xs)
Heads-pushes unstarted w n next pc pc' a xs le ns vr e h = absurd (ns h.1)
Heads-pushes running w n next pc pc' a xs le ns vr e h =
    (h.0, omega (arith, le), omega (arith, le), (refl, omega (arith, le), rw e h.3))
Heads-pushes (waking p) w n next pc pc' a xs le ns vr e h = absurd (vr h.1)
Heads-pushes (spawned p) w n next pc pc' a xs le ns vr e h = absurd (vr h.1)
Heads-pushes finished w n next pc pc' a xs le ns vr e h = absurd (vr h.1)
Heads-pushes read_freed w n next pc pc' a xs le ns vr e h = absurd (vr h.1)

-- The loop of `final_awaiter` arrives at `p`.
Heads-at_waiter :
    (p : Ptr) (n : ℕ) (next : Links) (pc : Ptr → Pc) (xs : List Ptr)
    → n ≡ 1
    → Chain next p xs
    → Heads (at_waiter p) value_ready n next pc xs
Heads-at_waiter p n next pc xs e c = elim (ℕ_discrete p 0) [
  | yes z ↦
      let now : at_waiter p ≡ finished = ground arith in
      subst (λ t. Heads t value_ready n next pc xs) (sym now) (e, refl, Chain-null next p xs z c)
  | no nz ↦
      let now : at_waiter p ≡ waking p = ground arith in
      subst (λ t. Heads t value_ready n next pc xs) (sym now) (e, refl, nz, c)
]

module _ {s : System} (v : Inv s) where
  pub at_task : (t : Task) → s.task ≡ t → Heads t s.waiters s.starts s.next s.pc v.waiting
  at_task t e = subst (λ u. Heads u s.waiters s.starts s.next s.pc v.waiting) e v.heads

  pub at_pc : (a : Ptr) (p : Pc) → s.pc a ≡ p → Knows s.waiters s.next v.waiting a p
  at_pc a p e = subst (Knows s.waiters s.next v.waiting a) e (v.knows a)

  starts-Inv :
      (a : Ptr)
      → s.pc a ≡ loaded not_started
      → s.waiters ≡ not_started
      → Inv (record s {
        waiters = started_no_waiters;
        task = running;
        pc = update s.pc a starting;
        starts = suc s.starts;
      })
  starts-Inv a e w =
      let (none_started, no_one) =
        Heads-not_started s.task s.waiters s.starts s.next s.pc v.waiting w v.heads in
      let f = waiting-Fresh s.pc a v.waiting (λ h. cc) v.waits in
      record {
        waiting = v.waiting;
        heads = (
          ap suc none_started,
          (λ h. omega arith),
          (λ h. omega arith),
          subst (Chain s.next 0) (sym no_one) refl,
        );
        waits = waiting-update s.pc a starting v.waiting f v.waits;
        distinct = v.distinct;
        knows =
            Knows-update v a started_no_waiters s.next v.waiting starting (λ h z. omega arith)
              (λ h. omega (arith, h, w)) (λ b ne. refl) (λ b ne l. l) (λ h. omega arith);
      }

  pushes-Inv :
      (a : Ptr) {old : ℕ}
      → 3 ≤ a
      → s.pc a ≡ linked old
      → s.waiters ≡ old
      → Inv (record s { waiters = a; pc = update s.pc a suspended })
  pushes-Inv a {old} le e w =
      let k = at_pc a (linked old) e in
      let vr : s.waiters ≢ value_ready = λ h. k.1 (sym w ∙ h) in
      let f = waiting-Fresh s.pc a v.waiting (λ h. cc) v.waits in
      let now : update s.pc a suspended a ≡ suspended = ground arith in
      record {
        waiting = a ∷ v.waiting;
        heads =
            Heads-pushes s.task s.waiters s.starts s.next s.pc (update s.pc a suspended) a v.waiting
              le k.2 vr (k.3 ∙ sym w) v.heads;
        waits = ((now, le), waiting-update s.pc a suspended v.waiting f v.waits);
        distinct = (f, v.distinct);
        knows =
            Knows-update v a a s.next (a ∷ v.waiting) suspended (λ h z. omega (arith, z, le))
              (λ h. absurd (vr h)) (λ b ne. refl) (λ b ne l. inr l) (inl refl);
      }

  finishes-Inv :
      s.task ≡ running → Inv (record s { waiters = value_ready; task = at_waiter s.waiters })
  finishes-Inv e =
      let h = at_task running e in
      record {
        waiting = v.waiting;
        heads = Heads-at_waiter s.waiters s.starts s.next s.pc v.waiting h.0 h.3;
        waits = v.waits;
        distinct = v.distinct;
        knows = λ b.
            Knows-other s.waiters value_ready s.next s.next v.waiting v.waiting b (s.pc b)
              (λ h z. omega (arith, z)) (λ h. refl) refl (λ l. l) (v.knows b);
      }

  spawns-Inv :
      {p : Ptr}
      → s.task ≡ waking p
      → Inv (record s { task = spawned p; pc = update s.pc p goes_on })
  spawns-Inv {p} e =
      let h = at_task (waking p) e in
      let (rest, split) = Chain-cons s.next p v.waiting h.2 h.3 in
      let c = subst (Chain s.next p) split h.3 in
      let waits = subst (All (Waits s.pc)) split v.waits in
      let distinct = subst Distinct split v.distinct in
      let now : update s.pc p goes_on p ≡ goes_on = ground arith in
      record {
        waiting = rest;
        heads = (h.0, h.1, subst Left (sym now) tt, c.2);
        waits = waiting-update s.pc p goes_on rest distinct.0 waits.1;
        distinct = distinct.1;
        knows =
            Knows-update v p s.waiters s.next rest goes_on (λ z. z) (λ z. z) (λ b ne. refl)
              (λ b ne l. elim (subst (Listed b) split l) [
                | inl z ↦ absurd (ne (sym z))
                | inr z ↦ z
              ])
              h.1;
      }

  advances-Inv : {p : Ptr} → s.task ≡ spawned p → Inv (record s { task = at_waiter (s.next p) })
  advances-Inv {p} e =
      let h = at_task (spawned p) e in
      record {
        waiting = v.waiting;
        heads =
            subst (λ w. Heads (at_waiter (s.next p)) w s.starts s.next s.pc v.waiting) (sym h.1)
              (Heads-at_waiter (s.next p) s.starts s.next s.pc v.waiting h.0 h.3);
        waits = v.waits;
        distinct = v.distinct;
        knows = v.knows;
      }

  reads_freed-Inv : {p : Ptr} → s.task ≡ spawned p → Inv (record s { task = read_freed })
  reads_freed-Inv {p} e =
      let h = at_task (spawned p) e in
      record {
        waiting = v.waiting;
        heads = (h.0, h.1);
        waits = v.waits;
        distinct = v.distinct;
        knows = v.knows;
      }

Step-Inv : {s t : System} → Inv s → Step s t → Inv t
Step-Inv {s} v (moves a {next} {p} alive le mv) = Local-Inv v a (s.pc a) next p refl mv
Step-Inv v (starts a e w) = starts-Inv v a e w
Step-Inv v (pushes a le e w) = pushes-Inv v a le e w
Step-Inv v (finishes e) = finishes-Inv v e
Step-Inv v (spawns e) = spawns-Inv v e
Step-Inv v (advances e there) = advances-Inv v e
Step-Inv v (reads_freed e freed) = reads_freed-Inv v e

pub Reach-Inv : {next : Links} {s : System} → Reach next s → Inv s
Reach-Inv {next} here = start-Inv next
Reach-Inv (later r st) = Step-Inv (Reach-Inv r) st
