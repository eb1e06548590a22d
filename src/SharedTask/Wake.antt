-- ===== src/SharedTask/Wake.antt =====
-- The loop of `final_awaiter` ends, and everyone who waited is resumed.
use mathlib.Core.Path.{subst}
use co_context.Prelude.{◌≡◌, ◌≢◌, refl, sym, ◌∙◌, List, [], ◌∷◌, arith, Listed, inl, inr}
use co_context.Awaiters.{Ptr, Links, Chain}
use co_context.SharedTask.{
  value_ready, suspended, goes_on, Task, waking, spawned, finished, System, update, at_waiter,
  unstarted, running, read_freed, gone, Pc, spawns, advances, Reach, later,
}
use co_context.SharedTask.Invariant.{Heads}
use co_context.SharedTask.Preserved.{Reach-Inv, at_pc}

-- A run of the loop of `final_awaiter`, in which nobody else moves: its steps are `spawns` and
-- `advances`.
pub data Loop : System → System → Type 0 where
  ends : {s : System} → s.task ≡ finished → Loop s s
  spawn_turn :
      {s t : System} {p : Ptr}
      → s.task ≡ waking p
      → Loop (record s { task = spawned p; pc = update s.pc p goes_on }) t
      → Loop s t
  advance_turn :
      {s t : System} {p : Ptr}
      → s.task ≡ spawned p
      → s.pc p ≢ gone
      → Loop (record s { task = at_waiter (s.next p) }) t
      → Loop s t

Loop-Reach : {next : Links} {s t : System} → Reach next s → Loop s t → Reach next t
Loop-Reach r (ends e) = r
Loop-Reach r (spawn_turn e l) = Loop-Reach (later r (spawns e)) l
Loop-Reach r (advance_turn e there l) = Loop-Reach (later r (advances e there)) l

-- The loop runs from `s` to an end at which these coroutines go on.
abbrev Resumes : System → List Ptr → Type 0
Resumes s xs =
    (t : System) × Loop s t
    × (t.task ≡ finished)
    × ((a : Ptr) → Listed a xs → t.pc a ≡ goes_on)
    × ((a : Ptr) → s.pc a ≡ goes_on → t.pc a ≡ goes_on)

loop_Resumes :
    (xs : List Ptr) (s : System) (p : Ptr) → s.task ≡ at_waiter p → Chain s.next p xs → Resumes s xs
loop_Resumes [] s p e c =
    let done : s.task ≡ finished = e ∙ ground (arith, c) in
    (s, ends done, done, (λ a l. absurd l), (λ a g. g))
loop_Resumes (x ∷ xs) s p e c =
    let pc' = update s.pc x goes_on in
    let (t, loop, done, on, kept) =
      loop_Resumes xs (record s { task = at_waiter (s.next x); pc = pc' }) (s.next x) refl c.2 in
    let at_x : at_waiter p ≡ waking x = ground (arith, c.0, c.1) in
    let now : update s.pc x goes_on x ≡ goes_on = ground arith in
    (
      t,
      spawn_turn (e ∙ at_x) (advance_turn refl (λ z. cc) loop),
      done,
      (λ a l. elim l [ inl z ↦ subst (λ b. t.pc b ≡ goes_on) z (kept x now) | inr z ↦ on a z ]),
      (λ a g. kept a (ground (arith, g))),
    )

-- The loop stands at no waiter that is destroyed, and has read none.
abbrev pub IsIntact : Task → (Ptr → Pc) → Type 0
IsIntact (spawned p) pc = pc p ≢ gone
IsIntact read_freed pc = ⊥
IsIntact _ pc = Unit {0}

task_Resumes :
    (u : Task) (xs : List Ptr) (s : System)
    → s.task ≡ u
    → s.waiters ≡ value_ready
    → IsIntact u s.pc
    → Heads u s.waiters s.starts s.next s.pc xs
    → Resumes s xs
task_Resumes unstarted xs s e w i h = absurd (omega (arith, w, h.1))
task_Resumes running xs s e w i h = absurd (h.2 w)
task_Resumes (waking p) xs s e w i h =
    let at_p : at_waiter p ≡ waking p = ground (arith, h.2) in
    loop_Resumes xs s p (e ∙ sym at_p) h.3
task_Resumes (spawned p) xs s e w i h =
    let (t, loop, done, on, kept) =
      loop_Resumes xs (record s { task = at_waiter (s.next p) }) (s.next p) refl h.3 in
    (t, advance_turn e i loop, done, on, kept)
task_Resumes read_freed xs s e w i h = absurd i
task_Resumes finished xs s e w i h =
    (s, ends e, e, (λ a l. absurd (subst (Listed a) h.2 l)), (λ a g. g))

-- From every reachable state in which the value is ready, and in which the loop of `final_awaiter`
-- neither stands at a waiter that is destroyed nor has read one, the loop ends by its own steps, in a
-- reachable state in which every coroutine that was suspended goes on.
pub resumes_all :
    {next : Links} {s : System}
    → Reach next s
    → s.waiters ≡ value_ready
    → IsIntact s.task s.pc
    → (t : System) × Loop s t
      × Reach next t
      × (t.task ≡ finished)
      × ((a : Ptr) → s.pc a ≡ suspended → t.pc a ≡ goes_on)
resumes_all {next} {s} r w i =
    let v = Reach-Inv r in
    let (t, loop, done, on, kept) = task_Resumes s.task v.waiting s refl w i v.heads in
    (t, loop, Loop-Reach r loop, done, (λ a e. on a (at_pc v a suspended e)))
