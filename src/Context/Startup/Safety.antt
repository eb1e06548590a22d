-- ===== src/Context/Startup/Safety.antt =====
-- Who waits for whom when contexts start, in every reachable state.
use co_context.Prelude.{
  ℕ, ◌^◌, ◌≤◌, ◌<◌, ◌≡◌, ◌≢◌, ◌↔◌, refl, true, List, [], ◌∷◌, arith, length, Listed, inl, inr, ◌==◌,
  Bool-cases,
}
use co_context.Context.Startup.{
  created, sleeping, passed, System, checked, Step, constructs, starts, notifies_all, wakes, tests,
  times_out, ends, nothing, Reach, here, later,
}
use co_context.Context.Startup.Invariant.{Inv, Step-Inv}

nothing-Inv : Inv nothing
nothing-Inv = record {
  waiting = [];
  ready = [];
  waits = record { lists = λ b e. cc; waits = λ b l. absurd l; distinct = tt };
  readies = record { lists = λ b e. cc; waits = λ b l. absurd l; distinct = tt };
  all_counted = refl;
  ready_counted = refl;
  few = omega arith;
  attended = λ e. inr (λ j z. cc);
}

made_grows : {s t : System} → Step s t → s.made ≤ t.made
made_grows (constructs i h) = omega arith
made_grows (starts i h) = omega arith
made_grows (notifies_all i h) = omega arith
made_grows (wakes i h) = omega arith
made_grows (tests i h) = omega arith
made_grows (times_out i h ne) = omega arith
made_grows (ends i h) = omega arith

Reach-Inv : {s : System} → Reach s → s.made < 2 ^ 8 → Inv s
Reach-Inv here small = nothing-Inv
Reach-Inv (later r step) small =
    Step-Inv step small (Reach-Inv r (omega (arith, made_grows step, small)))

nobody :
    (P : ℕ → Type 0) (xs : List ℕ)
    → ((b : ℕ) → Listed b xs → P b → ⊥)
    → ((b : ℕ) → Listed b xs → P b)
    → length xs ≡ 0
nobody P [] n h = refl
nobody P (x ∷ xs) n h = absurd (n x (inl refl) (h x (inl refl)))

unlisted : (xs : List ℕ) (b : ℕ) → length xs ≡ 0 → Listed b xs → ⊥
unlisted [] b e l = l
unlisted (x ∷ xs) b e l = omega (arith, e)

module _ {s : System} (r : Reach s) (small : s.made < 2 ^ 8) where
  all_started : ((j : ℕ) → s.pc j ≢ created) → s.create_count ≡ s.ready_count
  all_started h =
      let v = Reach-Inv r small in
      let none_left : length v.waiting ≡ 0 =
        nobody (λ b. s.pc b ≡ created) v.waiting (λ b l. h b) v.waits.waits in
      omega (arith, none_left, v.all_counted, v.ready_counted)

  -- As long as fewer than 256 contexts were ever made: the condition that a starting context waits
  -- for holds exactly when every context that was made has been started.
  pub checked_iff : (checked s ≡ passed) ↔ ((j : ℕ) → s.pc j ≢ created)
  checked_iff =
      let v = Reach-Inv r small in
      (
        (λ e j h. unlisted v.waiting j (none_left v e) (v.waits.lists j h)),
        (λ h.
            let same : (s.create_count == s.ready_count) ≡ true = ground (arith, all_started h) in
            rw same refl),
      )
    where
      none_left : (v : Inv s) → checked s ≡ passed → length v.waiting ≡ 0
      none_left v e = elim (Bool-cases (s.create_count == s.ready_count)) [
        | inl same ↦
            let equal : s.create_count ≡ s.ready_count = ground (arith, same) in
            omega (arith, v.all_counted, v.ready_counted, equal)
        | inr other ↦ absurd (cc (rw other at e))
      ]

  -- As long as fewer than 256 contexts were ever made: when every context that was made has been
  -- started, and no context stands before its notification, none sleeps: no notification is lost.
  pub no_sleeper :
      ((j : ℕ) → s.pc j ≢ created) → ((j : ℕ) → s.pc j ≢ passed) → (i : ℕ) → s.pc i ≢ sleeping
  no_sleeper h n i e = elim ((Reach-Inv r small).attended (all_started h)) [
    | inl (j, at) ↦ n j at
    | inr none_sleeps ↦ none_sleeps i e
  ]
