-- ===== src/When/Some.antt =====
-- `some`: the coroutine gets the first `min_complete` results.
use native.Mathlib.Decide.{dec_lt}
use co_context.Prelude.{
  ℕ, zero, suc, ◌+◌, ◌-◌, ◌^◌, ◌%◌, ◌≤◌, ◌<◌, ◌≡◌, refl, sym, ap, ◌∙◌, List, [], ◌∷◌, ◌++◌, Bool,
  true, false, none, some, if◌then◌else◌, inl, inr, arith, length, ◌==◌, ◌⊎◌, map, reverse, take,
  replicate, set, get_or, ltb, leb, reverse-cons, length-reverse, append_assoc,
}
use co_context.When.{
  IndexValue, SomeMeta, some_meta, some_is_cancelled, some_preempt, some_evaluate_to, is_void_at,
  no_value,
}
use co_context.When.Start.{TaskPc, ended, gave_up, Run, Run-Kept, after, all_ended, length-Run}

module _ {A : Type 0} where
  set-append : (xs ys : List A) (y v : A) → set (xs ++ y ∷ ys) (length xs) v ≡ xs ++ v ∷ ys
  set-append [] ys y v = refl
  set-append (x ∷ xs) ys y v = ap (λ l. x ∷ l) (set-append xs ys y v)

  get_or-append : (xs ys : List A) (y d : A) → get_or (xs ++ y ∷ ys) (length xs) d ≡ y
  get_or-append [] ys y d = refl
  get_or-append (x ∷ xs) ys y d = get_or-append xs ys y d

  take_all : (n : ℕ) (xs : List A) → length xs ≤ n → take n xs ≡ xs
  take_all zero [] h = refl
  take_all zero (x ∷ xs) h = absurd (omega (arith, h))
  take_all (suc n) [] h = refl
  take_all (suc n) (x ∷ xs) h = ap (λ l. x ∷ l) (take_all n xs (omega (arith, h)))

  take-append : (n : ℕ) (xs ys : List A) → n ≤ length xs → take n (xs ++ ys) ≡ take n xs
  take-append zero xs ys h = refl
  take-append (suc n) [] ys h = absurd (omega (arith, h))
  take-append (suc n) (x ∷ xs) ys h = ap (λ l. x ∷ l) (take-append n xs ys (omega (arith, h)))

spawn_now :
    (i min_complete : ℕ)
    → i < min_complete
    → ◌≡◌ {A = ℕ}
        (if i + 1 == min_complete then 1 else 0)
        (if leb min_complete (suc i) then 1 else 0)
spawn_now i min_complete lt = ground (arith, lt)

module _ {A V : Type 0} (is_same : A → A → Bool) (void : A) (ts : List A) (min_complete : ℕ) where
  abbrev pub entry : ℕ × V → IndexValue V
  entry e = record {
    index = e.0;
    value = if is_void_at is_same void ts e.0 then none else some e.1;
  }

  -- The entries of those that have ended, the earliest first.
  abbrev pub in_order : List (ℕ × V) → List (IndexValue V)
  in_order es = reverse (map entry es)

  -- What `some` promises when these tasks have ended, the latest first.
  abbrev pub promised : List (ℕ × V) → SomeMeta V
  promised es = record {
    buffer = take min_complete (in_order es) ++ replicate (min_complete - length es) no_value;
    idx = length es;
    min_complete = min_complete;
    spawned = if leb min_complete (length es) then 1 else 0;
  }

  abbrev pub SomeRun : List (ℕ × V) → SomeMeta V → (ℕ → TaskPc) → Type 0
  SomeRun =
      Run (some_meta min_complete) (some_is_cancelled min_complete)
        (some_evaluate_to is_same void ts min_complete) (length ts)

  abbrev ends_after : List (ℕ × V) → SomeMeta V
  ends_after =
      after (some_meta min_complete) (some_is_cancelled min_complete)
        (some_evaluate_to is_same void ts min_complete) (length ts)

  length-in_order : (es : List (ℕ × V)) → length (in_order es) ≡ length es
  length-in_order es = length-reverse (map entry es) ∙ length_map es
    where
      length_map : (es : List (ℕ × V)) → length (map entry es) ≡ length es
      length_map [] = refl
      length_map (e ∷ es) = ap suc (length_map es)

  filled : List (IndexValue V) → List (IndexValue V) → ℕ → ℕ → SomeMeta V
  filled xs ys i n = record { buffer = xs ++ ys; idx = i; min_complete = min_complete; spawned = n }

  -- A task of rank below `min_complete` writes its entry.
  evaluate_first :
      (e : ℕ × V) (xs ys : List (IndexValue V)) (i : ℕ)
      → i ≡ length xs
      → i < min_complete
      → i + 1 < 2 ^ 32
      → some_evaluate_to is_same void ts min_complete e.0 e.1 (filled xs (no_value ∷ ys) i 0)
        ≡ filled (xs ++ entry e ∷ []) ys (suc i) (if leb min_complete (suc i) then 1 else 0)
  unfolding some_evaluate_to some_preempt filled
  evaluate_first e xs ys i here lt short =
      let first : ltb i min_complete ≡ true = ground (arith, lt) in
      let wrap : (i + 1) % 2 ^ 32 ≡ suc i = ground (arith, short) in
      rw
        (
          first,
          wrap,
          here,
          get_or-append xs ys no_value no_value,
          append_assoc xs (entry e ∷ []) ys,
        )
        (rw
          (set-append xs ys no_value (entry e), spawn_now (length xs) min_complete (rw here at lt)))

  evaluate_late :
      (e : ℕ × V) (xs : List (IndexValue V)) (i n : ℕ)
      → min_complete ≤ i
      → i + 1 < 2 ^ 32
      → some_evaluate_to is_same void ts min_complete e.0 e.1 (filled xs [] i n)
        ≡ filled xs [] (suc i) n
  unfolding some_evaluate_to some_preempt filled
  evaluate_late e xs i n le short =
      let late : ltb i min_complete ≡ false = ground (arith, le) in
      let wrap : (i + 1) % 2 ^ 32 ≡ suc i = ground (arith, short) in rw (late, wrap)

  in_order-cons : (e : ℕ × V) (es : List (ℕ × V)) → in_order (e ∷ es) ≡ in_order es ++ entry e ∷ []
  in_order-cons e es = reverse-cons (entry e) (map entry es)

  -- The same with the length of the rest of the buffer.
  promised_form :
      (es : List (ℕ × V)) (d : ℕ)
      → length es + d ≡ min_complete
      → promised es
        ≡ filled
            (in_order es)
            (replicate d no_value)
            (length es)
            (if leb min_complete (length es) then 1 else 0)
  unfolding filled
  promised_form es d h =
      let all = take_all min_complete (in_order es) (omega (arith, length-in_order es, h)) in
      let left : min_complete - length es ≡ d = omega (arith, h) in rw (all, left)

  after-first :
      (e : ℕ × V) (es : List (ℕ × V)) (d : ℕ)
      → length es + suc d ≡ min_complete
      → length es + 1 < 2 ^ 32
      → some_evaluate_to is_same void ts min_complete e.0 e.1 (promised es) ≡ promised (e ∷ es)
  after-first e es d h short =
      let early : leb min_complete (length es) ≡ false = ground (arith, h) in
      let step =
        evaluate_first e (in_order es) (replicate d no_value) (length es) (sym (length-in_order es))
          (omega (arith, h)) short in
      ap (some_evaluate_to is_same void ts min_complete e.0 e.1) (
        promised_form es (suc d) h
        ∙ ap
            (λ b.
              filled (in_order es) (replicate (suc d) no_value) (length es) (if b then 1 else 0))
            early)
      ∙ step
      ∙ ap
          (λ l.
            filled l (replicate d no_value) (suc (length es))
              (if leb min_complete (suc (length es)) then 1 else 0))
          (sym (in_order-cons e es))
      ∙ sym (promised_form (e ∷ es) d (omega (arith, h)))

  -- The same when all entries are written.
  promised_full :
      (es : List (ℕ × V))
      → min_complete ≤ length es
      → promised es ≡ filled (take min_complete (in_order es)) [] (length es) 1
  unfolding filled
  promised_full es h =
      let full : min_complete - length es ≡ 0 = omega (arith, h) in
      let over : leb min_complete (length es) ≡ true = ground (arith, h) in rw (full, over)

  after-late :
      (e : ℕ × V) (es : List (ℕ × V))
      → min_complete ≤ length es
      → length es + 1 < 2 ^ 32
      → some_evaluate_to is_same void ts min_complete e.0 e.1 (promised es) ≡ promised (e ∷ es)
  after-late e es h short =
      let same =
        take-append min_complete (in_order es) (entry e ∷ [])
          (omega (arith, h, length-in_order es)) in
      ap (some_evaluate_to is_same void ts min_complete e.0 e.1) (promised_full es h)
      ∙ evaluate_late e (take min_complete (in_order es)) (length es) 1 h short
      ∙ ap (λ l. filled l [] (suc (length es)) 1)
          (sym (ap (take min_complete) (in_order-cons e es) ∙ same))
      ∙ sym (promised_full (e ∷ es) (omega (arith, h)))

  after-promised :
      (es : List (ℕ × V)) → 1 ≤ min_complete → length es < 2 ^ 32 → ends_after es ≡ promised es
  unfolding some_meta filled
  after-promised [] ge h =
      let early : leb min_complete 0 ≡ false = ground (arith, ge) in
      sym (
        promised_form [] min_complete (omega arith)
        ∙ ap (λ b. filled [] (replicate min_complete no_value) 0 (if b then 1 else 0)) early)
  after-promised (e ∷ es) ge h =
      let short : length es + 1 < 2 ^ 32 = omega (arith, h) in
      ap (some_evaluate_to is_same void ts min_complete e.0 e.1)
        (after-promised es ge (omega (arith, h)))
      ∙ elim (dec_lt (length es) min_complete) [
        | yes lt ↦ after-first e es (min_complete - suc (length es)) (omega (arith, lt)) short
        | no ge ↦ after-late e es (omega (arith, ge)) short
      ]

  -- Whatever the tasks did in whatever order, `some` holds the positions and values of the first
  -- `min_complete` that ended, in the order in which they ended, and the coroutine was spawned once
  -- if as many have ended, and otherwise not.
  pub some_lem :
      {es : List (ℕ × V)} {m : SomeMeta V} {pc : ℕ → TaskPc}
      → 1 ≤ min_complete
      → length ts < 2 ^ 32
      → SomeRun es m pc
      → m ≡ promised es
  some_lem {es} ge short r =
      let k =
        Run-Kept (some_meta min_complete) (some_is_cancelled min_complete)
          (some_evaluate_to is_same void ts min_complete) (length ts) r in
      let le =
        length-Run (some_meta min_complete) (some_is_cancelled min_complete)
          (some_evaluate_to is_same void ts min_complete) (length ts) r in
      k.shared ∙ after-promised es ge (omega (arith, le, short))

  cancelled_after :
      (fs : List (ℕ × V))
      → 1 ≤ min_complete
      → length fs < 2 ^ 32
      → some_is_cancelled min_complete (ends_after fs) ≡ true
      → min_complete ≤ length fs
  unfolding some_is_cancelled
  cancelled_after fs ge h c =
      let e = ap (λ m. m.idx) (after-promised fs ge h) in ground (arith, c, e)

  -- When every task of `some` has ended or given up, the coroutine was spawned, if `min_complete` is
  -- at most the number of tasks.
  pub some_wakes :
      {es : List (ℕ × V)} {m : SomeMeta V} {pc : ℕ → TaskPc}
      → 1 ≤ min_complete
      → min_complete ≤ length ts
      → length ts < 2 ^ 32
      → SomeRun es m pc
      → ((i : ℕ) → i < length ts → (pc i ≡ ended) ⊎ (pc i ≡ gave_up))
      → m.spawned ≡ 1
  some_wakes {es} ge few short r over =
      let le =
        length-Run (some_meta min_complete) (some_is_cancelled min_complete)
          (some_evaluate_to is_same void ts min_complete) (length ts) r in
      let enough : min_complete ≤ length es =
        elim (all_ended (some_meta min_complete) (some_is_cancelled min_complete)
          (some_evaluate_to is_same void ts min_complete) (length ts) r over) [
            | inl all ↦ omega (arith, all, few)
            | inr (fs, fewer, c) ↦
                omega (arith, fewer, cancelled_after fs ge (omega (arith, fewer, le, short)) c)
          ] in
      ap (λ a. a.spawned) (some_lem ge short r) ∙ ground (arith, enough)
