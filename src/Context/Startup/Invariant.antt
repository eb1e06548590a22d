-- ===== src/Context/Startup/Invariant.antt =====
-- The counts are the numbers of contexts, and whoever sleeps while all are ready will be notified.
use native.Mathlib.Decide.{ℕ_discrete}
use co_context.Prelude.{
  ℕ, suc, ◌+◌, ◌^◌, ◌≤◌, ◌<◌, ◌≡◌, ◌≢◌, ◌↔◌, refl, sym, ◌∙◌, Bool, true, false, List, ◌∷◌, arith,
  length, Fresh, ◌⊎◌, inl, inr, ◌==◌, Bool-cases,
}
use co_context.Prelude.Counting.{take_out}
use co_context.Prelude.Names.{
  Names, update, update-own, update-other, absent, Names-stay, Names-keep, Names-enter, Names-leave,
  Names-same,
}
use co_context.Context.Startup.{
  Pc, unmade, created, sleeping, awake, passed, running, terminated, ended, System, checked,
  notified, constructed, started, notifies, deinited, Step, constructs, starts, notifies_all, wakes,
  tests, times_out, ends, readied,
}

-- Counted as ready.
abbrev pub counts : Pc → Bool
counts sleeping = true
counts awake = true
counts passed = true
counts running = true
counts terminated = true
counts _ = false

abbrev pub Attended : (ℕ → Pc) → Type 0
Attended pc = ((j : ℕ) × (pc j ≡ passed)) ⊎ ((j : ℕ) → pc j ≢ sleeping)

pub record Inv (s : System) : Type 0 where
  pub waiting : List ℕ
  pub ready : List ℕ
  pub waits : Names (λ p. p ≡ created) s.pc waiting
  pub readies : Names (λ p. counts p ≡ true) s.pc ready
  pub all_counted : s.create_count ≡ length waiting + length ready
  pub ready_counted : s.ready_count ≡ length ready
  pub few : length waiting + length ready ≤ s.made
  pub attended : s.create_count ≡ s.ready_count → Attended s.pc

checked-counts : (s : System) → (checked s ≢ created) × (counts (checked s) ≡ true)
checked-counts s = elim (Bool-cases (s.create_count == s.ready_count)) [
  | inl e ↦ ((λ z. cc (rw e at z)), rw e refl)
  | inr e ↦ ((λ z. cc (rw e at z)), rw e refl)
]

checked-passed : (s : System) → s.create_count ≡ s.ready_count → checked s ≡ passed
checked-passed s e =
    let same : (s.create_count == s.ready_count) ≡ true = ground arith in rw same refl

module _ {s : System} (v : Inv s) (i : ℕ) where
  -- A context that does not go to sleep, and did not stand before the notification.
  moved : (p : Pc) → s.pc i ≢ passed → p ≢ sleeping → Attended s.pc → Attended (update s.pc i p)
  moved p h up (inl (j, e)) = inl (j, update-other s.pc i p j (λ z. h (rw (← z) e)) ∙ e)
  moved p h up (inr n) = inr (λ j e. elim (ℕ_discrete j i) [
    | yes z ↦ up (sym (update-own s.pc i p j z) ∙ e)
    | no ne ↦ n j (sym (update-other s.pc i p j ne) ∙ e)
  ])

  -- A move between two places that are counted as ready.
  stays :
      (p : Pc)
      → counts (s.pc i) ≡ true
      → counts p ≡ true
      → (s.create_count ≡ s.ready_count → Attended (update s.pc i p))
      → Inv (record s { pc = update s.pc i p })
  stays p h h' a = record {
    waiting = v.waiting;
    ready = v.ready;
    waits = Names-stay (λ q. q ≡ created) v.waits i p (λ e. cc) (λ e. cc);
    readies = Names-keep (λ q. counts q ≡ true) v.readies i p h h';
    all_counted = v.all_counted;
    ready_counted = v.ready_counted;
    few = v.few;
    attended = a;
  }

  constructed-Inv : s.pc i ≡ unmade → suc s.made < 2 ^ 8 → Inv (constructed s i)
  constructed-Inv h small = record {
    waiting = i ∷ v.waiting;
    ready = v.ready;
    waits =
        Names-enter (λ q. q ≡ created) v.waits i created (i ∷ v.waiting) refl (inl refl)
          (λ b l. inr l) (λ b ne l. elim l [ inl e ↦ absurd (ne (sym e)) | inr k ↦ k ])
          (fresh, v.waits.distinct);
    readies = Names-stay (λ q. counts q ≡ true) v.readies i created (λ e. cc) (λ e. cc);
    all_counted = counted;
    ready_counted = v.ready_counted;
    few = omega (arith, v.few);
    attended = λ e. absurd (omega (arith, e, counted, v.ready_counted));
  }
    where
      fresh : Fresh i v.waiting
      fresh = absent (λ q. q ≡ created) v.waits i (λ e. cc)

      counted : (constructed s i).create_count ≡ suc (length v.waiting) + length v.ready
      counted = omega (arith, v.all_counted, v.few, small)

  started-Inv : s.pc i ≡ created → s.made < 2 ^ 8 → Inv (started s i)
  started-Inv h small =
      let (apart, inside) = checked-counts (readied s) in
      let w = take_out i v.waiting (v.waits.lists i h) in
      let (distinct, gone) = w.distinct v.waits.distinct in
      record {
        waiting = w.rest;
        ready = i ∷ v.ready;
        waits =
            Names-leave (λ q. q ≡ created) v.waits i (checked (readied s)) w.rest apart w.kept
              w.within gone distinct;
        readies =
            Names-enter (λ q. counts q ≡ true) v.readies i (checked (readied s)) (i ∷ v.ready)
              inside (inl refl) (λ b l. inr l)
              (λ b ne l. elim l [ inl e ↦ absurd (ne (sym e)) | inr k ↦ k ])
              (absent (λ q. counts q ≡ true) v.readies i (λ e. cc), v.readies.distinct);
        all_counted = omega (arith, v.all_counted, w.shorter);
        ready_counted = omega (arith, v.ready_counted, v.few, w.shorter, small);
        few = omega (arith, v.few, w.shorter);
        attended = λ e.
            inl (i, update-own s.pc i (checked (readied s)) i refl ∙ checked-passed (readied s) e);
      }

  deinited-Inv : s.pc i ≡ running → s.made < 2 ^ 8 → Inv (deinited s i)
  deinited-Inv h small =
      let w = take_out i v.ready (v.readies.lists i (rw h refl)) in
      let (distinct, gone) = w.distinct v.readies.distinct in
      record {
        waiting = v.waiting;
        ready = w.rest;
        waits = Names-stay (λ q. q ≡ created) v.waits i ended (λ e. cc) (λ e. cc);
        readies =
            Names-leave (λ q. counts q ≡ true) v.readies i ended w.rest (λ e. cc) w.kept w.within
              gone distinct;
        all_counted = omega (arith, v.all_counted, v.few, w.shorter, small);
        ready_counted = omega (arith, v.ready_counted, v.few, w.shorter, small);
        few = omega (arith, v.few, w.shorter);
        attended = λ e.
            moved ended (λ z. cc) (λ z. cc)
              (v.attended
                (omega (arith, e, v.all_counted, v.ready_counted, v.few, w.shorter, small)));
      }

notified-created : (p : Pc) → (notified p ≡ created) ↔ (p ≡ created)
notified-created unmade = ((λ e. e), (λ e. e))
notified-created created = ((λ e. e), (λ e. e))
notified-created sleeping = ((λ e. cc), (λ e. cc))
notified-created awake = ((λ e. e), (λ e. e))
notified-created passed = ((λ e. e), (λ e. e))
notified-created running = ((λ e. e), (λ e. e))
notified-created terminated = ((λ e. e), (λ e. e))
notified-created ended = ((λ e. e), (λ e. e))

notified-counts : (p : Pc) → counts (notified p) ≡ counts p
notified-counts unmade = refl
notified-counts created = refl
notified-counts sleeping = refl
notified-counts awake = refl
notified-counts passed = refl
notified-counts running = refl
notified-counts terminated = refl
notified-counts ended = refl

not-notified-sleeping : (p : Pc) → notified p ≢ sleeping
not-notified-sleeping unmade e = cc
not-notified-sleeping created e = cc
not-notified-sleeping sleeping e = cc
not-notified-sleeping awake e = cc
not-notified-sleeping passed e = cc
not-notified-sleeping running e = cc
not-notified-sleeping terminated e = cc
not-notified-sleeping ended e = cc

-- The notification wakes everybody.
notifies-Inv : {s : System} → Inv s → (i : ℕ) → s.pc i ≡ passed → Inv (notifies s i)
notifies-Inv {s} v i h =
    let woken : Names (λ q. q ≡ created) (λ b. notified (s.pc b)) v.waiting =
      Names-same (λ q. q ≡ created) v.waits (λ b e. (notified-created (s.pc b)).1 e)
        (λ b e. (notified-created (s.pc b)).0 e) in
    let woken' : Names (λ q. counts q ≡ true) (λ b. notified (s.pc b)) v.ready =
      Names-same (λ q. counts q ≡ true) v.readies (λ b e. notified-counts (s.pc b) ∙ e)
        (λ b e. sym (notified-counts (s.pc b)) ∙ e) in
    record {
      waiting = v.waiting;
      ready = v.ready;
      waits = Names-stay (λ q. q ≡ created) woken i running (λ e. cc (rw h at e)) (λ e. cc);
      readies = Names-keep (λ q. counts q ≡ true) woken' i running (rw h refl) refl;
      all_counted = v.all_counted;
      ready_counted = v.ready_counted;
      few = v.few;
      attended = λ e. inr (λ j z. elim (ℕ_discrete j i) [
        | yes y ↦ cc (update-own (λ b. notified (s.pc b)) i running j y, z)
        | no ne ↦
            not-notified-sleeping (s.pc j)
              (sym (update-other (λ b. notified (s.pc b)) i running j ne) ∙ z)
      ]);
    }

pub Step-Inv : {s t : System} → Step s t → t.made < 2 ^ 8 → Inv s → Inv t
Step-Inv (constructs i h) small v = constructed-Inv v i h small
Step-Inv (starts i h) small v = started-Inv v i h small
Step-Inv (notifies_all i h) small v = notifies-Inv v i h
Step-Inv (wakes i h) small v =
    stays v i awake (rw h refl) refl (λ e. moved v i awake (λ z. cc) (λ z. cc) (v.attended e))
Step-Inv {s} (tests i h) small v =
    stays v i (checked s) (rw h refl) (checked-counts s).1
      (λ e. inl (i, update-own s.pc i (checked s) i refl ∙ checked-passed s e))
Step-Inv (times_out i h ne) small v = stays v i terminated (rw h refl) refl (λ e. absurd (ne e))
Step-Inv (ends i h) small v = deinited-Inv v i h small
