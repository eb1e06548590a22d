-- ===== src/Semaphore/Steps/Releasing.antt =====
-- The steps that release keep the invariant.
use native.Mathlib.Decide.{ℕ_discrete}
use mathlib.Core.Path.{subst}
use co_context.Prelude.{
  ℕ, suc, ◌+◌, ◌^◌, ◌≡◌, refl, sym, ap, ◌∙◌, Option, none, some, true, List, [], ◌∷◌, ◌++◌, arith,
  length, Fresh, Distinct, inl, inr, Bool-cases, Option-cases, reverse, length-reverse, ◌==◌,
  if◌then◌else◌, word_add,
}
use co_context.Awaiters.{Ptr, reverse_loop, reverse_loop_agree}
use co_context.Semaphore.{Semaphore, is_negative, try_release}
use co_context.Semaphore.Order.{Queued, try_release_lem}
use co_context.Semaphore.Steps.{linked, suspended, goes_on, System, left, added}
use co_context.Semaphore.Steps.Numbers.{Balanced-added, negative-lt, not_negative-le}
use co_context.Prelude.Names.{update, update-own, update-other, absent, Names-stay, Names-leave}
use co_context.Semaphore.Steps.Invariant.{joins, Lists, Inv, IsSmall, total, optional, Queued-frame}

module _ {s : System} (v : Inv s) where
  added-Lists : (u : ℕ) → Lists (added s u) v.queue v.joining
  added-Lists u =
      let m : Semaphore = record s.sem { counter = word_add (2 ^ 64) s.sem.counter u } in
      record {
        queued = Queued-frame s.sem m v.queue refl refl refl v.lists.queued;
        suspends = v.lists.suspends;
        joiners = v.lists.joiners;
        links = v.lists.links;
        addresses = v.lists.addresses;
      }

  -- `release` owes as many wakes as it adds, or as many as wait if they are fewer.
  pub added-Inv : (u : ℕ) → IsSmall (added s u) → Inv (added s u)
  added-Inv u (hp, ha) = record {
    queue = v.queue;
    joining = v.joining;
    lists = added-Lists u;
    counts = record {
      balanced = Balanced-added s.sem.counter s.permits s.acquired u v.counts.balanced hp ha;
      through = v.counts.through;
      short = elim (Bool-cases (is_negative s.sem.counter)) [
        | inl below ↦
            let more =
              negative-lt s.sem.counter s.permits s.acquired v.counts.balanced (omega (arith, hp))
                ha below in
            rw below (omega (arith, v.counts.short, v.counts.balanced.2 more, more))
        | inr above ↦
            let enough =
              not_negative-le s.sem.counter s.permits s.acquired v.counts.balanced
                (omega (arith, hp)) ha above in
            rw above (omega (arith, v.counts.short, enough))
      ];
    };
  }

  -- The holder of the mutex is the next of those that wait for it.
  pub locked-Inv :
      (xs : List ℕ) (o : ℕ) (ys : List ℕ)
      → s.pending ≡ xs ++ o ∷ ys
      → s.notifying ≡ none
      → Inv (record s { pending = xs ++ ys; notifying = some o })
  locked-Inv xs o ys e free = record {
    queue = v.queue;
    joining = v.joining;
    lists = record {
      queued = v.lists.queued;
      suspends = v.lists.suspends;
      joiners = v.lists.joiners;
      links = v.lists.links;
      addresses = v.lists.addresses;
    };
    counts = record {
      balanced = v.counts.balanced;
      through = v.counts.through;
      short = omega (arith, v.counts.short, ap total e, ap optional free, total-insert xs o ys);
    };
  }
    where
      total-insert :
          (xs : List ℕ) (o : ℕ) (ys : List ℕ) → total (xs ++ o ∷ ys) ≡ o + total (xs ++ ys)
      total-insert [] o ys = refl
      total-insert (x ∷ xs) o ys = omega (arith, total-insert xs o ys)

-- The fuel does not change what `try_release` gives.
try_release_agree :
    (f g : ℕ) (m : Semaphore) (r t : Option Ptr × Semaphore)
    → try_release f m ≡ some r
    → try_release g m ≡ some t
    → r ≡ t
unfolding try_release
try_release_agree f g m r t p q = elim (Bool-cases (m.to_resume == 0)) [
  | inr there ↦ cc (rw (there, if◌then◌else◌) at p, rw (there, if◌then◌else◌) at q)
  | inl none_left ↦ elim (Bool-cases (m.awaiting == 0)) [
    | inl empty ↦ cc (rw (none_left, empty) at p, rw (none_left, empty) at q)
    | inr more ↦ elim (Option-cases (reverse_loop f m.next m.awaiting m.to_resume)) [
      | inl out ↦ absurd (cc (rw (none_left, more, out) at p))
      | inr (x, run) ↦ elim (Option-cases (reverse_loop g m.next m.awaiting m.to_resume)) [
        | inl out ↦ absurd (cc (rw (none_left, more, out) at q))
        | inr (y, run') ↦
            let same = reverse_loop_agree f g m.next m.awaiting m.to_resume x y run run' in
            cc (rw (none_left, more, run) at p, rw (none_left, more, run') at q, same)
      ]
    ]
  ]
]

both_empty : (xs ys : List Ptr) → [] ≡ xs ++ reverse ys → (xs ≡ []) × (ys ≡ [])
both_empty [] [] e = (refl, refl)
both_empty [] (y ∷ ys) e = absurd (omega (arith, ap length e, length-reverse (y ∷ ys)))
both_empty (x ∷ xs) ys e = absurd (omega (arith, ap length e))

-- With nobody in the lists `try_release` gives no awaiter.
try_release_empty :
    (fuel : ℕ) (m m' : Semaphore) (a : Ptr)
    → Queued m []
    → try_release fuel m ≡ some (some a, m')
    → ⊥
unfolding try_release
try_release_empty fuel m m' a v e =
    let (no_resume, no_stack) = both_empty v.resume v.stack v.order in
    let none_left : (m.to_resume == 0) ≡ true = ground (arith, rw no_resume at (v.chain)) in
    let empty : (m.awaiting == 0) ≡ true = ground (arith, rw no_stack at (v.stack_chain)) in
    cc (rw (none_left, empty) at e)

-- Whatever `try_release` gives is the first of the queue, which it takes out.
abbrev Takes : Semaphore → Semaphore → Ptr → List Ptr → Type 0
Takes m m' a q =
    (rest : List Ptr) × (q ≡ a ∷ rest)
    × Queued m' rest
    × (m'.counter ≡ m.counter)
    × ((b : Ptr) → Fresh b q → m'.next b ≡ m.next b)

try_release-Takes :
    (fuel : ℕ) (m m' : Semaphore) (a : Ptr) (q : List Ptr)
    → Queued m q
    → try_release fuel m ≡ some (some a, m')
    → Takes m m' a q
try_release-Takes fuel m m' a [] v e = absurd (try_release_empty fuel m m' a v e)
try_release-Takes fuel m m' a (x ∷ q) v e =
    let (m'', run, v', same, kept) = try_release_lem (length (x ∷ q)) m x q v (omega arith) in
    let agree = try_release_agree fuel (length (x ∷ q)) m (some a, m') (some x, m'') e run in
    let first : a ≡ x = cc (ap (λ (r : Option Ptr × Semaphore). r.0) agree) in
    let after : m'' ≡ m' = sym (ap (λ (r : Option Ptr × Semaphore). r.1) agree) in
    subst (λ m'. Takes m m' a (x ∷ q)) after (q, ap (λ y. y ∷ q) (sym first), v', same, kept)

module _ {s : System} (v : Inv s) where
  -- The coroutine that is woken goes on.
  pub woken-Inv :
      (fuel o : ℕ) (a : Ptr) {m : Semaphore}
      → s.notifying ≡ some (suc o)
      → try_release fuel s.sem ≡ some (some a, m)
      → Inv (record s {
        sem = m;
        pc = update s.pc a goes_on;
        notifying = left o;
        passed = suc s.passed;
      })
  woken-Inv fuel o a {m} owes run =
      let (rest, split, q, same, kept) =
        try_release-Takes fuel s.sem m a v.queue v.lists.queued run in
      let at : s.pc a ≡ suspended = v.lists.suspends.waits a (rw split (inl refl)) in
      let apart : Distinct (a ∷ rest) = rw split at (v.lists.suspends.distinct) in
      record {
        queue = rest;
        joining = v.joining;
        lists = record {
          queued = q;
          suspends =
              Names-leave (λ c. c ≡ suspended) v.lists.suspends a goes_on rest (λ z. cc)
                (λ b ne l. elim (rw split at l) [ inl z ↦ absurd (ne (sym z)) | inr h ↦ h ])
                (λ b l. rw split (inr l)) apart.0 apart.1;
          joiners = Names-stay (λ c. joins c ≡ true) v.lists.joiners a goes_on (λ z. cc) (λ z. cc);
          links = λ b old e. elim (ℕ_discrete b a) [
            | yes z ↦ absurd (cc (update-own s.pc a goes_on b z, e))
            | no ne ↦
                let here : s.pc b ≡ linked old = sym (update-other s.pc a goes_on b ne) ∙ e in
                kept b (absent (λ c. c ≡ suspended) v.lists.suspends b (λ z. cc))
                ∙ v.lists.links b old here
          ];
          addresses = λ b e. elim (ℕ_discrete b a) [
            | yes z ↦ absurd (cc (update-own s.pc a goes_on b z, e))
            | no ne ↦
                v.lists.addresses b
                  (subst (λ c. joins c ≡ true) (update-other s.pc a goes_on b ne) e)
          ];
        };
        counts = record {
          balanced = rw same (v.counts.balanced);
          through = omega (arith, v.counts.through, ap length split);
          short = omega (arith, v.counts.short, ap length split, ap optional owes, optional-left o);
        };
      }
    where
      optional-left : (o : ℕ) → optional (left o) ≡ o
      optional-left o = ground arith

-- Where `try_release` gives no awaiter, both lists are empty and stay so.
try_release-null :
    (fuel : ℕ) (m m' : Semaphore)
    → try_release fuel m ≡ some (none, m')
    → (m'.awaiting ≡ m.awaiting)
      × (m'.to_resume ≡ m.to_resume)
      × (m'.next ≡ m.next)
      × (m'.counter ≡ m.counter)
unfolding try_release
try_release-null fuel m m' e = elim (Bool-cases (m.to_resume == 0)) [
  | inr there ↦ absurd (cc (rw (there, if◌then◌else◌) at e))
  | inl none_left ↦ elim (Bool-cases (m.awaiting == 0)) [
    | inl empty ↦
        let null : 0 ≡ m.awaiting = ground (arith, empty) in
        let after : record m { awaiting = 0 } ≡ m' = cc (rw (none_left, empty) at e) in
        (
          ap (λ (x : Semaphore). x.awaiting) (sym after) ∙ null,
          ap (λ (x : Semaphore). x.to_resume) (sym after),
          ap (λ (x : Semaphore). x.next) (sym after),
          ap (λ (x : Semaphore). x.counter) (sym after),
        )
    | inr more ↦ elim (Option-cases (reverse_loop fuel m.next m.awaiting m.to_resume)) [
      | inl out ↦ absurd (cc (rw (none_left, more, out) at e))
      | inr (x, run) ↦ absurd (cc (rw (none_left, more, run) at e))
    ]
  ]
]

-- A release that meets a null pointer changes neither the lists nor the counter.
pub null-Inv :
    {s : System} (v : Inv s) (fuel : ℕ) {m : Semaphore}
    → try_release fuel s.sem ≡ some (none, m)
    → Inv (record s { sem = m; faulted = true })
null-Inv {s} v fuel {m} run =
    let (top, head, links, count) = try_release-null fuel s.sem m run in
    record {
      queue = v.queue;
      joining = v.joining;
      lists = record {
        queued = Queued-frame s.sem m v.queue top head links v.lists.queued;
        suspends = v.lists.suspends;
        joiners = v.lists.joiners;
        links = λ b old e. rw links (v.lists.links b old e);
        addresses = v.lists.addresses;
      };
      counts = record {
        balanced = rw count (v.counts.balanced);
        through = v.counts.through;
        short = v.counts.short;
      };
    }
