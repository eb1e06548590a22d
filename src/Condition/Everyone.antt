-- ===== src/Condition/Everyone.antt =====
-- Who joins the coroutines that wait, and whom `notify_all` wakes.
use mathlib.Core.Path.{subst}
use co_context.Prelude.{
  ℕ, zero, suc, ◌+◌, ◌<◌, ◌≡◌, ◌≢◌, refl, sym, ap, ◌∙◌, some, List, [], ◌∷◌, ◌++◌, reverse,
  reverse-cons, append_assoc, true, false, ◌==◌, arith, length, length-reverse, length-append,
  Fresh,
}
use co_context.Awaiters.{Ptr, Links, set_next, Chain, Chain-set_next}
use co_context.Condition.{Condition, await_suspend, notify_list, both_woken, notify_all}
use co_context.Condition.Notify.{Waiting}

-- A coroutine that starts to wait is to be woken after all the others.
pub await_suspend-Waiting :
    (a : Ptr) (c : Condition) (q : List Ptr) (v : Waiting c q)
    → a ≢ 0
    → Fresh a v.resume
    → Fresh a v.stack
    → Waiting (await_suspend a c) (q ++ a ∷ [])
unfolding await_suspend
await_suspend-Waiting a c q v nz fr fs =
    let own : c.awaiting ≡ set_next c.next a c.awaiting a = ground arith in
    let kept = Chain-set_next c.next a c.awaiting c.awaiting v.stack fs v.stack_chain in
    let linked = subst (λ p. Chain (set_next c.next a c.awaiting) p v.stack) own kept in
    record {
      resume = v.resume;
      stack = a ∷ v.stack;
      order =
          ap (λ l. l ++ a ∷ []) v.order
          ∙ append_assoc v.resume (reverse v.stack) (a ∷ [])
          ∙ ap (λ l. v.resume ++ l) (sym (reverse-cons a v.stack));
      chain = Chain-set_next c.next a c.awaiting c.to_resume_head v.resume fr v.chain;
      stack_chain = (refl, nz, linked);
      distinct = (fs, v.distinct);
    }

notify_list_lem :
    (fuel : ℕ) (next : Links) (head : Ptr) (xs : List Ptr)
    → length xs < fuel
    → Chain next head xs
    → notify_list fuel next head ≡ some xs
unfolding notify_list
notify_list_lem zero next head xs h c = absurd (omega (arith, h))
notify_list_lem (suc fuel) next head [] h c =
    let null : (head == 0) ≡ true = ground (arith, c) in rw null refl
notify_list_lem (suc fuel) next head (x ∷ xs) h c =
    let there : (head == 0) ≡ false = ground (arith, c.0, c.1) in
    rw (there, c.0, notify_list_lem fuel next (next x) xs (omega (arith, h)) c.2) refl

-- With no other thread in between, `notify_all` wakes every coroutine that waits once, those still on
-- the stack first, the latest first, and then the others in their order; nobody is left waiting.
-- More fuel than there are waiting coroutines is enough.
pub notify_all_lem :
    (fuel : ℕ) (c : Condition) (q : List Ptr)
    → Waiting c q
    → length q < fuel
    → (resume stack : List Ptr) × (c' : Condition) × (q ≡ resume ++ reverse stack)
      × (notify_all fuel c ≡ some (stack ++ resume, c'))
      × Waiting c' []
unfolding notify_all
notify_all_lem fuel c q v enough =
    let size : length v.resume + length v.stack ≡ length q = omega (
      arith,
      ap length v.order,
      length-append v.resume (reverse v.stack),
      length-reverse v.stack,
    ) in
    (
      v.resume,
      v.stack,
      record c { awaiting = 0; to_resume_head = 0 },
      v.order,
      ap (λ o. both_woken o (notify_list fuel c.next c.to_resume_head) c)
            (notify_list_lem fuel c.next c.awaiting v.stack (omega (arith, size, enough))
              v.stack_chain)
          ∙ ap (λ o. both_woken (some v.stack) o c)
              (notify_list_lem fuel c.next c.to_resume_head v.resume (omega (arith, size, enough))
                v.chain),
      record {
        resume = [];
        stack = [];
        order = refl;
        chain = refl;
        stack_chain = refl;
        distinct = tt;
      },
    )
