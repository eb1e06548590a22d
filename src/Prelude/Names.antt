-- ===== src/Prelude/Names.antt =====
-- Which actors are in a state of some sort, as a list, while one of them changes its state.
use native.Mathlib.Decide.{ℕ_discrete}
use mathlib.Core.Path.{subst}
use Prim.Native.Nat.{ℕ}
use mathlib.Core.Path.{◌≡◌, sym}
use mathlib.Core.Logic.{◌≢◌, inl, inr}
use mathlib.Core.List.{List}
use native.Mathlib.Omega.{arith}
use co_context.Prelude.Tests.{◌==◌, if◌then◌else◌}
use co_context.Prelude.Predicates.{Listed, Fresh, Distinct}
use co_context.Prelude.Counting.{Listed-dec, All-Listed}

abbrev pub update : {S : Type 0} → (ℕ → S) → ℕ → S → ℕ → S
update pc a p b = if b == a then p else pc b

-- The actors in such a state are those of the list, each once.
pub record Names {S : Type 0} (P : S → Type 0) (pc : ℕ → S) (xs : List ℕ) : Type 0 where
  pub lists : (b : ℕ) → P (pc b) → Listed b xs
  pub waits : (b : ℕ) → Listed b xs → P (pc b)
  pub distinct : Distinct xs

pub update-own : {S : Type 0} (pc : ℕ → S) (a : ℕ) (p : S) (b : ℕ) → b ≡ a → update pc a p b ≡ p
update-own pc a p b e = ground (arith, e)

pub update-other :
    {S : Type 0} (pc : ℕ → S) (a : ℕ) (p : S) (b : ℕ) → b ≢ a → update pc a p b ≡ pc b
update-other pc a p b ne = ground (arith, ne)

module _ {S : Type 0} (P : S → Type 0) {pc : ℕ → S} {xs : List ℕ} (v : Names P pc xs) (a : ℕ) where
  pub absent : (P (pc a) → ⊥) → Fresh a xs
  absent n = elim (Listed-dec a xs) [ inl l ↦ absurd (n (v.waits a l)) | inr f ↦ f ]

  -- The actor `a` goes from one place to another, both outside.
  pub Names-stay : (p : S) → (P (pc a) → ⊥) → (P p → ⊥) → Names P (update pc a p) xs
  Names-stay p n n' = record {
    lists = λ b w. elim (ℕ_discrete b a) [
      | yes e ↦ absurd (n' (subst P (update-own pc a p b e) w))
      | no ne ↦ v.lists b (subst P (update-other pc a p b ne) w)
    ];
    waits = λ b l. elim (ℕ_discrete b a) [
      | yes e ↦ absurd (n (v.waits a (subst (λ c. Listed c xs) e l)))
      | no ne ↦ subst P (sym (update-other pc a p b ne)) (v.waits b l)
    ];
    distinct = v.distinct;
  }

  -- Both inside.
  pub Names-keep : (p : S) → P (pc a) → P p → Names P (update pc a p) xs
  Names-keep p h h' = record {
    lists = λ b w. elim (ℕ_discrete b a) [
      | yes e ↦ subst (λ c. Listed c xs) (sym e) (v.lists a h)
      | no ne ↦ v.lists b (subst P (update-other pc a p b ne) w)
    ];
    waits = λ b l. elim (ℕ_discrete b a) [
      | yes e ↦ subst P (sym (update-own pc a p b e)) h'
      | no ne ↦ subst P (sym (update-other pc a p b ne)) (v.waits b l)
    ];
    distinct = v.distinct;
  }

  -- From outside to inside: the new list has `a` and the others.
  pub Names-enter :
      (p : S) (ys : List ℕ)
      → P p
      → Listed a ys
      → ((b : ℕ) → Listed b xs → Listed b ys)
      → ((b : ℕ) → b ≢ a → Listed b ys → Listed b xs)
      → Distinct ys
      → Names P (update pc a p) ys
  Names-enter p ys h here more less d = record {
    lists = λ b w. elim (ℕ_discrete b a) [
      | yes e ↦ subst (λ c. Listed c ys) (sym e) here
      | no ne ↦ more b (v.lists b (subst P (update-other pc a p b ne) w))
    ];
    waits = λ b l. elim (ℕ_discrete b a) [
      | yes e ↦ subst P (sym (update-own pc a p b e)) h
      | no ne ↦ subst P (sym (update-other pc a p b ne)) (v.waits b (less b ne l))
    ];
    distinct = d;
  }

  -- From inside to outside.
  pub Names-leave :
      (p : S) (ys : List ℕ)
      → (P p → ⊥)
      → ((b : ℕ) → b ≢ a → Listed b xs → Listed b ys)
      → ((b : ℕ) → Listed b ys → Listed b xs)
      → Fresh a ys
      → Distinct ys
      → Names P (update pc a p) ys
  Names-leave p ys n more less gone d = record {
    lists = λ b w. elim (ℕ_discrete b a) [
      | yes e ↦ absurd (n (subst P (update-own pc a p b e) w))
      | no ne ↦ more b ne (v.lists b (subst P (update-other pc a p b ne) w))
    ];
    waits = λ b l. elim (ℕ_discrete b a) [
      | yes e ↦ absurd (All-Listed (λ y. y ≢ a) ys gone b l e)
      | no ne ↦ subst P (sym (update-other pc a p b ne)) (v.waits b (less b l))
    ];
    distinct = d;
  }

-- A change that moves nobody in or out.
pub Names-same :
    {S : Type 0} (P : S → Type 0) {pc pc' : ℕ → S} {xs : List ℕ}
    → Names P pc xs
    → ((b : ℕ) → P (pc b) → P (pc' b))
    → ((b : ℕ) → P (pc' b) → P (pc b))
    → Names P pc' xs
Names-same P v into back = record {
  lists = λ b w. v.lists b (back b w);
  waits = λ b l. into b (v.waits b l);
  distinct = v.distinct;
}
