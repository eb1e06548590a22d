-- ===== src/Spin/Exclusion.antt =====
-- The flag is set exactly while one user holds the lock.
use native.Mathlib.Decide.{ℕ_discrete}
use mathlib.Core.Path.{subst}
use co_context.Prelude.{ℕ, Bool, true, false, ◌≡◌, ◌≢◌, refl, sym, ◌∙◌, arith}
use co_context.Spin.{
  Pc, idle, holding, Access, lock, exchanged, exchange_fails, still_occupied, seen_free, try_load,
  try_load_fails, try_exchanged, try_exchange_fails, unlock, System, update, Reach, here, later,
}

-- Nobody holds a free lock, and one user an occupied one.
abbrev pub IsOwned : Bool → (ℕ → Pc) → Type 0
IsOwned false pc = (a : ℕ) → pc a ≢ holding
IsOwned true pc = (owner : ℕ) × (pc owner ≡ holding) × ((a : ℕ) → pc a ≡ holding → a ≡ owner)

module _ (pc : ℕ → Pc) (a : ℕ) where
  own : (p : Pc) → update pc a p a ≡ p
  own p = ground arith

  other : (p : Pc) (b : ℕ) → b ≢ a → update pc a p b ≡ pc b
  other p b ne = ground (arith, ne)

  -- A user that neither held the lock nor gets it.
  passes :
      (o : Bool) (p : Pc) → pc a ≢ holding → p ≢ holding → IsOwned o pc → IsOwned o (update pc a p)
  passes false p out np v = λ b h. elim (ℕ_discrete b a) [
    | yes e ↦ np (sym (own p) ∙ subst (λ c. update pc a p c ≡ holding) e h)
    | no ne ↦ v b (sym (other p b ne) ∙ h)
  ]
  passes true p out np v =
      let apart : v.0 ≢ a = λ e. out (subst (λ c. pc c ≡ holding) e v.1) in
      (
        v.0,
        other p v.0 apart ∙ v.1,
        λ b h. elim (ℕ_discrete b a) [
          | yes e ↦ absurd (np (sym (own p) ∙ subst (λ c. update pc a p c ≡ holding) e h))
          | no ne ↦ v.2 b (sym (other p b ne) ∙ h)
        ],
      )

  gets : IsOwned false pc → IsOwned true (update pc a holding)
  gets v = (
    a,
    own holding,
    λ b h. elim (ℕ_discrete b a) [
      | yes e ↦ e
      | no ne ↦ absurd (v b (sym (other holding b ne) ∙ h))
    ],
  )

  leaves : IsOwned true pc → pc a ≡ holding → IsOwned false (update pc a idle)
  leaves v e = λ b h. elim (ℕ_discrete b a) [
    | yes z ↦
        let clash : idle ≡ holding =
          sym (own idle) ∙ subst (λ c. update pc a idle c ≡ holding) z h in
        cc
    | no ne ↦ ne (v.2 b (sym (other idle b ne) ∙ h) ∙ sym (v.2 a e))
  ]

-- A step from a place that is not `holding` to another such place.
stays_out :
    (o : Bool) (pc : ℕ → Pc) (a : ℕ) (at p : Pc)
    → pc a ≡ at
    → at ≢ holding
    → p ≢ holding
    → IsOwned o pc
    → IsOwned o (update pc a p)
stays_out o pc a at p e out np v = passes pc a o p (λ h. out (sym e ∙ h)) np v

Access-IsOwned :
    (o o' : Bool) (pc : ℕ → Pc) (a : ℕ) (at p : Pc)
    → pc a ≡ at
    → Access o at o' p
    → IsOwned o pc
    → IsOwned o' (update pc a p)
Access-IsOwned o o' pc a at p e lock v = stays_out o pc a at p e (λ h. cc) (λ h. cc) v
Access-IsOwned o o' pc a at p e exchanged v = gets pc a v
Access-IsOwned o o' pc a at p e exchange_fails v = stays_out o pc a at p e (λ h. cc) (λ h. cc) v
Access-IsOwned o o' pc a at p e still_occupied v = stays_out o pc a at p e (λ h. cc) (λ h. cc) v
Access-IsOwned o o' pc a at p e seen_free v = stays_out o pc a at p e (λ h. cc) (λ h. cc) v
Access-IsOwned o o' pc a at p e try_load v = stays_out o pc a at p e (λ h. cc) (λ h. cc) v
Access-IsOwned o o' pc a at p e try_load_fails v = stays_out o pc a at p e (λ h. cc) (λ h. cc) v
Access-IsOwned o o' pc a at p e try_exchanged v = gets pc a v
Access-IsOwned o o' pc a at p e try_exchange_fails v = stays_out o pc a at p e (λ h. cc) (λ h. cc) v
Access-IsOwned true o' pc a at p e unlock v = leaves pc a v e
Access-IsOwned false o' pc a at p e unlock v = absurd (v a e)

-- In every reachable state the flag is set if and only if some user holds the lock, and then one
-- user alone.
pub flag-IsOwned : {s : System} → Reach s → IsOwned s.occupied s.pc
flag-IsOwned here = λ a h. cc
flag-IsOwned (later {s} {o} {p} a r step) =
    Access-IsOwned s.occupied o s.pc a (s.pc a) p refl step (flag-IsOwned r)
