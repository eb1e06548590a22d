-- ===== src/Cursor/Window.antt =====
-- The array behind a cursor read as a queue: the entries from the head on, each index taken
-- modulo the capacity as `head()` and `tail()` do.
use native.Mathlib.Nat.{mod-add-mod, mod-lt, add-zero}
use mathlib.Core.Path.{ap₂}
use co_context.Prelude.{
  ℕ, zero, suc, ◌+◌, ◌%◌, ◌≤◌, ◌<◌, ◌≡◌, refl, sym, ap, ◌∙◌, List, [], ◌∷◌, ◌++◌, arith, length,
  get_or, set, get_or-set_self, get_or-set_ne, mod-ne,
}

module _ {ℓ} {A : Type ℓ} (c : ℕ) (d : A) where
  abbrev pub window : List A → ℕ → ℕ → List A
  window buf h zero = []
  window buf h (suc n) = get_or buf (h % c) d ∷ window buf (h + 1) n

  pub length-window : (buf : List A) (h n : ℕ) → length (window buf h n) ≡ n
  length-window buf h zero = refl
  length-window buf h (suc n) = ap suc (length-window buf (h + 1) n)

  -- Only the remainder of the start matters.
  pub window-mod : (buf : List A) (h h' n : ℕ) → h % c ≡ h' % c → window buf h n ≡ window buf h' n
  window-mod buf h h' zero e = refl
  window-mod buf h h' (suc n) e =
      ap₂ ◌∷◌ (ap (λ i. get_or buf i d) e) (window-mod buf (h + 1) (h' + 1) n next)
    where
      next : (h + 1) % c ≡ (h' + 1) % c
      next = sym (mod-add-mod h c 1) ∙ ap (λ t. (t + 1) % c) e ∙ mod-add-mod h' c 1

  -- A write just past the window extends it by that entry.
  pub window-set :
      (buf : List A) (x : A) (n h i : ℕ)
      → c ≤ length buf
      → n < c
      → i ≡ (h + n) % c
      → window (set buf i x) h (suc n) ≡ window buf h n ++ x ∷ []
  window-set buf x zero h i hs hn e =
      rw (e, add-zero) (ap (λ v. v ∷ []) (get_or-set_self buf (h % c) x d inside))
    where
      inside : h % c < length buf
      inside = omega (arith, mod-lt h {m = c} (omega arith))
  window-set buf x (suc n) h i hs hn e =
      ap₂ ◌∷◌
        (get_or-set_ne buf x d
          (λ q. mod-ne c h (h + suc n) (omega arith) (omega arith) (sym q ∙ e)))
        (window-set buf x n (h + 1) i hs (omega arith) (e ∙ ap (λ t. t % c) (omega arith)))
