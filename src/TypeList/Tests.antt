-- ===== src/TypeList/Tests.antt =====
-- Type lists over numbers, and the properties at them.
use co_context.Prelude.{ℕ, ◌≡◌, refl, List, [], ◌∷◌, Bool, none, ◌==◌}
use co_context.TypeList.{
  reverse, first_n, split, filter, split_if, split_onto, append, remove_if, filter_onto,
}
use co_context.TypeList.Order.{first_n_lem}

abbrev some_types : List ℕ
some_types = 3 ∷ 1 ∷ 0 ∷ 1 ∷ []

abbrev other_types : List ℕ
other_types = 1 ∷ 5 ∷ []

abbrev same : ℕ → ℕ → Bool
same a b = a == b

no_first : first_n {A = ℕ} [] 0 ≡ none
no_first = first_n_lem [] 0

split_at_zero : split same (0 ∷ 4 ∷ 0 ∷ 0 ∷ 7 ∷ 8 ∷ []) 0 ≡ (4 ∷ []) ∷ (7 ∷ 8 ∷ []) ∷ []
unfolding split split_if split_onto append remove_if filter filter_onto reverse
split_at_zero = refl
