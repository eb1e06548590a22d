-- ===== src/TypeList.antt =====
-- include/co_context/mpl/type_list.hpp: lists of types and the functions on them, which the
-- compiler runs. A type list is a list, whatever its entries; a use that does not compile gives
-- none. Types are compared by `is_same`, a parameter that stands for std::is_same_v.
pub mod Order
pub mod Filter
pub mod Search
pub mod Sets
pub mod Split
mod Tests
use co_context.Prelude.{
  ℕ, zero, suc, ◌-◌, ◌^◌, List, [], ◌∷◌, ◌++◌, Bool, true, false, not, ◌||◌, Option, none, some,
  ltb, leb, if◌then◌else◌, word_add, length,
}

module _ {ℓ} {A : Type ℓ} where
  unfoldable pub append : List A → List A → List A
  append ts us = ts ++ us

  unfoldable pub prepend : List A → List A → List A
  prepend ts us = us ++ ts

  unfoldable pub head : List A → Option A
  head [] = none
  head (h ∷ ts) = some h

  unfoldable pub tails : List A → Option (List A)
  tails [] = none
  tails (h ∷ ts) = some ts

  unfoldable pub last : List A → Option A
  last [] = none
  last (h ∷ []) = some h
  last (h ∷ h2 ∷ ts) = last (h2 ∷ ts)

  unfoldable pub drop_last_onto : List A → List A → Option (List A)
  drop_last_onto [] out = none
  drop_last_onto (l ∷ []) out = some out
  drop_last_onto (h ∷ h2 ∷ ts) out = drop_last_onto (h2 ∷ ts) (out ++ h ∷ [])

  unfoldable pub drop_last : List A → Option (List A)
  drop_last ts = drop_last_onto ts []

  unfoldable pub filter_onto : (A → Bool) → List A → List A → List A
  filter_onto p [] out = out
  filter_onto p (h ∷ ts) out = elim (p h) [
    | true ↦ filter_onto p ts (out ++ h ∷ [])
    | false ↦ filter_onto p ts out
  ]

  unfoldable pub filter : (A → Bool) → List A → List A
  filter p ts = filter_onto p ts []

  unfoldable pub remove_if : (A → Bool) → List A → List A
  remove_if p ts = filter (λ e. not (p e)) ts

  -- Two lists are put together, and then the rest; no list at all has no result.
  unfoldable pub concat_onto : List A → List (List A) → List A
  concat_onto in1 [] = in1
  concat_onto in1 (in2 ∷ rest) = concat_onto (in1 ++ in2) rest

  unfoldable pub concat : List (List A) → Option (List A)
  concat [] = none
  concat (in1 ∷ rest) = some (concat_onto in1 rest)

  unfoldable pub reverse : List A → List A
  reverse [] = []
  reverse (t ∷ ts) = append (reverse ts) (t ∷ [])

  unfoldable pub at : List A → ℕ → Option A
  at [] idx = none
  at (h ∷ ts) zero = some h
  at (h ∷ ts) (suc idx) = at ts idx

  -- `std::conditional_t<(Is < n), type_list<Ts>, type_list<>>...`
  unfoldable pub kept_below : ℕ → ℕ → List A → List (List A)
  kept_below n is [] = []
  kept_below n is (t ∷ ts) = (if ltb is n then t ∷ [] else []) ∷ kept_below n (suc is) ts

  unfoldable pub first_n : List A → ℕ → Option (List A)
  first_n ts n = if leb n (length ts) then concat (kept_below n 0 ts) else none

  -- `reverse_sequence<...>::append<app...>`
  unfoldable pub reverse_append : List A → List A → List A
  reverse_append [] app = app
  reverse_append (idx ∷ idxs) app = reverse_append idxs (idx ∷ app)

  unfoldable pub reverse_sequence : List A → List A
  reverse_sequence [] = []
  reverse_sequence (idx ∷ idxs) = reverse_append idxs (idx ∷ [])

module _ {ℓ κ} {A : Type ℓ} {B : Type κ} where
  unfoldable pub map : List A → (A → B) → List B
  map [] f = []
  map (t ∷ ts) f = f t ∷ map ts f

  unfoldable pub fold : List A → B → (B → A → B) → B
  fold [] acc op = acc
  fold (h ∷ ts) acc op = fold ts (op acc h) op

abbrev pub npos : ℕ
npos = 2 ^ 64 - 1

-- The offset is a size_t.
unfoldable pub find_if_from {ℓ} : {A : Type ℓ} → (A → Bool) → List A → ℕ → ℕ
find_if_from p [] offset = npos
find_if_from p (h ∷ ts) offset = elim (p h) [
  | true ↦ offset
  | false ↦ find_if_from p ts (word_add (2 ^ 64) offset 1)
]

unfoldable pub find_if {ℓ} : {A : Type ℓ} → List A → (A → Bool) → ℕ
find_if ts p = find_if_from p ts 0

-- `remove_t<out, type_list<>>`: a list is the same type as `type_list<>` when it is empty.
abbrev pub is_nil {ℓ} : {A : Type ℓ} → List A → Bool
is_nil [] = true
is_nil (x ∷ xs) = false

-- The lists in `out` are the current one and those before it, the latest first.
unfoldable pub split_onto {ℓ} :
    {A : Type ℓ} → (A → Bool) → List A → List A → List (List A) → List (List A)
split_onto p [] head_list lists = reverse (remove_if is_nil (head_list ∷ lists))
split_onto p (h ∷ ts) head_list lists = elim (p h) [
  | true ↦ split_onto p ts [] (head_list ∷ lists)
  | false ↦ split_onto p ts (append head_list (h ∷ [])) lists
]

unfoldable pub split_if {ℓ} : {A : Type ℓ} → List A → (A → Bool) → List (List A)
split_if ts p = split_onto p ts [] []

module _ {ℓ} {A : Type ℓ} (is_same : A → A → Bool) where
  unfoldable pub remove : List A → A → List A
  remove ts e = filter (λ t. not (is_same e t)) ts

  -- `(false || ... || std::is_same_v<E, Ts>)`
  unfoldable pub contain : List A → A → Bool
  contain ts e = fold ts false (λ acc t. acc || is_same e t)

  unfoldable pub find_from : A → List A → ℕ → ℕ
  find_from e [] offset = npos
  find_from e (h ∷ ts) offset = elim (is_same e h) [
    | true ↦ offset
    | false ↦ find_from e ts (word_add (2 ^ 64) offset 1)
  ]

  unfoldable pub find : List A → A → ℕ
  find ts e = find_from e ts 0

  unfoldable pub add : List A → A → List A
  add acc e = if contain acc e then acc else append acc (e ∷ [])

  unfoldable pub unique : List A → List A
  unique ts = fold ts [] add

  -- `(0 + ... + unsigned(std::is_same_v<E, Ts>))`, a sum of 32 bits.
  unfoldable pub count : List A → A → ℕ
  count ts e = fold ts 0 (λ acc t. word_add (2 ^ 32) acc (if is_same e t then 1 else 0))

  unfoldable pub replace : List A → A → A → List A
  replace ts old new = map ts (λ t. if is_same t old then new else t)

  unfoldable pub union_set : List A → List A → List A
  union_set in1 in2 = unique (concat_onto in1 (in2 ∷ []))

  unfoldable pub intersection_set : List A → List A → List A
  intersection_set in1 in2 = filter (λ e. contain in1 e) in2

  unfoldable pub difference_set : List A → List A → List A
  difference_set in1 in2 = remove_if (λ e. contain in2 e) in1

  unfoldable pub symmetric_difference_set : List A → List A → List A
  symmetric_difference_set in1 in2 =
      concat_onto (difference_set in1 in2) (difference_set in2 in1 ∷ [])

  unfoldable pub split : List A → A → List (List A)
  split ts delimiter = split_if ts (λ e. is_same delimiter e)
