-- ===== src/Prelude/Predicates.antt =====
-- Predicates on lists by recursion: the tactics read and build the tuples that they compute to.
use Prim.Native.Nat.{ℕ}
use mathlib.Core.Path.{◌≡◌, refl, sym}
use mathlib.Core.Logic.{◌≢◌, ◌⊎◌, inl, inr}
use mathlib.Core.List.{List, [], ◌∷◌, ◌++◌, reverse, reverse-cons}

abbrev pub All {ℓ κ} : {A : Type ℓ} → (A → Type κ) → List A → Type κ
All P [] = Unit
All P (x ∷ xs) = P x × All P xs

module _ {ℓ κ} {A : Type ℓ} (P : A → Type κ) where
  pub All-append : (xs ys : List A) → All P xs → All P ys → All P (xs ++ ys)
  All-append [] ys hx hy = hy
  All-append (x ∷ xs) ys hx hy = (hx.0, All-append xs ys hx.1 hy)

  pub All-append_left : (xs ys : List A) → All P (xs ++ ys) → All P xs
  All-append_left [] ys h = tt
  All-append_left (x ∷ xs) ys h = (h.0, All-append_left xs ys h.1)

  pub All-append_right : (xs ys : List A) → All P (xs ++ ys) → All P ys
  All-append_right [] ys h = h
  All-append_right (x ∷ xs) ys h = All-append_right xs ys h.1

  pub All-reverse : (xs : List A) → All P xs → All P (reverse xs)
  All-reverse [] h = tt
  All-reverse (x ∷ xs) h =
      rw (reverse-cons x xs) (All-append (reverse xs) (x ∷ []) (All-reverse xs h.1) (h.0, tt))

pub All-map {ℓ κ μ} :
    {A : Type ℓ} (P : A → Type κ) (Q : A → Type μ) (xs : List A)
    → ((x : A) → P x → Q x)
    → All P xs
    → All Q xs
All-map P Q [] f h = tt
All-map P Q (x ∷ xs) f h = (f x h.0, All-map P Q xs f h.1)

-- `a` is one of the entries.
abbrev pub Listed : ℕ → List ℕ → Type 0
Listed a [] = ⊥
Listed a (x ∷ xs) = (x ≡ a) ⊎ Listed a xs

-- `a` is none of the numbers.
abbrev pub Fresh : ℕ → List ℕ → Type 0
Fresh a = All (λ x. x ≢ a)

abbrev pub Distinct : List ℕ → Type 0
Distinct [] = Unit
Distinct (x ∷ xs) = Fresh x xs × Distinct xs

abbrev pub Disjoint : List ℕ → List ℕ → Type 0
Disjoint xs ys = All (λ x. Fresh x ys) xs

pub Distinct-snoc : (xs : List ℕ) (a : ℕ) → Distinct xs → Fresh a xs → Distinct (xs ++ a ∷ [])
Distinct-snoc [] a d f = (tt, tt)
Distinct-snoc (x ∷ xs) a d f =
    (All-append (λ y. y ≢ x) xs (a ∷ []) d.0 ((λ e. f.0 (sym e)), tt), Distinct-snoc xs a d.1 f.1)

pub Distinct-reverse : (xs : List ℕ) → Distinct xs → Distinct (reverse xs)
Distinct-reverse [] d = tt
Distinct-reverse (x ∷ xs) d =
    rw (reverse-cons x xs)
      (Distinct-snoc (reverse xs) x (Distinct-reverse xs d.1) (All-reverse (λ y. y ≢ x) xs d.0))

pub Disjoint-nil : (xs : List ℕ) → Disjoint xs []
Disjoint-nil [] = tt
Disjoint-nil (x ∷ xs) = (tt, Disjoint-nil xs)

pub Disjoint-cons :
    (xs : List ℕ) (a : ℕ) (ys : List ℕ) → Fresh a xs → Disjoint xs ys → Disjoint xs (a ∷ ys)
Disjoint-cons [] a ys f d = tt
Disjoint-cons (x ∷ xs) a ys f d = (((λ e. f.0 (sym e)), d.0), Disjoint-cons xs a ys f.1 d.1)

pub Disjoint-symm : (xs ys : List ℕ) → Disjoint xs ys → Disjoint ys xs
Disjoint-symm [] ys d = Disjoint-nil ys
Disjoint-symm (x ∷ xs) ys d = Disjoint-cons ys x xs d.0 (Disjoint-symm xs ys d.1)

pub Listed-append_left : (a : ℕ) (xs ys : List ℕ) → Listed a xs → Listed a (xs ++ ys)
Listed-append_left a [] ys h = absurd h
Listed-append_left a (x ∷ xs) ys (inl e) = inl e
Listed-append_left a (x ∷ xs) ys (inr h) = inr (Listed-append_left a xs ys h)

pub Listed-snoc : (a : ℕ) (xs : List ℕ) → Listed a (xs ++ a ∷ [])
Listed-snoc a [] = inl refl
Listed-snoc a (x ∷ xs) = inr (Listed-snoc a xs)
