-- ===== src/Prelude.antt =====
-- Names and lemmas that the components share: the libraries' names, passed on, Boolean tests on
-- numbers, lists indexed by native numbers, predicates on lists, and machine words.
mod Tests
mod Lists
mod Predicates
mod Words
pub mod Counting
pub mod Names
pub mod Result
pub mod Integers
pub use Tests.*
pub use Lists.*
pub use Predicates.*
pub use Words.*
pub use Prim.Native.Nat.{ℕ, zero, suc, ◌+◌, ◌-◌, ◌*◌, ◌/◌, ◌%◌, ◌^◌, ◌≤◌, ◌<◌, min}
pub use mathlib.Core.Path.{◌≡◌, refl, sym, ap, ◌∙◌}
pub use mathlib.Core.Logic.{◌≢◌, ◌↔◌, ◌⊎◌, inl, inr}
pub use mathlib.Core.Bool.{Bool, true, false, not, ◌&&◌, ◌||◌}
pub use mathlib.Core.Option.{Option, none, some}
pub use mathlib.Core.List.{
  List, [], ◌∷◌, ◌++◌, map, reverse, append-nil, append_assoc, reverse-append, reverse-cons,
}
pub use native.Mathlib.Omega.{arith}
