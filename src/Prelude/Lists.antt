-- ===== src/Prelude/Lists.antt =====
-- Lists over the native numbers, with Boolean predicates as the source's closures give them.
use Prim.Native.Nat.{ℕ, zero, suc, ◌+◌}
use mathlib.Core.Path.{◌≡◌}
use mathlib.Core.Bool.{Bool, true, false, ◌&&◌, ◌||◌}
use mathlib.Core.Option.{Option, none, some}
use mathlib.Core.List.{List, [], ◌∷◌, ◌++◌}
use native.Mathlib.Omega.{arith}
use lagoon_email.Prelude.Tests.{if◌then◌else◌, Text, text_eq}

module _ {ℓ} {A : Type ℓ} where
  abbrev pub length : List A → ℕ
  length [] = 0
  length (x ∷ xs) = suc (length xs)

  abbrev pub get_elem? : List A → ℕ → Option A
  get_elem? [] i = none
  get_elem? (x ∷ xs) zero = some x
  get_elem? (x ∷ xs) (suc i) = get_elem? xs i

  pub length-append : (xs ys : List A) → length (xs ++ ys) ≡ length xs + length ys
  length-append [] ys = omega arith
  length-append (x ∷ xs) ys = omega (arith, length-append xs ys)

module _ {ℓ} {A : Type ℓ} (p : A → Bool) where
  -- `iter().any(p)`
  unfoldable pub any : List A → Bool
  any [] = false
  any (x ∷ xs) = p x || any xs

  -- `iter().all(p)`
  unfoldable pub all : List A → Bool
  all [] = true
  all (x ∷ xs) = p x && all xs

  -- `iter().filter(p)`
  unfoldable pub filter : List A → List A
  filter [] = []
  filter (x ∷ xs) = let rest = filter xs in if p x then x ∷ rest else rest

  -- `iter().find(p)`
  unfoldable pub find : List A → Option A
  find [] = none
  find (x ∷ xs) = if p x then some x else find xs

-- A predicate that holds of every element, by recursion.
abbrev pub All {ℓ κ} : {A : Type ℓ} → (A → Type κ) → List A → Type κ
All P [] = Unit
All P (x ∷ xs) = P x × All P xs

-- `set.contains(text)` of a collection of texts
unfoldable pub contains : List Text → Text → Bool
contains [] t = false
contains (x ∷ xs) t = if text_eq x t then true else contains xs t
