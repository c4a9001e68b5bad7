-- ===== src/Base/Arms.antt =====
-- A `match` on a number: the value of the first arm whose number it is.
use Prim.Native.Nat.{ℕ}
use mathlib.Core.Bool.{Bool, true, ◌&&◌}
use mathlib.Core.List.{List, [], ◌∷◌}
use mathlib.Core.Option.{Option, none, some}
use mathlib.Core.Path.{◌≡◌}
use native.Mathlib.Omega.{arith}
use rbdc.Base.Tests.{◌==◌, if◌then◌else◌}

module _ {ℓ} {A : Type ℓ} where
  unfoldable pub match_number : ℕ → List (ℕ × A) → Option A
  match_number n [] = none
  match_number n ((k, a) ∷ arms) = if n == k then some a else match_number n arms

  -- Each arm has the number of its value.
  unfoldable pub numbers_agree : (A → ℕ) → List (ℕ × A) → Bool
  numbers_agree number [] = true
  numbers_agree number ((k, a) ∷ arms) = number a == k && numbers_agree number arms

  pub match_number-number :
      (number : A → ℕ) (n : ℕ) (arms : List (ℕ × A)) (a : A)
      → numbers_agree number arms ≡ true
      → match_number n arms ≡ some a
      → n ≡ number a
  unfolding match_number numbers_agree
  match_number-number number n [] a h e = cc
  match_number-number number n ((k, b) ∷ arms) a h e =
      ground (arith, match_number-number number n arms a)
