-- ===== src/Base/Words.antt =====
-- Bytes and machine integers in the two byte orders: `to_le_bytes`, `to_be_bytes` and their inverses.
use Prim.Native.Nat.{ℕ, zero, suc, ◌+◌, ◌*◌, ◌/◌, ◌%◌, ◌^◌, ◌<◌}
use mathlib.Core.Path.{◌≡◌, refl, ap}
use mathlib.Core.List.{List, [], ◌∷◌, ◌++◌}
use mathlib.Core.Bool.{Bool, true, false, ◌&&◌}
use rbdc.Base.Tests.{◌==◌}
use native.Mathlib.Omega.{arith}
use native.Mathlib.Nat.{pow-suc}
use rbdc.Base.Lists.{length, length-append}

abbrev pub Bytes : Type 0
Bytes = List ℕ

-- The lowest `n` bytes of `v`, the least significant first.
abbrev pub le_bytes : ℕ → ℕ → Bytes
le_bytes zero v = []
le_bytes (suc n) v = v % 256 ∷ le_bytes n (v / 256)

abbrev pub of_le_bytes : Bytes → ℕ
of_le_bytes [] = 0
of_le_bytes (b ∷ bs) = b + 256 * of_le_bytes bs

-- The most significant first.
abbrev pub be_bytes : ℕ → ℕ → Bytes
be_bytes zero v = []
be_bytes (suc n) v = be_bytes n (v / 256) ++ v % 256 ∷ []

abbrev pub of_be_from : ℕ → Bytes → ℕ
of_be_from acc [] = acc
of_be_from acc (b ∷ bs) = of_be_from (acc * 256 + b) bs

abbrev pub of_be_bytes : Bytes → ℕ
of_be_bytes = of_be_from 0

pub length-le_bytes : (n v : ℕ) → length (le_bytes n v) ≡ n
length-le_bytes zero v = refl
length-le_bytes (suc n) v = ap suc (length-le_bytes n (v / 256))

pub length-be_bytes : (n v : ℕ) → length (be_bytes n v) ≡ n
length-be_bytes zero v = refl
length-be_bytes (suc n) v =
    omega (arith, length-append (be_bytes n (v / 256)) (v % 256 ∷ []), length-be_bytes n (v / 256))

pub of_le_bytes-le_bytes : (n v : ℕ) → v < 256 ^ n → of_le_bytes (le_bytes n v) ≡ v
of_le_bytes-le_bytes zero v h = omega arith
of_le_bytes-le_bytes (suc n) v h =
    omega (arith, pow-suc 256 n, of_le_bytes-le_bytes n (v / 256) (omega (arith, pow-suc 256 n)))

of_be_from-append :
    (acc : ℕ) (xs : Bytes) (b : ℕ) → of_be_from acc (xs ++ b ∷ []) ≡ of_be_from acc xs * 256 + b
of_be_from-append acc [] b = refl
of_be_from-append acc (x ∷ xs) b = of_be_from-append (acc * 256 + x) xs b

pub of_be_bytes-be_bytes : (n v : ℕ) → v < 256 ^ n → of_be_bytes (be_bytes n v) ≡ v
of_be_bytes-be_bytes zero v h = omega arith
of_be_bytes-be_bytes (suc n) v h = omega (
  arith,
  of_be_from-append 0 (be_bytes n (v / 256)) (v % 256),
  of_be_bytes-be_bytes n (v / 256) (omega (arith, pow-suc 256 n)),
)

-- The equality of byte sequences and of texts.
unfoldable pub eq_bytes : Bytes → Bytes → Bool
eq_bytes [] [] = true
eq_bytes (x ∷ xs) (y ∷ ys) = x == y && eq_bytes xs ys
eq_bytes _ _ = false

pub eq_bytes_refl : (xs : Bytes) → eq_bytes xs xs ≡ true
unfolding eq_bytes
eq_bytes_refl [] = refl
eq_bytes_refl (x ∷ xs) = ground (arith, eq_bytes_refl xs)

pub eq_bytes→≡ : (xs ys : Bytes) → eq_bytes xs ys ≡ true → xs ≡ ys
unfolding eq_bytes
eq_bytes→≡ [] [] h = refl
eq_bytes→≡ [] (y ∷ ys) h = cc
eq_bytes→≡ (x ∷ xs) [] h = cc
eq_bytes→≡ (x ∷ xs) (y ∷ ys) h = ground (arith, eq_bytes→≡ xs ys)
