-- ===== src/Base/Bits.antt =====
-- The bits of the bytes of a bitmap, and the tests and writes of one bit by masks.
use Prim.Native.Nat.{ℕ, zero, suc, ◌/◌, ◌%◌, ◌^◌, ◌<◌, bit_and, bit_or}
use mathlib.Core.Bool.{Bool, true, false}
use mathlib.Core.Logic.{inl, inr}
use mathlib.Core.List.{[], ◌∷◌}
use mathlib.Core.Path.{◌≡◌, refl}
use native.Mathlib.Omega.{arith}
use rbdc.Base.Tests.{◌==◌, if◌then◌else◌, ==_iff, Bool-cases, ltb}
use rbdc.Base.Words.{Bytes}

-- The byte at a place, and 0 behind the end.
abbrev pub byte_at : Bytes → ℕ → ℕ
byte_at [] i = 0
byte_at (b ∷ bs) zero = b
byte_at (b ∷ bs) (suc i) = byte_at bs i

-- The bit at a place, the least significant bit of a byte first.
abbrev pub bit_of : ℕ → ℕ → ℕ
bit_of b k = b / 2 ^ k % 2

abbrev pub bit_at : Bytes → ℕ → ℕ
bit_at bs i = bit_of (byte_at bs (i / 8)) (i % 8)

-- A test of every number under a bound.
passes : (ℕ → Bool) → ℕ → Bool
passes test zero = true
passes test (suc bound) = let below = passes test bound in if test bound then below else false

passes-test :
    (test : ℕ → Bool) (bound : ℕ) → passes test bound ≡ true → {k : ℕ} → k < bound → test k ≡ true
unfolding passes
passes-test test zero all lt = absurd (omega arith)
passes-test test (suc bound) all {k} lt = elim (Bool-cases (k == bound)) [
  | inl last ↦ ground (arith, last, all)
  | inr before ↦ passes-test test bound (ground (arith, all)) (ground (arith, before))
]

mask_test : ℕ → ℕ → Bool
mask_test k b = (if bit_and b (2 ^ k) == 0 then bit_of b k == 0 else bit_of b k == 1)

mask_table : passes (λ k. passes (mask_test k) 256) 8 ≡ true
unfolding passes mask_test
mask_table = refl

-- A byte and a mask of one bit have nothing in common exactly if that bit is not set.
pub bit_and-mask : (b k : ℕ) → b < 256 → k < 8 → (bit_and b (2 ^ k) == 0) ≡ (bit_of b k == 0)
unfolding mask_test
bit_and-mask b k hb hk =
    let h =
      passes-test (mask_test k) 256 (passes-test (λ k. passes (mask_test k) 256) 8 mask_table hk)
        hb in
    ground (arith, h)

set_test : ℕ → ℕ → ℕ → Bool
set_test k j b = bit_of (bit_or b (2 ^ k)) j == (if k == j then 1 else bit_of b j)

set_table : passes (λ k. passes (λ j. passes (set_test k j) 256) 8) 8 ≡ true
unfolding passes set_test
set_table = refl

-- A mask of one bit sets that bit of a byte and no other.
pub bit_of-bit_or :
    (b k j : ℕ)
    → b < 256
    → k < 8
    → j < 8
    → bit_of (bit_or b (2 ^ k)) j ≡ (if k == j then 1 else bit_of b j)
unfolding set_test
bit_of-bit_or b k j hb hk hj =
    (==_iff (bit_of (bit_or b (2 ^ k)) j) (if k == j then 1 else bit_of b j)).0 (
      passes-test (set_test k j) 256
        (passes-test (λ j. passes (set_test k j) 256) 8
          (passes-test (λ k. passes (λ j. passes (set_test k j) 256) 8) 8 set_table hk) hj)
        hb)

range_test : ℕ → ℕ → Bool
range_test k b = ltb (bit_or b (2 ^ k)) 256

range_table : passes (λ k. passes (range_test k) 256) 8 ≡ true
unfolding passes range_test
range_table = refl

pub bit_or-lt : (b k : ℕ) → b < 256 → k < 8 → bit_or b (2 ^ k) < 256
unfolding range_test
bit_or-lt b k hb hk =
    let h =
      passes-test (range_test k) 256 (passes-test (λ k. passes (range_test k) 256) 8 range_table hk)
        hb in
    ground (arith, h)
