-- ===== src/Base/Results.antt =====
-- What a fallible function of the source does: it returns, it returns an error, or it panics.
-- An error is the format string of its message with the numbers and the texts that it shows.
use Prim.Native.Nat.{ℕ}
use Prim.Native.String.{String}
use mathlib.Core.List.{List}
use mathlib.Core.Option.{Option}

pub data Error : Type 0 where
  -- `err_protocol!` and `Error::protocol` of src/error.rs
  protocol : String → List ℕ → Error
  -- `Error::from` of a text
  general : String → List ℕ → Error
  -- an error that the server reports: its number, its SQLSTATE and its message
  database : ℕ → Option (List ℕ) → List ℕ → Error
  -- an error response of PostgreSQL, by the bytes of its fields
  response : List ℕ → Error
  -- the error of an input operation
  io : String → Error

pub data Outcome {ℓ} (A : Type ℓ) : Type ℓ where
  ok : A → Outcome A
  err : Error → Outcome A
  panic : Outcome A

abbrev pub and_then {ℓ κ} : {A : Type ℓ} {B : Type κ} → Outcome A → (A → Outcome B) → Outcome B
and_then (ok a) f = f a
and_then (err e) f = err e
and_then panic f = panic

-- A function that reads from a cursor over bytes, `&mut self` of a `Bytes`.
abbrev pub Reader {ℓ} : Type ℓ → Type ℓ
Reader A = List ℕ → Outcome (A × List ℕ)

module _ {ℓ} {A : Type ℓ} where
  abbrev pub pure : A → Reader A
  pure a bs = ok (a, bs)

  abbrev pub fail : Error → Reader A
  fail e bs = err e

module _ {ℓ κ} {A : Type ℓ} {B : Type κ} where
  infixl 5 ◌>>=◌ ◌>>◌
  abbrev pub ◌>>=◌ : Reader A → (A → Reader B) → Reader B
  ◌>>=◌ m f bs = elim (m bs) [ ok (a, rest) ↦ f a rest | err e ↦ err e | panic ↦ panic ]

  abbrev pub ◌>>◌ : Reader A → Reader B → Reader B
  m >> n = m >>= λ _. n

-- The value read, without the rest of the bytes.
abbrev pub value_of {ℓ} : {A : Type ℓ} → Outcome (A × List ℕ) → Outcome A
value_of (ok (a, rest)) = ok a
value_of (err e) = err e
value_of panic = panic
