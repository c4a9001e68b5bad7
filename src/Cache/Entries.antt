-- ===== src/Cache/Entries.antt =====
-- The entries of a cache, in the order of their use.
use rbdc.Base.{
  ◌+◌, ◌-◌, ◌≡◌, refl, Bool, true, false, List, [], ◌∷◌, Option, none, some, arith, if◌then◌else◌,
  Bytes, length, eq_bytes, eq_bytes→≡, Bool-cases, inl, inr,
}

abbrev pub Entry : Type 0 → Type 0
Entry T = Bytes × T

module _ {T : Type 0} where
  unfoldable pub has : Bytes → List (Entry T) → Bool
  has k [] = false
  has k ((x, v) ∷ es) = if eq_bytes x k then true else has k es

  unfoldable pub find : Bytes → List (Entry T) → Option T
  find k [] = none
  find k ((x, v) ∷ es) = if eq_bytes x k then some v else find k es

  unfoldable pub erase : Bytes → List (Entry T) → List (Entry T)
  erase k [] = []
  erase k ((x, v) ∷ es) = if eq_bytes x k then es else (x, v) ∷ erase k es

  unfoldable pub last : List (Entry T) → Option (Entry T)
  last [] = none
  last (e ∷ []) = some e
  last (e ∷ f ∷ es) = last (f ∷ es)

  unfoldable pub but_last : List (Entry T) → List (Entry T)
  but_last [] = []
  but_last (e ∷ []) = []
  but_last (e ∷ f ∷ es) = e ∷ but_last (f ∷ es)

  -- No key stands twice.
  unfoldable pub Distinct : List (Entry T) → Type 0
  Distinct [] = Unit
  Distinct ((k, v) ∷ es) = (has k es ≡ false) × Distinct es

  pub length-but_last : (es : List (Entry T)) → length (but_last es) ≡ length es - 1
  unfolding but_last
  length-but_last [] = omega arith
  length-but_last (e ∷ []) = omega arith
  length-but_last (e ∷ f ∷ es) = omega (arith, length-but_last (f ∷ es))

  pub length-erase :
      (k : Bytes) (es : List (Entry T)) → has k es ≡ true → length (erase k es) + 1 ≡ length es
  unfolding erase has
  length-erase k [] h = cc
  length-erase k ((x, v) ∷ es) h = elim (Bool-cases (eq_bytes x k)) [
    | inl here ↦ rw here (omega arith)
    | inr later ↦ rw later (omega (arith, length-erase k es (rw later at h)))
  ]

  pub has-erase : (k : Bytes) (es : List (Entry T)) → Distinct es → has k (erase k es) ≡ false
  unfolding erase has Distinct
  has-erase k [] d = refl
  has-erase k ((x, v) ∷ es) (n, d) = elim (Bool-cases (eq_bytes x k)) [
    | inl here ↦ rw here (rw (eq_bytes→≡ x k here) at n)
    | inr later ↦ rw later (rw later (has-erase k es d))
  ]

  pub has-but_last :
      (k : Bytes) (es : List (Entry T)) → has k es ≡ false → has k (but_last es) ≡ false
  unfolding but_last has
  has-but_last k [] h = refl
  has-but_last k (e ∷ []) h = refl
  has-but_last k ((x, v) ∷ f ∷ es) h = elim (Bool-cases (eq_bytes x k)) [
    | inl here ↦ absurd (ground (arith, rw here at h))
    | inr later ↦ rw later (has-but_last k (f ∷ es) (rw later at h))
  ]

  has_kept : (j k : Bytes) (es : List (Entry T)) → has j es ≡ false → has j (erase k es) ≡ false
  unfolding erase has
  has_kept j k [] h = refl
  has_kept j k ((x, v) ∷ es) h = elim (Bool-cases (eq_bytes x j)) [
    | inl same ↦ absurd (ground (arith, rw same at h))
    | inr other ↦ elim (Bool-cases (eq_bytes x k)) [
      | inl here ↦ rw here (rw other at h)
      | inr later ↦ rw (later, other) (has_kept j k es (rw other at h))
    ]
  ]

  pub erase-Distinct : (k : Bytes) (es : List (Entry T)) → Distinct es → Distinct (erase k es)
  unfolding erase Distinct
  erase-Distinct k [] d = tt
  erase-Distinct k ((x, v) ∷ es) (n, d) = elim (Bool-cases (eq_bytes x k)) [
    | inl here ↦ rw here d
    | inr later ↦ rw later (has_kept x k es n, erase-Distinct k es d)
  ]

  pub but_last-Distinct : (es : List (Entry T)) → Distinct es → Distinct (but_last es)
  unfolding but_last Distinct
  but_last-Distinct [] d = tt
  but_last-Distinct (e ∷ []) d = tt
  but_last-Distinct ((x, v) ∷ f ∷ es) (n, d) =
      (has-but_last x (f ∷ es) n, but_last-Distinct (f ∷ es) d)
