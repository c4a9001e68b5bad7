-- ===== src/Mysql/Row/Take.antt =====
-- `Row::take` of rbdc-mysql/src/protocol/row.rs against `Row::get`.
use rbdc.Base.{
  ℕ, zero, suc, ◌+◌, ◌≡◌, refl, ap, sym, ◌∙◌, ◌≢◌, List, [], ◌∷◌, Option, none, some, ◌==◌, Bytes,
  get_elem?, set, Outcome, ok, err, panic, Bool-cases, inl, inr, ==_iff,
}
use rbdc.Mysql.Row.{Row, Range, get, get_loop, stored, taken, take_loop, take_value}

module _ {B : Type 0} (b : B) where
  get_elem-set_other : (xs : List B) (i j : ℕ) → j ≢ i → get_elem? (set xs i b) j ≡ get_elem? xs j
  get_elem-set_other [] i j n = refl
  get_elem-set_other (x ∷ xs) zero zero n = absurd (n refl)
  get_elem-set_other (x ∷ xs) zero (suc j) n = refl
  get_elem-set_other (x ∷ xs) (suc i) zero n = refl
  get_elem-set_other (x ∷ xs) (suc i) (suc j) n =
      get_elem-set_other xs i j (λ (e : j ≡ i). n (ap suc e))

  get_elem-set :
      (xs : List B) (i : ℕ) (x : B) → get_elem? xs i ≡ some x → get_elem? (set xs i b) i ≡ some b
  get_elem-set [] i x e = cc
  get_elem-set (y ∷ xs) zero x e = refl
  get_elem-set (y ∷ xs) (suc i) x e = get_elem-set xs i x e

other_loop :
    (values : List (Option Range)) (storage : List (Option Bytes)) (i j idx : ℕ)
    → j ≢ i
    → get_loop values (set storage i none) j idx ≡ get_loop values storage j idx
unfolding get_loop
other_loop [] storage i j idx n = refl
other_loop (x ∷ values) storage i j idx n = elim (Bool-cases (j == idx)) [
  | inl hit ↦
      rw
        (hit, get_elem-set_other none storage i idx (λ (e : idx ≡ i). n ((==_iff j idx).0 hit ∙ e)))
        refl
  | inr miss ↦ rw (miss, other_loop values storage i j (idx + 1) n) refl
]

taken-stored :
    (row : Row) (idx : ℕ) (x : Option Range) (o : Option (Option Bytes))
    → (taken row idx x o).0 ≡ stored x o
taken-stored row idx none o = refl
taken-stored row idx (some x) none = refl
taken-stored row idx (some x) (some v) = refl

take_loop-get_loop :
    (values : List (Option Range)) (row : Row) (i idx : ℕ)
    → (take_loop values row i idx).0 ≡ get_loop values row.storage i idx
unfolding take_loop get_loop
take_loop-get_loop [] row i idx = refl
take_loop-get_loop (x ∷ values) row i idx = elim (Bool-cases (i == idx)) [
  | inl hit ↦ rw hit (taken-stored row idx x (get_elem? row.storage idx))
  | inr miss ↦ rw miss (take_loop-get_loop values row i (idx + 1))
]

-- A take leaves the ranges, and changes no other column.
abbrev Leaves : Row → ℕ → Row → Type 0
Leaves row i after = (j : ℕ) → j ≢ i → get after j ≡ get row j

taken-Leaves :
    (row : Row) (idx : ℕ) (x : Option Range) (o : Option (Option Bytes))
    → Leaves row idx (taken row idx x o).1
unfolding get
taken-Leaves row idx none o j n = refl
taken-Leaves row idx (some x) none j n = refl
taken-Leaves row idx (some x) (some v) j n = other_loop row.values row.storage idx j 0 n

take_loop-Leaves :
    (values : List (Option Range)) (row : Row) (i idx : ℕ)
    → Leaves row i (take_loop values row i idx).1
unfolding take_loop
take_loop-Leaves [] row i idx j n = refl
take_loop-Leaves (x ∷ values) row i idx j n = elim (Bool-cases (i == idx)) [
  | inl hit ↦ rw hit (
      taken-Leaves row idx x (get_elem? row.storage idx) j
        (λ (e : j ≡ idx). n (e ∙ sym ((==_iff i idx).0 hit))))
  | inr miss ↦ rw miss (take_loop-Leaves values row i (idx + 1) j n)
]

-- What `get` finds in a column after a take, by what it found before.
abbrev pub left_behind : Outcome (Option Bytes) → Outcome (Option Bytes)
left_behind (ok v) = ok none
left_behind (err e) = err e
left_behind panic = panic

taken_here :
    (row : Row) (idx : ℕ) (x : Option Range) (o : Option (Option Bytes))
    → get_elem? row.storage idx ≡ o
    → (stored x (get_elem? (taken row idx x o).1.storage idx) ≡ left_behind (stored x o))
      × ((taken row idx x o).1.values ≡ row.values)
taken_here row idx none o e = (refl, refl)
taken_here row idx (some x) none e = (ap (stored (some x)) e, refl)
taken_here row idx (some x) (some w) e =
    (ap (stored (some x)) (get_elem-set none row.storage idx w e), refl)

take_loop_here :
    (values : List (Option Range)) (row : Row) (i idx : ℕ)
    → (get_loop values (take_loop values row i idx).1.storage i idx
        ≡ left_behind (get_loop values row.storage i idx))
      × ((take_loop values row i idx).1.values ≡ row.values)
unfolding take_loop get_loop
take_loop_here [] row i idx = (refl, refl)
take_loop_here (x ∷ values) row i idx = elim (Bool-cases (i == idx)) [
  | inl hit ↦ rw hit (taken_here row idx x (get_elem? row.storage idx) refl)
  | inr miss ↦ rw miss (take_loop_here values row i (idx + 1))
]

-- A take returns what `get` returns. Afterwards `get` finds no value in that column where it found one
-- or NULL before, and panics where it did; it finds in every other column what it found before.
pub take_value-get :
    (row : Row) (i j : ℕ)
    → j ≢ i
    → ((take_value row i).0 ≡ get row i)
      × (get (take_value row i).1 i ≡ left_behind (get row i))
      × (get (take_value row i).1 j ≡ get row j)
unfolding take_value get
take_value-get row i j n =
    let (here, same) = take_loop_here row.values row i 0 in
    (
      take_loop-get_loop row.values row i 0,
      ap (λ values. get_loop values (take_loop row.values row i 0).1.storage i 0) same ∙ here,
      take_loop-Leaves row.values row i 0 j n,
    )
