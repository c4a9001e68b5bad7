-- ===== src/Mysql/Row.antt =====
-- rbdc-mysql/src/protocol/row.rs and rbdc-mysql/src/protocol/text/row.rs: the values of a row, and a
-- row of the text protocol. A row is decoded from one buffer; its values are ranges of that buffer.
pub mod Ranges
pub mod Laws
pub mod Take
use rbdc.Base.{
  ℕ, zero, suc, ◌+◌, ◌-◌, Bool, ◌&&◌, List, [], ◌∷◌, Option, none, some, ltb, leb, ◌==◌,
  if◌then◌else◌, Bytes, length, take, drop, get_elem?, set, Error, protocol, Outcome, ok, err,
  panic,
}
use rbdc.Crates.{Crates}
use rbdc.Mysql.Lenenc.{get_uint_lenenc}

abbrev pub Range : Type 0
Range = ℕ × ℕ

pub record Row : Type 0 where
  pub storage : List (Option Bytes)
  pub values : List (Option Range)

-- `data[start..end]`
unfoldable pub slice : Bytes → Range → Outcome Bytes
slice bytes (start, end) =
    if leb start end && leb end (length bytes)
    then ok (take (end - start) (drop start bytes))
    else panic

abbrev push : Option Range → Option Bytes → Outcome Row → Outcome Row
push x v (ok r) = ok (record { storage = v ∷ r.storage; values = x ∷ r.values })
push x v (err e) = err e
push x v panic = panic

abbrev push_slice : Range → Outcome Bytes → Outcome Row → Outcome Row
push_slice x (ok v) r = push (some x) (some v) r
push_slice x (err e) r = err e
push_slice x panic r = panic

-- `Row::from`
unfoldable pub row_from : List (Option Range) → Bytes → Outcome Row
unfolding slice
row_from [] bytes = ok (record { storage = []; values = [] })
row_from (some x ∷ ranges) bytes = push_slice x (slice bytes x) (row_from ranges bytes)
row_from (none ∷ ranges) bytes = push none none (row_from ranges bytes)

-- What stands in `storage[idx]`, where there is a value.
abbrev stored : Option Range → Option (Option Bytes) → Outcome (Option Bytes)
stored none _ = ok none
stored (some x) none = panic
stored (some x) (some v) = ok v

get_loop : List (Option Range) → List (Option Bytes) → ℕ → ℕ → Outcome (Option Bytes)
get_loop [] storage index idx = ok none
get_loop (x ∷ values) storage index idx =
    let rest = get_loop values storage index (idx + 1) in
    if index == idx then stored x (get_elem? storage idx) else rest

unfoldable pub get : Row → ℕ → Outcome (Option Bytes)
unfolding get_loop
get row index = get_loop row.values row.storage index 0

-- `storage[idx].take()`: nothing is left there.
abbrev taken : Row → ℕ → Option Range → Option (Option Bytes) → Outcome (Option Bytes) × Row
taken row idx none _ = (ok none, row)
taken row idx (some x) none = (panic, row)
taken row idx (some x) (some v) = (ok v, record row { storage = set row.storage idx none })

take_loop : List (Option Range) → Row → ℕ → ℕ → Outcome (Option Bytes) × Row
take_loop [] row index idx = (ok none, row)
take_loop (x ∷ values) row index idx =
    let rest = take_loop values row index (idx + 1) in
    if index == idx then taken row idx x (get_elem? row.storage idx) else rest

unfoldable pub take_value : Row → ℕ → Outcome (Option Bytes) × Row
unfolding take_loop
take_value row index = take_loop row.values row index 0

abbrev pub push_range : Option Range → Outcome (List (Option Range)) → Outcome (List (Option Range))
push_range x (ok xs) = ok (x ∷ xs)
push_range x (err e) = err e
push_range x panic = panic

-- The error of a value that is longer than the rest, with the byte at its place, if there is one.
abbrev exceeds : ℕ → ℕ → Option ℕ → Outcome (List (Option Range))
exceeds size remaining none = panic
exceeds size remaining (some b) = err (
    protocol "text row column length {} exceeds remaining {} bytes (first byte: 0x{:02x})"
      (size ∷ remaining ∷ b ∷ []))

module _ (c : Crates) {A : Type 0} where
  -- The loop over the columns, with what is left of the buffer.
  text_values : List A → Bytes → Bytes → Outcome (List (Option Range))
  text_values [] storage buf = ok []
  text_values (_ ∷ columns) storage [] = panic
  text_values (_ ∷ columns) storage (b ∷ bs) =
      if b == 0xfb
      then push_range none (text_values columns storage bs)
      else elim (get_uint_lenenc c (b ∷ bs)) [
        | ok (size, buf) ↦
            let offset = length storage - length buf in
            if ltb (length buf) size
            then exceeds size (length buf) (get_elem? storage offset)
            else push_range (some (offset, offset + size))
                (text_values columns storage (drop size buf))
        | err e ↦ err e
        | panic ↦ panic
      ]

  -- `TextRow::decode_with`
  unfoldable pub decode_text : List A → Bytes → Outcome Row
  unfolding text_values row_from
  decode_text columns buf = elim (text_values columns buf buf) [
    | ok ranges ↦ row_from ranges buf
    | err e ↦ err e
    | panic ↦ panic
  ]
