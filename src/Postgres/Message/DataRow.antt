-- ===== src/Postgres/Message/DataRow.antt =====
-- rbdc-pg/src/message/data_row.rs: a row of data. Its values are ranges of the message, as those of a
-- row of MySQL are; the loops of `get` and `take` are those of rbdc-mysql/src/protocol/row.rs.
pub mod Laws
use rbdc.Base.{
  ℕ, zero, suc, ◌+◌, ◌%◌, ◌^◌, List, [], ◌∷◌, Option, none, some, Bytes, Outcome, ok, err, panic,
  and_then, ltb, if◌then◌else◌,
}
use rbdc.Crates.{Crates}
use rbdc.Mysql.Row.{Row, Range, row_from, get, take_value, push_range}
use rbdc.Postgres.Message.{read_at}

abbrev pub DataRow : Type 0
DataRow = Row

-- `DataRow::get` and `DataRow::take`
unfoldable pub get_data : DataRow → ℕ → Outcome (Option Bytes)
get_data = get

unfoldable pub take_data : DataRow → ℕ → Outcome (Option Bytes) × DataRow
take_data = take_value

module _ (c : Crates) where
  -- The loop `for _ in 0..cnt`, with the offset of 32 bits. A length with the sign bit is negative.
  data_values : ℕ → ℕ → Bytes → Outcome (List (Option Range))
  data_values zero offset buf = ok []
  data_values (suc n) offset buf = elim (read_at c 4 offset buf) [
    | ok len ↦
        let start = (offset + 4) % 2 ^ 32 in
        let end = (start + len) % 2 ^ 32 in
        if ltb len (2 ^ 31)
        then push_range (some (start, end)) (data_values n end buf)
        else push_range none (data_values n start buf)
    | err e ↦ err e
    | panic ↦ panic
  ]

  -- `DataRow::decode_with`
  unfoldable pub decode_data_row : Bytes → Outcome DataRow
  unfolding data_values
  decode_data_row buf =
      and_then (c.read_uint 2 buf)
        λ cnt. and_then (data_values cnt 2 buf) λ values. row_from values buf
