-- ===== src/Mysql/BinaryRow.antt =====
-- rbdc-mysql/src/protocol/statement/row.rs: a row of the binary protocol. A bitmap of the NULLs, which begins
-- at its third bit, stands before the values, whose sizes depend on their types.
pub mod Laws
pub mod Bounds
use Prim.Native.Nat.{bit_and}
use rbdc.Base.{
  ℕ, ◌+◌, ◌-◌, ◌/◌, ◌%◌, ◌^◌, Bool, true, false, not, List, [], ◌∷◌, Option, none, some, ltb, ◌==◌,
  if◌then◌else◌, Bytes, length, drop, get_elem?, protocol, Outcome, ok, err, panic, and_then,
  Reader, pure,
}
use rbdc.Crates.{Crates}
use rbdc.Io.{get_bytes}
use rbdc.Mysql.Column.{ColumnType}
use rbdc.Mysql.Lenenc.{get_uint_lenenc}
use rbdc.Mysql.Row.{Row, Range, row_from, push_range}
use rbdc.Mysql.Statement.{MySqlTypeInfo}

pub record MySqlColumn : Type 0 where
  pub ordinal : ℕ
  pub name : Bytes
  pub type_info : MySqlTypeInfo

-- How the size of a value is found.
pub data Size : Type 0 where
  length_encoded : Size
  fixed : ℕ → Size
  temporal : Size
  unreachable : Size

-- The arms of the `match` on the type.
unfoldable pub size_of : ColumnType → Size
size_of ColumnType.string = length_encoded
size_of ColumnType.var_char = length_encoded
size_of ColumnType.var_string = length_encoded
size_of ColumnType.enum = length_encoded
size_of ColumnType.set = length_encoded
size_of ColumnType.long_blob = length_encoded
size_of ColumnType.medium_blob = length_encoded
size_of ColumnType.blob = length_encoded
size_of ColumnType.tiny_blob = length_encoded
size_of ColumnType.geometry = length_encoded
size_of ColumnType.bit = length_encoded
size_of ColumnType.decimal = length_encoded
size_of ColumnType.json = length_encoded
size_of ColumnType.new_decimal = length_encoded
size_of ColumnType.long_long = fixed 8
size_of ColumnType.long = fixed 4
size_of ColumnType.int24 = fixed 4
size_of ColumnType.short = fixed 2
size_of ColumnType.year = fixed 2
size_of ColumnType.tiny = fixed 1
size_of ColumnType.float = fixed 4
size_of ColumnType.double = fixed 8
size_of ColumnType.time = temporal
size_of ColumnType.timestamp = temporal
size_of ColumnType.date = temporal
size_of ColumnType.datetime = temporal
size_of ColumnType.null = unreachable

-- `null_bitmap[i / 8] & (1 << (i % 8) as u8) != 0`
unfoldable pub is_marked : Bytes → ℕ → Outcome Bool
is_marked null_bitmap column_idx =
    let column_null_idx = column_idx + 2 in
    elim (get_elem? null_bitmap (column_null_idx / 8)) [
      | none ↦ panic
      | some b ↦ ok (not (bit_and b (2 ^ (column_null_idx % 8)) == 0))
    ]

module _ (c : Crates) where
  unfoldable pub read_size : Size → Reader ℕ
  read_size length_encoded buf = get_uint_lenenc c buf
  read_size (fixed n) buf = ok (n, buf)
  read_size temporal [] =
      err (protocol "binary row: expected temporal length byte, found empty buffer" [])
  read_size temporal (b ∷ bs) = ok (b + 1, b ∷ bs)
  read_size unreachable buf = panic

  -- The loop over the columns, from an index on, with what is left of the buffer.
  binary_values : Bytes → ℕ → List MySqlColumn → ℕ → Bytes → Outcome (List (Option Range))
  binary_values null_bitmap total [] column_idx buf = ok []
  binary_values null_bitmap total (column ∷ columns) column_idx buf =
      elim (is_marked null_bitmap column_idx) [
        | ok true ↦ push_range none (binary_values null_bitmap total columns (column_idx + 1) buf)
        | ok false ↦ elim (read_size (size_of column.type_info.type) buf) [
          | ok (size, rest) ↦
              let offset = total - length rest in
              if ltb (length rest) size
              then err (
                  protocol "binary row column length {} exceeds remaining {} bytes"
                    (size ∷ length rest ∷ []))
              else push_range (some (offset, offset + size))
                  (binary_values null_bitmap total columns (column_idx + 1) (drop size rest))
          | err e ↦ err e
          | panic ↦ panic
        ]
        | err e ↦ err e
        | panic ↦ panic
      ]

  -- What follows the header.
  binary_row : List MySqlColumn → Bytes → Outcome Row
  binary_row columns storage =
      let null_bitmap_len = (length columns + 9) / 8 in
      if ltb (length storage) null_bitmap_len
      then err (
          protocol "binary row: null-bitmap length {} exceeds remaining {} bytes"
            (null_bitmap_len ∷ length storage ∷ []))
      else elim (get_bytes c null_bitmap_len storage) [
        | ok (null_bitmap, buf) ↦
            and_then (binary_values null_bitmap (length storage) columns 0 buf)
              λ values. row_from values storage
        | err e ↦ err e
        | panic ↦ panic
      ]

  -- `BinaryRow::decode_with`
  unfoldable pub decode_binary : List MySqlColumn → Bytes → Outcome Row
  unfolding binary_row binary_values
  decode_binary columns buf = and_then (c.get_uint_le 1 buf) λ (header, storage).
      if not (header == 0)
      then err (protocol "exepcted 0x00 (ROW) but found 0x{:02x}" (header ∷ []))
      else binary_row columns storage
