-- ===== src/Mysql/Statement.antt =====
-- rbdc-mysql/src/stmt.rs, rbdc-mysql/src/result_set.rs, rbdc-mysql/src/protocol/statement and the commands of
-- rbdc-mysql/src/protocol/text: the arguments of a prepared statement and the packets of the commands.
pub mod Laws
use Prim.Native.Nat.{bit_or}
use rbdc.Base.{
  ℕ, ◌+◌, ◌-◌, ◌/◌, ◌%◌, ◌^◌, Bool, true, false, not, List, [], ◌∷◌, ◌++◌, Option, none, some, ◌==◌,
  if◌then◌else◌, Bytes, length, take, get_elem?, set, replicate, le_bytes, protocol, Outcome, ok,
  err, panic, and_then, Reader, pure, fail, ◌>>=◌, ◌>>◌, value_of,
}
use rbdc.Crates.{Crates}
use rbdc.Mysql.Column.{ColumnType, type_id, ColumnDefinition}

pub record MySqlTypeInfo : Type 0 where
  pub type : ColumnType
  pub char_set : ℕ

abbrev pub is_null : MySqlTypeInfo → Bool
is_null ty = elim ty.type [ ColumnType.null ↦ true | _ ↦ false ]

abbrev pub null_type : MySqlTypeInfo
null_type = record { type = ColumnType.null; char_set = 63 }

abbrev pub from_type : ColumnType → MySqlTypeInfo
from_type ty = record { type = ty; char_set = 63 }

abbrev pub from_column : ColumnDefinition → MySqlTypeInfo
from_column column = record { type = column.type; char_set = column.char_set }

-- A value by the methods of its traits `TypeInfo` and `Encode`: its type, and its writing at the end of
-- a buffer.
pub record Argument : Type 0 where
  pub type_info : MySqlTypeInfo
  pub encode : Bytes → Outcome Bytes

pub record MySqlArguments : Type 0 where
  pub values : Bytes
  pub types : List MySqlTypeInfo
  pub null_bitmap : Bytes

abbrev pub empty : MySqlArguments
empty = record { values = []; types = []; null_bitmap = [] }

-- `Vec::resize(n, 0)`
unfoldable pub resize : ℕ → Bytes → Bytes
resize n bs = take n bs ++ replicate (n - length bs) 0

-- `bs[i] |= mask`
unfoldable pub or_at : Bytes → ℕ → ℕ → Outcome Bytes
or_at bs i mask = elim (get_elem? bs i) [ none ↦ panic | some b ↦ ok (set bs i (bit_or b mask)) ]

unfoldable pub add : MySqlArguments → Argument → Outcome MySqlArguments
add self arg =
    let index = length self.types in
    let ty = arg.type_info in
    and_then (arg.encode self.values) λ values.
      let types = self.types ++ ty ∷ [] in
      let bitmap = resize (index / 8 + 1) self.null_bitmap in
      if is_null ty
      then (and_then (or_at bitmap (index / 8) (2 ^ (index % 8)))
          λ marked. ok (record { values = values; types = types; null_bitmap = marked }))
      else ok (record { values = values; types = types; null_bitmap = bitmap })

-- The loop over the arguments.
add_all : MySqlArguments → List Argument → Outcome MySqlArguments
unfolding add
add_all arg [] = ok arg
add_all arg (x ∷ xs) = elim (add arg x) [
  | ok more ↦ add_all more xs
  | err e ↦ err e
  | panic ↦ panic
]

unfoldable pub from_args : List Argument → Outcome MySqlArguments
unfolding add_all
from_args args = add_all empty args

pub record Execute : Type 0 where
  pub statement_id : ℕ
  pub arguments : MySqlArguments

-- The types that are sent, each with a byte of flags.
unfoldable pub type_bytes : List MySqlTypeInfo → Bytes
type_bytes [] = []
type_bytes (ty ∷ types) = type_id ty.type ∷ 0 ∷ type_bytes types

execute_arguments : MySqlArguments → Bytes
unfolding type_bytes
execute_arguments arguments = elim arguments.types [
  | [] ↦ []
  | _ ↦ arguments.null_bitmap ++ (1 ∷ (type_bytes arguments.types ++ arguments.values))
]

unfoldable pub encode_execute : Execute → Bytes → Bytes
unfolding execute_arguments
encode_execute self buf =
    (((((buf ++ 0x17 ∷ []) ++ le_bytes 4 self.statement_id) ++ 0 ∷ []) ++ le_bytes 4 1)
      ++ execute_arguments self.arguments)

pub encode_prepare : Bytes → Bytes → Bytes
encode_prepare query buf = (buf ++ 0x16 ∷ []) ++ query

unfoldable pub encode_stmt_close : ℕ → Bytes → Bytes
encode_stmt_close statement buf = (buf ++ 0x19 ∷ []) ++ le_bytes 4 statement

pub encode_query : Bytes → Bytes → Bytes
encode_query query buf = (buf ++ 0x03 ∷ []) ++ query

pub encode_ping : Bytes → Bytes
encode_ping buf = buf ++ 0x0e ∷ []

pub encode_quit : Bytes → Bytes
encode_quit buf = buf ++ 0x01 ∷ []

pub record PrepareOk : Type 0 where
  pub statement_id : ℕ
  pub columns : ℕ
  pub params : ℕ
  pub warnings : ℕ

module _ (c : Crates) where
  open c use {get_uint_le, advance}

  prepare_ok_reader : Reader PrepareOk
  prepare_ok_reader = do
    status ← get_uint_le 1
    (if not (status == 0x00)
        then fail (protocol "expected 0x00 (COM_STMT_PREPARE_OK) but found 0x{:02x}" (status ∷ []))
        else do
          statement_id ← get_uint_le 4
          columns ← get_uint_le 2
          params ← get_uint_le 2
          advance 1
          warnings ← get_uint_le 2
          pure (record {
            statement_id = statement_id;
            columns = columns;
            params = params;
            warnings = warnings;
          }))

  unfoldable pub decode_prepare_ok : Bytes → Outcome PrepareOk
  unfolding prepare_ok_reader
  decode_prepare_ok buf = value_of (prepare_ok_reader buf)
