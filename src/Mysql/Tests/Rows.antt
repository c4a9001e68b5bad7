-- ===== src/Mysql/Tests/Rows.antt =====
-- Columns, statements and rows of the binary protocol on concrete inputs.
use rbdc.Base.{
  ℕ, ◌+◌, ◌/◌, ◌≡◌, refl, ◌↔◌, List, [], ◌∷◌, ◌++◌, arith, Bytes, length, Option, some, none, ok,
}
use rbdc.Base.Bits.{bit_at}
use rbdc.Crates.{reference, reference-Documented}
use rbdc.Mysql.BinaryRow.{MySqlColumn, decode_binary, size_of}
use rbdc.Mysql.BinaryRow.Bounds.{NoPanic, HasPlain, decode_binary-NoPanic}
use rbdc.Mysql.BinaryRow.Laws.{AllSized, form_of, encode_values, decode_binary-encode_values}
use rbdc.Mysql.Column.{ColumnType, type_id, try_from_u16, ColumnDefinition, decode_definition}
use rbdc.Mysql.Column.Flags
use rbdc.Mysql.Column.Laws.{try_from_u16-type_id, definition_layout, decode_definition-layout}
use rbdc.Mysql.Row.{Row, get}
use rbdc.Mysql.Row.Laws.{value_at}
use rbdc.Mysql.Statement.{
  from_type, null_type, Argument, MySqlArguments, empty, add, from_args, encode_execute,
}
use rbdc.Mysql.Statement.Laws.{
  MarksNulls, null_at, execute_head, types_of, read_types, add-MarksNulls, encode_execute-from_args,
  empty-MarksNulls,
}

try_from_u16-type_id_example :
    (try_from_u16 0x0c ≡ ok ColumnType.datetime) ↔ (0x0c ≡ type_id ColumnType.datetime)
try_from_u16-type_id_example = try_from_u16-type_id 0x0c ColumnType.datetime

abbrev a_column : ColumnDefinition
a_column = record {
  catalog = b'd' ∷ [];
  schema = b's' ∷ [];
  table_alias = b't' ∷ [];
  table = b't' ∷ [];
  alias = b'a' ∷ [];
  name = b'n' ∷ [];
  char_set = 45;
  max_size = 1020;
  type = ColumnType.var_string;
  flags = 1;
  decimals = 0;
}

decode_definition-layout_example :
    decode_definition reference (definition_layout a_column 0x0c [])
    ≡ ok (record a_column { flags = reference.from_bits_truncate Flags.all 1 })
decode_definition-layout_example =
    decode_definition-layout reference reference-Documented a_column 0x0c []
      (record {
        catalog = omega arith;
        schema = omega arith;
        table_alias = omega arith;
        table = omega arith;
        alias = omega arith;
        name = omega arith;
        char_set = omega arith;
        max_size = omega arith;
        flags = omega arith;
        decimals = omega arith;
      })
      (omega arith)

-- A NULL, and the number 7.
abbrev null_argument : Argument
null_argument = record { type_info = null_type; encode = λ buf. ok (buf ++ []) }

abbrev seven : Argument
seven = record { type_info = from_type ColumnType.tiny; encode = λ buf. ok (buf ++ 7 ∷ []) }

abbrev bytes_of : Argument → Bytes
bytes_of arg = elim arg.type_info.type [ ColumnType.tiny ↦ 7 ∷ [] | _ ↦ [] ]

add-MarksNulls_example :
    (more : MySqlArguments) × (add empty null_argument ≡ ok more)
    × (more.values ≡ [])
    × (more.types ≡ [] ++ null_type ∷ [])
    × MarksNulls more
add-MarksNulls_example = add-MarksNulls empty null_argument [] empty-MarksNulls refl

encode_execute-from_args_example :
    (arguments : MySqlArguments) × (sent : Bytes) × (from_args (seven ∷ null_argument ∷ [])
      ≡ ok arguments)
    × (encode_execute (record { statement_id = 3; arguments = arguments }) []
        ≡ [] ++ (execute_head 3 ++ (arguments.null_bitmap ++ (1 ∷ sent))))
    × (read_types 2 sent ≡ some (ColumnType.tiny ∷ ColumnType.null ∷ [], 7 ∷ []))
    × (length arguments.null_bitmap ≡ (length (null_argument ∷ []) + 8) / 8)
    × ((i : ℕ) → bit_at arguments.null_bitmap i ≡ null_at (types_of (seven ∷ null_argument ∷ [])) i)
encode_execute-from_args_example =
    encode_execute-from_args bytes_of 3 [] seven (null_argument ∷ [])
      (record { written = λ buf. refl }, (record { written = λ buf. refl }, tt))

abbrev column : ColumnType → MySqlColumn
column ty = record { ordinal = 0; name = []; type_info = from_type ty }

abbrev columns : List MySqlColumn
columns = column ColumnType.var_char ∷ column ColumnType.date ∷ column ColumnType.short ∷ []

abbrev row_values : List (Option Bytes)
row_values = some (b'h' ∷ b'i' ∷ []) ∷ none ∷ some (1 ∷ 2 ∷ []) ∷ []

row_values-AllSized : AllSized columns row_values
unfolding form_of
row_values-AllSized = (omega arith, (refl, tt))

decode_binary-encode_values_example :
    (row : Row) × (decode_binary reference columns
        (0 ∷ ((8 ∷ []) ++ encode_values columns row_values))
      ≡ ok row)
    × (row.storage ≡ row_values)
    × (get row 2 ≡ ok (value_at row_values 2))
decode_binary-encode_values_example =
    decode_binary-encode_values reference reference-Documented columns row_values (8 ∷ []) 2
      row_values-AllSized (omega arith, tt) refl (refl, (refl, (refl, tt)))

abbrev plain_column : MySqlColumn
plain_column = column ColumnType.date

plain_column-HasPlain : HasPlain plain_column
unfolding size_of
plain_column-HasPlain = tt

decode_binary-NoPanic_example :
    NoPanic (decode_binary reference (plain_column ∷ []) (0 ∷ 0 ∷ 4 ∷ 1 ∷ []))
decode_binary-NoPanic_example =
    decode_binary-NoPanic reference reference-Documented (plain_column ∷ []) 0 (0 ∷ 4 ∷ 1 ∷ [])
      (omega arith) (plain_column-HasPlain, tt)
