-- ===== src/Mysql/Column.antt =====
-- rbdc-mysql/src/protocol/text/column.rs: the types of columns and the definition of a column.
pub mod Flags
pub mod Laws
use rbdc.Base.{
  ℕ, List, [], ◌∷◌, Option, none, some, Bytes, Error, protocol, Outcome, ok, err, panic, Reader,
  ◌>>=◌, pure, value_of, match_number,
}
use rbdc.Crates.{Crates}
use rbdc.Io.{from_utf8}
use rbdc.Mysql.Column.Flags
use rbdc.Mysql.Lenenc.{get_uint_lenenc, get_bytes_lenenc}

pub data ColumnType : Type 0 where
  decimal tiny short long float double : ColumnType
  null timestamp long_long int24 date time : ColumnType
  datetime year var_char bit json new_decimal : ColumnType
  enum set tiny_blob medium_blob long_blob blob : ColumnType
  var_string string geometry : ColumnType

-- `self as u8`
unfoldable pub type_id : ColumnType → ℕ
type_id ColumnType.decimal = 0x00
type_id ColumnType.tiny = 0x01
type_id ColumnType.short = 0x02
type_id ColumnType.long = 0x03
type_id ColumnType.float = 0x04
type_id ColumnType.double = 0x05
type_id ColumnType.null = 0x06
type_id ColumnType.timestamp = 0x07
type_id ColumnType.long_long = 0x08
type_id ColumnType.int24 = 0x09
type_id ColumnType.date = 0x0a
type_id ColumnType.time = 0x0b
type_id ColumnType.datetime = 0x0c
type_id ColumnType.year = 0x0d
type_id ColumnType.var_char = 0x0f
type_id ColumnType.bit = 0x10
type_id ColumnType.json = 0xf5
type_id ColumnType.new_decimal = 0xf6
type_id ColumnType.enum = 0xf7
type_id ColumnType.set = 0xf8
type_id ColumnType.tiny_blob = 0xf9
type_id ColumnType.medium_blob = 0xfa
type_id ColumnType.long_blob = 0xfb
type_id ColumnType.blob = 0xfc
type_id ColumnType.var_string = 0xfd
type_id ColumnType.string = 0xfe
type_id ColumnType.geometry = 0xff

-- The arms of the `match`, in their order.
abbrev pub type_arms : List (ℕ × ColumnType)
type_arms =
    (0x00, ColumnType.decimal)
    ∷ (0x01, ColumnType.tiny)
    ∷ (0x02, ColumnType.short)
    ∷ (0x03, ColumnType.long)
    ∷ (0x04, ColumnType.float)
    ∷ (0x05, ColumnType.double)
    ∷ (0x06, ColumnType.null)
    ∷ (0x07, ColumnType.timestamp)
    ∷ (0x08, ColumnType.long_long)
    ∷ (0x09, ColumnType.int24)
    ∷ (0x0a, ColumnType.date)
    ∷ (0x0b, ColumnType.time)
    ∷ (0x0c, ColumnType.datetime)
    ∷ (0x0d, ColumnType.year)
    ∷ (0x0f, ColumnType.var_char)
    ∷ (0x10, ColumnType.bit)
    ∷ (0xf5, ColumnType.json)
    ∷ (0xf6, ColumnType.new_decimal)
    ∷ (0xf7, ColumnType.enum)
    ∷ (0xf8, ColumnType.set)
    ∷ (0xf9, ColumnType.tiny_blob)
    ∷ (0xfa, ColumnType.medium_blob)
    ∷ (0xfb, ColumnType.long_blob)
    ∷ (0xfc, ColumnType.blob)
    ∷ (0xfd, ColumnType.var_string)
    ∷ (0xfe, ColumnType.string)
    ∷ (0xff, ColumnType.geometry)
    ∷ []

abbrev pub known : ℕ → Option ColumnType → Outcome ColumnType
known id none = err (protocol "unknown column type 0x{:02x}" (id ∷ []))
known id (some t) = ok t

unfoldable pub try_from_u16 : ℕ → Outcome ColumnType
unfolding match_number
try_from_u16 id = known id (match_number id type_arms)

pub record ColumnDefinition : Type 0 where
  pub catalog : Bytes
  pub schema : Bytes
  pub table_alias : Bytes
  pub table : Bytes
  pub alias : Bytes
  pub name : Bytes
  pub char_set : ℕ
  pub max_size : ℕ
  pub type : ColumnType
  pub flags : ℕ
  pub decimals : ℕ

-- The texts of a column, which the client's character set makes UTF-8.
pub column_name : ColumnDefinition → Outcome Bytes
column_name column = from_utf8 column.name

pub column_alias : ColumnDefinition → Outcome Bytes
column_alias column = from_utf8 column.alias

abbrev pub typed : ℕ → Reader ColumnType
typed id bs = elim (try_from_u16 id) [ ok t ↦ ok (t, bs) | err e ↦ err e | panic ↦ panic ]

module _ (c : Crates) where
  open c use {get_uint_le, from_bits_truncate}

  definition_reader : Reader ColumnDefinition
  definition_reader = do
    catalog ← get_bytes_lenenc c
    schema ← get_bytes_lenenc c
    table_alias ← get_bytes_lenenc c
    table ← get_bytes_lenenc c
    alias ← get_bytes_lenenc c
    name ← get_bytes_lenenc c
    _next_len ← get_uint_lenenc c
    char_set ← get_uint_le 2
    max_size ← get_uint_le 4
    type_id ← get_uint_le 1
    flags ← get_uint_le 2
    decimals ← get_uint_le 1
    t ← typed type_id
    pure (record {
      catalog = catalog;
      schema = schema;
      table_alias = table_alias;
      table = table;
      alias = alias;
      name = name;
      char_set = char_set;
      max_size = max_size;
      type = t;
      flags = from_bits_truncate Flags.all flags;
      decimals = decimals;
    })

  unfoldable pub decode_definition : Bytes → Outcome ColumnDefinition
  unfolding definition_reader
  decode_definition buf = value_of (definition_reader buf)
