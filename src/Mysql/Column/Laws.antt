-- ===== src/Mysql/Column/Laws.antt =====
-- The types of columns and their numbers, and a column definition that a server sent.
use rbdc.Base.{
  ℕ, ◌^◌, ◌<◌, ◌≡◌, ◌↔◌, refl, [], ◌∷◌, ◌++◌, Option, none, some, arith, Bytes, length, le_bytes,
  ok, match_number, numbers_agree, match_number-number,
}
use rbdc.Crates.{Crates, Documented}
use rbdc.Io.Laws.{get_uint_le-le_bytes}
use rbdc.Mysql.Column.{
  ColumnType, type_id, type_arms, known, try_from_u16, ColumnDefinition, decode_definition,
}
use rbdc.Mysql.Column.Flags
use rbdc.Mysql.Lenenc.{put_uint_lenenc, put_bytes_lenenc}
use rbdc.Mysql.Lenenc.Laws.{
  get_uint_lenenc-put_uint_lenenc, get_bytes_lenenc-put_bytes_lenenc, one_byte,
}

type_found : (t : ColumnType) → try_from_u16 (type_id t) ≡ ok t
unfolding try_from_u16 type_id
type_found ColumnType.decimal = refl
type_found _ = refl

known-eq_ok : (id : ℕ) (o : Option ColumnType) (t : ColumnType) → known id o ≡ ok t → o ≡ some t
known-eq_ok id none t e = cc
known-eq_ok id (some u) t e = cc

-- A number is recognized as a type exactly if it is the number of that type.
pub try_from_u16-type_id : (id : ℕ) (t : ColumnType) → (try_from_u16 id ≡ ok t) ↔ (id ≡ type_id t)
unfolding try_from_u16 numbers_agree type_id
try_from_u16-type_id id t = (
  (λ e.
      match_number-number type_id id type_arms t refl
        (known-eq_ok id (match_number id type_arms) t e)),
  (λ e. rw e (type_found t)),
)

-- The fields of a column definition fit their widths.
pub record Fits (column : ColumnDefinition) : Type 0 where
  pub catalog : length column.catalog < 2 ^ 64
  pub schema : length column.schema < 2 ^ 64
  pub table_alias : length column.table_alias < 2 ^ 64
  pub table : length column.table < 2 ^ 64
  pub alias : length column.alias < 2 ^ 64
  pub name : length column.name < 2 ^ 64
  pub char_set : column.char_set < 2 ^ 16
  pub max_size : column.max_size < 2 ^ 32
  pub flags : column.flags < 2 ^ 16
  pub decimals : column.decimals < 2 ^ 8

-- The numbers behind the names.
abbrev pub numbers_layout : ColumnDefinition → Bytes → Bytes
numbers_layout column rest =
    le_bytes 2 column.char_set
    ++ (le_bytes 4 column.max_size
        ++ (type_id column.type ∷ (le_bytes 2 column.flags ++ (column.decimals ∷ rest))))

-- A column definition as the protocol lays it out.
abbrev pub definition_layout : ColumnDefinition → ℕ → Bytes → Bytes
definition_layout column next_len rest =
    put_bytes_lenenc [] column.catalog
    ++ (put_bytes_lenenc [] column.schema
        ++ (put_bytes_lenenc [] column.table_alias
            ++ (put_bytes_lenenc [] column.table
                ++ (put_bytes_lenenc [] column.alias
                    ++ (put_bytes_lenenc [] column.name
                        ++ (put_uint_lenenc [] next_len ++ numbers_layout column rest))))))

type_id_lt : (t : ColumnType) → type_id t < 256
unfolding type_id
type_id_lt ColumnType.decimal = omega arith
type_id_lt _ = omega arith

module _ (c : Crates) (d : Documented c) where
  -- A column definition whose fields fit their widths is read back from its layout, its flags as those
  -- that the driver knows, whatever follows.
  pub decode_definition-layout :
      (column : ColumnDefinition) (next_len : ℕ) (rest : Bytes)
      → Fits column
      → next_len < 2 ^ 64
      → decode_definition c (definition_layout column next_len rest)
        ≡ ok (record column { flags = c.from_bits_truncate Flags.all column.flags })
  unfolding decode_definition
  decode_definition-layout column next_len rest f hn =
      let numbers = numbers_layout column rest in
      let next = put_uint_lenenc [] next_len ++ numbers in
      let name = put_bytes_lenenc [] column.name ++ next in
      let alias = put_bytes_lenenc [] column.alias ++ name in
      let table = put_bytes_lenenc [] column.table ++ alias in
      let table_alias = put_bytes_lenenc [] column.table_alias ++ table in
      let schema = put_bytes_lenenc [] column.schema ++ table_alias in
      let tail = le_bytes 2 column.flags ++ (column.decimals ∷ rest) in
      ground (
        arith,
        get_bytes_lenenc-put_bytes_lenenc c d column.catalog schema f.catalog,
        get_bytes_lenenc-put_bytes_lenenc c d column.schema table_alias f.schema,
        get_bytes_lenenc-put_bytes_lenenc c d column.table_alias table f.table_alias,
        get_bytes_lenenc-put_bytes_lenenc c d column.table alias f.table,
        get_bytes_lenenc-put_bytes_lenenc c d column.alias name f.alias,
        get_bytes_lenenc-put_bytes_lenenc c d column.name next f.name,
        get_uint_lenenc-put_uint_lenenc c d next_len numbers hn,
        get_uint_le-le_bytes c d 2 column.char_set
            (le_bytes 4 column.max_size ++ (type_id column.type ∷ tail)) f.char_set,
        get_uint_le-le_bytes c d 4 column.max_size (type_id column.type ∷ tail) f.max_size,
        one_byte c d (type_id column.type) tail (type_id_lt column.type),
        get_uint_le-le_bytes c d 2 column.flags (column.decimals ∷ rest) f.flags,
        one_byte c d column.decimals rest f.decimals,
        type_found column.type,
      )
