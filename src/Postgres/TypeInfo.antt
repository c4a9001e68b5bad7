-- ===== src/Postgres/TypeInfo.antt =====
-- rbdc-pg/src/type_info.rs: the types of PostgreSQL. A text that the source shares is its value.
pub mod Oids
pub mod Names
pub mod Kinds
pub mod Arrays
pub mod ArrayTypes
pub mod Laws
pub mod Compare
use rbdc.Base.{ℕ, String, List}

mutual
  pub data PgType : Type 0 where
    bool bytea char name int8 int2 int4 text oid json json_array point lseg path box : PgType
    polygon line line_array cidr cidr_array float4 float8 unknown circle circle_array : PgType
    macaddr8 macaddr8_array macaddr inet bool_array bytea_array char_array name_array : PgType
    int2_array int4_array text_array bpchar_array varchar_array int8_array point_array : PgType
    lseg_array path_array box_array float4_array float8_array polygon_array oid_array : PgType
    macaddr_array inet_array bpchar varchar date time timestamp timestamp_array : PgType
    date_array time_array timestamptz timestamptz_array interval interval_array : PgType
    numeric_array timetz timetz_array bit bit_array varbit varbit_array numeric : PgType
    record_type record_type_array uuid uuid_array jsonb jsonb_array int4_range : PgType
    int4_range_array num_range num_range_array ts_range ts_range_array tstz_range : PgType
    tstz_range_array date_range date_range_array int8_range int8_range_array jsonpath : PgType
    jsonpath_array money money_array hstore hstore_array tsvector tsquery void : PgType
    -- a realized user-defined type
    custom : PgCustomType → PgType
    declare_with_name : String → PgType
    declare_with_oid : ℕ → PgType

  -- its oid, its name and its kind
  pub data PgCustomType : Type 0 where
    custom_type : ℕ → String → PgTypeKind → PgCustomType

  pub data PgTypeKind : Type 0 where
    simple pseudo : PgTypeKind
    domain : PgTypeInfo → PgTypeKind
    composite : Fields → PgTypeKind
    array : PgTypeInfo → PgTypeKind
    enumeration : List String → PgTypeKind
    range : PgTypeInfo → PgTypeKind

  pub data PgTypeInfo : Type 0 where
    type_info : PgType → PgTypeInfo

  -- the named fields of a composite type
  pub data Fields : Type 0 where
    no_fields : Fields
    field : String → PgTypeInfo → Fields → Fields

-- The types that the source names, and no user-defined or unresolved one.
abbrev pub IsBuiltin : PgType → Type 0
IsBuiltin (PgType.custom t) = ⊥
IsBuiltin (PgType.declare_with_name n) = ⊥
IsBuiltin (PgType.declare_with_oid o) = ⊥
IsBuiltin _ = Unit
