-- ===== src/Postgres/TypeInfo/Kinds.antt =====
-- `PgType::kind` of rbdc-pg/src/type_info.rs.
use rbdc.Base.{◌≡◌, refl, Outcome, ok, panic, and_then}
use rbdc.Postgres.TypeInfo.{PgType, custom_type, PgTypeKind, type_info}
use rbdc.Postgres.TypeInfo.Arrays.{element, try_array_element}

-- "use of unresolved type declaration" is a panic.
unfoldable pub kind : PgType → Outcome PgTypeKind
kind PgType.bool = ok PgTypeKind.simple
kind PgType.bytea = ok PgTypeKind.simple
kind PgType.char = ok PgTypeKind.simple
kind PgType.name = ok PgTypeKind.simple
kind PgType.int8 = ok PgTypeKind.simple
kind PgType.int2 = ok PgTypeKind.simple
kind PgType.int4 = ok PgTypeKind.simple
kind PgType.text = ok PgTypeKind.simple
kind PgType.oid = ok PgTypeKind.simple
kind PgType.json = ok PgTypeKind.simple
kind PgType.json_array = ok (PgTypeKind.array (type_info PgType.json))
kind PgType.point = ok PgTypeKind.simple
kind PgType.lseg = ok PgTypeKind.simple
kind PgType.path = ok PgTypeKind.simple
kind PgType.box = ok PgTypeKind.simple
kind PgType.polygon = ok PgTypeKind.simple
kind PgType.line = ok PgTypeKind.simple
kind PgType.line_array = ok (PgTypeKind.array (type_info PgType.line))
kind PgType.cidr = ok PgTypeKind.simple
kind PgType.cidr_array = ok (PgTypeKind.array (type_info PgType.cidr))
kind PgType.float4 = ok PgTypeKind.simple
kind PgType.float8 = ok PgTypeKind.simple
kind PgType.unknown = ok PgTypeKind.simple
kind PgType.circle = ok PgTypeKind.simple
kind PgType.circle_array = ok (PgTypeKind.array (type_info PgType.circle))
kind PgType.macaddr8 = ok PgTypeKind.simple
kind PgType.macaddr8_array = ok (PgTypeKind.array (type_info PgType.macaddr8))
kind PgType.macaddr = ok PgTypeKind.simple
kind PgType.inet = ok PgTypeKind.simple
kind PgType.bool_array = ok (PgTypeKind.array (type_info PgType.bool))
kind PgType.bytea_array = ok (PgTypeKind.array (type_info PgType.bytea))
kind PgType.char_array = ok (PgTypeKind.array (type_info PgType.char))
kind PgType.name_array = ok (PgTypeKind.array (type_info PgType.name))
kind PgType.int2_array = ok (PgTypeKind.array (type_info PgType.int2))
kind PgType.int4_array = ok (PgTypeKind.array (type_info PgType.int4))
kind PgType.text_array = ok (PgTypeKind.array (type_info PgType.text))
kind PgType.bpchar_array = ok (PgTypeKind.array (type_info PgType.bpchar))
kind PgType.varchar_array = ok (PgTypeKind.array (type_info PgType.varchar))
kind PgType.int8_array = ok (PgTypeKind.array (type_info PgType.int8))
kind PgType.point_array = ok (PgTypeKind.array (type_info PgType.point))
kind PgType.lseg_array = ok (PgTypeKind.array (type_info PgType.lseg))
kind PgType.path_array = ok (PgTypeKind.array (type_info PgType.path))
kind PgType.box_array = ok (PgTypeKind.array (type_info PgType.box))
kind PgType.float4_array = ok (PgTypeKind.array (type_info PgType.float4))
kind PgType.float8_array = ok (PgTypeKind.array (type_info PgType.float8))
kind PgType.polygon_array = ok (PgTypeKind.array (type_info PgType.polygon))
kind PgType.oid_array = ok (PgTypeKind.array (type_info PgType.oid))
kind PgType.macaddr_array = ok (PgTypeKind.array (type_info PgType.macaddr))
kind PgType.inet_array = ok (PgTypeKind.array (type_info PgType.inet))
kind PgType.bpchar = ok PgTypeKind.simple
kind PgType.varchar = ok PgTypeKind.simple
kind PgType.date = ok PgTypeKind.simple
kind PgType.time = ok PgTypeKind.simple
kind PgType.timestamp = ok PgTypeKind.simple
kind PgType.timestamp_array = ok (PgTypeKind.array (type_info PgType.timestamp))
kind PgType.date_array = ok (PgTypeKind.array (type_info PgType.date))
kind PgType.time_array = ok (PgTypeKind.array (type_info PgType.time))
kind PgType.timestamptz = ok PgTypeKind.simple
kind PgType.timestamptz_array = ok (PgTypeKind.array (type_info PgType.timestamptz))
kind PgType.interval = ok PgTypeKind.simple
kind PgType.interval_array = ok (PgTypeKind.array (type_info PgType.interval))
kind PgType.numeric_array = ok (PgTypeKind.array (type_info PgType.numeric))
kind PgType.timetz = ok PgTypeKind.simple
kind PgType.timetz_array = ok (PgTypeKind.array (type_info PgType.timetz))
kind PgType.bit = ok PgTypeKind.simple
kind PgType.bit_array = ok (PgTypeKind.array (type_info PgType.bit))
kind PgType.varbit = ok PgTypeKind.simple
kind PgType.varbit_array = ok (PgTypeKind.array (type_info PgType.varbit))
kind PgType.numeric = ok PgTypeKind.simple
kind PgType.record_type = ok PgTypeKind.simple
kind PgType.record_type_array = ok (PgTypeKind.array (type_info PgType.record_type))
kind PgType.uuid = ok PgTypeKind.simple
kind PgType.uuid_array = ok (PgTypeKind.array (type_info PgType.uuid))
kind PgType.jsonb = ok PgTypeKind.simple
kind PgType.jsonb_array = ok (PgTypeKind.array (type_info PgType.jsonb))
kind PgType.int4_range = ok (PgTypeKind.range (type_info PgType.int4))
kind PgType.int4_range_array = ok (PgTypeKind.array (type_info PgType.int4_range))
kind PgType.num_range = ok (PgTypeKind.range (type_info PgType.numeric))
kind PgType.num_range_array = ok (PgTypeKind.array (type_info PgType.num_range))
kind PgType.ts_range = ok (PgTypeKind.range (type_info PgType.timestamp))
kind PgType.ts_range_array = ok (PgTypeKind.array (type_info PgType.ts_range))
kind PgType.tstz_range = ok (PgTypeKind.range (type_info PgType.timestamptz))
kind PgType.tstz_range_array = ok (PgTypeKind.array (type_info PgType.tstz_range))
kind PgType.date_range = ok (PgTypeKind.range (type_info PgType.date))
kind PgType.date_range_array = ok (PgTypeKind.array (type_info PgType.date_range))
kind PgType.int8_range = ok (PgTypeKind.range (type_info PgType.int8))
kind PgType.int8_range_array = ok (PgTypeKind.array (type_info PgType.int8_range))
kind PgType.jsonpath = ok PgTypeKind.simple
kind PgType.jsonpath_array = ok (PgTypeKind.array (type_info PgType.jsonpath))
kind PgType.money = ok PgTypeKind.simple
kind PgType.money_array = ok (PgTypeKind.array (type_info PgType.money))
kind PgType.hstore = ok PgTypeKind.simple
kind PgType.hstore_array = ok (PgTypeKind.array (type_info PgType.hstore))
kind PgType.tsvector = ok PgTypeKind.simple
kind PgType.tsquery = ok PgTypeKind.simple
kind PgType.void = ok PgTypeKind.pseudo
kind (PgType.custom (custom_type oid name k)) = ok k
kind (PgType.declare_with_oid oid) = panic
kind (PgType.declare_with_name name) = panic

-- The array element of a type is what its kind names, and none if the kind is not an array. Both
-- panic on the same types.
pub try_array_element-kind :
    (t : PgType) → try_array_element t ≡ and_then (kind t) (λ k. ok (element k))
unfolding try_array_element kind
try_array_element-kind PgType.bool = refl
try_array_element-kind (PgType.custom (custom_type oid name k)) = refl
try_array_element-kind _ = refl
