-- ===== src/Postgres/TypeInfo/Arrays.antt =====
-- `PgType::try_array_element` and `to_array_element` of rbdc-pg/src/type_info.rs.
use rbdc.Base.{Option, none, some, Outcome, ok, panic}
use rbdc.Postgres.TypeInfo.{PgType, custom_type, PgTypeKind, PgTypeInfo, type_info}

-- The element of a user-defined type.
abbrev pub element : PgTypeKind → Option PgTypeInfo
element (PgTypeKind.array t) = some t
element _ = none

-- "use of unresolved type declaration" is a panic.
unfoldable pub try_array_element : PgType → Outcome (Option PgTypeInfo)
try_array_element PgType.bool = ok none
try_array_element PgType.bool_array = ok (some (type_info PgType.bool))
try_array_element PgType.bytea = ok none
try_array_element PgType.bytea_array = ok (some (type_info PgType.bytea))
try_array_element PgType.char = ok none
try_array_element PgType.char_array = ok (some (type_info PgType.char))
try_array_element PgType.name = ok none
try_array_element PgType.name_array = ok (some (type_info PgType.name))
try_array_element PgType.int8 = ok none
try_array_element PgType.int8_array = ok (some (type_info PgType.int8))
try_array_element PgType.int2 = ok none
try_array_element PgType.int2_array = ok (some (type_info PgType.int2))
try_array_element PgType.int4 = ok none
try_array_element PgType.int4_array = ok (some (type_info PgType.int4))
try_array_element PgType.text = ok none
try_array_element PgType.text_array = ok (some (type_info PgType.text))
try_array_element PgType.oid = ok none
try_array_element PgType.oid_array = ok (some (type_info PgType.oid))
try_array_element PgType.json = ok none
try_array_element PgType.json_array = ok (some (type_info PgType.json))
try_array_element PgType.point = ok none
try_array_element PgType.point_array = ok (some (type_info PgType.point))
try_array_element PgType.lseg = ok none
try_array_element PgType.lseg_array = ok (some (type_info PgType.lseg))
try_array_element PgType.path = ok none
try_array_element PgType.path_array = ok (some (type_info PgType.path))
try_array_element PgType.box = ok none
try_array_element PgType.box_array = ok (some (type_info PgType.box))
try_array_element PgType.polygon = ok none
try_array_element PgType.polygon_array = ok (some (type_info PgType.polygon))
try_array_element PgType.line = ok none
try_array_element PgType.line_array = ok (some (type_info PgType.line))
try_array_element PgType.cidr = ok none
try_array_element PgType.cidr_array = ok (some (type_info PgType.cidr))
try_array_element PgType.float4 = ok none
try_array_element PgType.float4_array = ok (some (type_info PgType.float4))
try_array_element PgType.float8 = ok none
try_array_element PgType.float8_array = ok (some (type_info PgType.float8))
try_array_element PgType.circle = ok none
try_array_element PgType.circle_array = ok (some (type_info PgType.circle))
try_array_element PgType.macaddr8 = ok none
try_array_element PgType.macaddr8_array = ok (some (type_info PgType.macaddr8))
try_array_element PgType.money = ok none
try_array_element PgType.money_array = ok (some (type_info PgType.money))
try_array_element PgType.hstore = ok none
try_array_element PgType.hstore_array = ok (some (type_info PgType.hstore))
try_array_element PgType.tsvector = ok none
try_array_element PgType.tsquery = ok none
try_array_element PgType.macaddr = ok none
try_array_element PgType.macaddr_array = ok (some (type_info PgType.macaddr))
try_array_element PgType.inet = ok none
try_array_element PgType.inet_array = ok (some (type_info PgType.inet))
try_array_element PgType.bpchar = ok none
try_array_element PgType.bpchar_array = ok (some (type_info PgType.bpchar))
try_array_element PgType.varchar = ok none
try_array_element PgType.varchar_array = ok (some (type_info PgType.varchar))
try_array_element PgType.date = ok none
try_array_element PgType.date_array = ok (some (type_info PgType.date))
try_array_element PgType.time = ok none
try_array_element PgType.time_array = ok (some (type_info PgType.time))
try_array_element PgType.timestamp = ok none
try_array_element PgType.timestamp_array = ok (some (type_info PgType.timestamp))
try_array_element PgType.timestamptz = ok none
try_array_element PgType.timestamptz_array = ok (some (type_info PgType.timestamptz))
try_array_element PgType.interval = ok none
try_array_element PgType.interval_array = ok (some (type_info PgType.interval))
try_array_element PgType.timetz = ok none
try_array_element PgType.timetz_array = ok (some (type_info PgType.timetz))
try_array_element PgType.bit = ok none
try_array_element PgType.bit_array = ok (some (type_info PgType.bit))
try_array_element PgType.varbit = ok none
try_array_element PgType.varbit_array = ok (some (type_info PgType.varbit))
try_array_element PgType.numeric = ok none
try_array_element PgType.numeric_array = ok (some (type_info PgType.numeric))
try_array_element PgType.record_type = ok none
try_array_element PgType.record_type_array = ok (some (type_info PgType.record_type))
try_array_element PgType.uuid = ok none
try_array_element PgType.uuid_array = ok (some (type_info PgType.uuid))
try_array_element PgType.jsonb = ok none
try_array_element PgType.jsonb_array = ok (some (type_info PgType.jsonb))
try_array_element PgType.int4_range = ok none
try_array_element PgType.int4_range_array = ok (some (type_info PgType.int4_range))
try_array_element PgType.num_range = ok none
try_array_element PgType.num_range_array = ok (some (type_info PgType.num_range))
try_array_element PgType.ts_range = ok none
try_array_element PgType.ts_range_array = ok (some (type_info PgType.ts_range))
try_array_element PgType.tstz_range = ok none
try_array_element PgType.tstz_range_array = ok (some (type_info PgType.tstz_range))
try_array_element PgType.date_range = ok none
try_array_element PgType.date_range_array = ok (some (type_info PgType.date_range))
try_array_element PgType.int8_range = ok none
try_array_element PgType.int8_range_array = ok (some (type_info PgType.int8_range))
try_array_element PgType.jsonpath = ok none
try_array_element PgType.jsonpath_array = ok (some (type_info PgType.jsonpath))
try_array_element PgType.unknown = ok none
try_array_element PgType.void = ok none
try_array_element (PgType.custom (custom_type oid name kind)) = ok (element kind)
try_array_element (PgType.declare_with_oid oid) = panic
try_array_element (PgType.declare_with_name name) = panic

unfoldable pub to_array_element : PgType → Option PgTypeInfo
to_array_element PgType.bool_array = none
to_array_element PgType.bool = some (type_info PgType.bool)
to_array_element PgType.bytea_array = none
to_array_element PgType.bytea = some (type_info PgType.bytea)
to_array_element PgType.char_array = none
to_array_element PgType.char = some (type_info PgType.char)
to_array_element PgType.name_array = none
to_array_element PgType.name = some (type_info PgType.name)
to_array_element PgType.int8_array = none
to_array_element PgType.int8 = some (type_info PgType.int8)
to_array_element PgType.int2_array = none
to_array_element PgType.int2 = some (type_info PgType.int2)
to_array_element PgType.int4_array = none
to_array_element PgType.int4 = some (type_info PgType.int4)
to_array_element PgType.text_array = none
to_array_element PgType.text = some (type_info PgType.text)
to_array_element PgType.oid_array = none
to_array_element PgType.oid = some (type_info PgType.oid)
to_array_element PgType.json_array = none
to_array_element PgType.json = some (type_info PgType.json)
to_array_element PgType.point_array = none
to_array_element PgType.point = some (type_info PgType.point)
to_array_element PgType.lseg_array = none
to_array_element PgType.lseg = some (type_info PgType.lseg)
to_array_element PgType.path_array = none
to_array_element PgType.path = some (type_info PgType.path)
to_array_element PgType.box_array = none
to_array_element PgType.box = some (type_info PgType.box)
to_array_element PgType.polygon_array = none
to_array_element PgType.polygon = some (type_info PgType.polygon)
to_array_element PgType.line_array = none
to_array_element PgType.line = some (type_info PgType.line)
to_array_element PgType.cidr_array = none
to_array_element PgType.cidr = some (type_info PgType.cidr)
to_array_element PgType.float4_array = none
to_array_element PgType.float4 = some (type_info PgType.float4)
to_array_element PgType.float8_array = none
to_array_element PgType.float8 = some (type_info PgType.float8)
to_array_element PgType.circle_array = none
to_array_element PgType.circle = some (type_info PgType.circle)
to_array_element PgType.macaddr8_array = none
to_array_element PgType.macaddr8 = some (type_info PgType.macaddr8)
to_array_element PgType.money_array = none
to_array_element PgType.money = some (type_info PgType.money)
to_array_element PgType.hstore_array = none
to_array_element PgType.hstore = some (type_info PgType.hstore)
to_array_element PgType.tsvector = none
to_array_element PgType.tsquery = none
to_array_element PgType.macaddr_array = none
to_array_element PgType.macaddr = some (type_info PgType.macaddr)
to_array_element PgType.inet_array = none
to_array_element PgType.inet = some (type_info PgType.inet)
to_array_element PgType.bpchar_array = none
to_array_element PgType.bpchar = some (type_info PgType.bpchar)
to_array_element PgType.varchar_array = none
to_array_element PgType.varchar = some (type_info PgType.varchar)
to_array_element PgType.date_array = none
to_array_element PgType.date = some (type_info PgType.date)
to_array_element PgType.time_array = none
to_array_element PgType.time = some (type_info PgType.time)
to_array_element PgType.timestamp_array = none
to_array_element PgType.timestamp = some (type_info PgType.timestamp)
to_array_element PgType.timestamptz_array = none
to_array_element PgType.timestamptz = some (type_info PgType.timestamptz)
to_array_element PgType.interval_array = none
to_array_element PgType.interval = some (type_info PgType.interval)
to_array_element PgType.timetz_array = none
to_array_element PgType.timetz = some (type_info PgType.timetz)
to_array_element PgType.bit_array = none
to_array_element PgType.bit = some (type_info PgType.bit)
to_array_element PgType.varbit_array = none
to_array_element PgType.varbit = some (type_info PgType.varbit)
to_array_element PgType.numeric_array = none
to_array_element PgType.numeric = some (type_info PgType.numeric)
to_array_element PgType.record_type_array = none
to_array_element PgType.record_type = some (type_info PgType.record_type)
to_array_element PgType.uuid_array = none
to_array_element PgType.uuid = some (type_info PgType.uuid)
to_array_element PgType.jsonb_array = none
to_array_element PgType.jsonb = some (type_info PgType.jsonb)
to_array_element PgType.int4_range_array = none
to_array_element PgType.int4_range = some (type_info PgType.int4_range)
to_array_element PgType.num_range_array = none
to_array_element PgType.num_range = some (type_info PgType.num_range)
to_array_element PgType.ts_range_array = none
to_array_element PgType.ts_range = some (type_info PgType.ts_range)
to_array_element PgType.tstz_range_array = none
to_array_element PgType.tstz_range = some (type_info PgType.tstz_range)
to_array_element PgType.date_range_array = none
to_array_element PgType.date_range = some (type_info PgType.date_range)
to_array_element PgType.int8_range_array = none
to_array_element PgType.int8_range = some (type_info PgType.int8_range)
to_array_element PgType.jsonpath_array = none
to_array_element PgType.jsonpath = some (type_info PgType.jsonpath)
to_array_element PgType.unknown = none
to_array_element PgType.void = none
to_array_element (PgType.custom t) = none
to_array_element (PgType.declare_with_oid oid) = none
to_array_element (PgType.declare_with_name name) = none
