-- ===== src/Postgres/TypeInfo/ArrayTypes.antt =====
-- `PgType::to_array_type` of rbdc-pg/src/type_info.rs.
use rbdc.Base.{Option, none, some}
use rbdc.Postgres.TypeInfo.{PgType, PgTypeInfo, type_info}

unfoldable pub to_array_type : PgType → Option PgTypeInfo
to_array_type PgType.bool_array = none
to_array_type PgType.bool = some (type_info PgType.bool_array)
to_array_type PgType.bytea_array = none
to_array_type PgType.bytea = some (type_info PgType.bytea_array)
to_array_type PgType.char_array = none
to_array_type PgType.char = some (type_info PgType.char_array)
to_array_type PgType.name_array = none
to_array_type PgType.name = some (type_info PgType.name_array)
to_array_type PgType.int8_array = none
to_array_type PgType.int8 = some (type_info PgType.int8_array)
to_array_type PgType.int2_array = none
to_array_type PgType.int2 = some (type_info PgType.int2_array)
to_array_type PgType.int4_array = none
to_array_type PgType.int4 = some (type_info PgType.int4_array)
to_array_type PgType.text_array = none
to_array_type PgType.text = some (type_info PgType.text_array)
to_array_type PgType.oid_array = none
to_array_type PgType.oid = some (type_info PgType.oid_array)
to_array_type PgType.json_array = none
to_array_type PgType.json = some (type_info PgType.json_array)
to_array_type PgType.point_array = none
to_array_type PgType.point = some (type_info PgType.point_array)
to_array_type PgType.lseg_array = none
to_array_type PgType.lseg = some (type_info PgType.lseg_array)
to_array_type PgType.path_array = none
to_array_type PgType.path = some (type_info PgType.path_array)
to_array_type PgType.box_array = none
to_array_type PgType.box = some (type_info PgType.box_array)
to_array_type PgType.polygon_array = none
to_array_type PgType.polygon = some (type_info PgType.polygon_array)
to_array_type PgType.line_array = none
to_array_type PgType.line = some (type_info PgType.line_array)
to_array_type PgType.cidr_array = none
to_array_type PgType.cidr = some (type_info PgType.cidr_array)
to_array_type PgType.float4_array = none
to_array_type PgType.float4 = some (type_info PgType.float4_array)
to_array_type PgType.float8_array = none
to_array_type PgType.float8 = some (type_info PgType.float8_array)
to_array_type PgType.circle_array = none
to_array_type PgType.circle = some (type_info PgType.circle_array)
to_array_type PgType.macaddr8_array = none
to_array_type PgType.macaddr8 = some (type_info PgType.macaddr8_array)
to_array_type PgType.money_array = none
to_array_type PgType.money = some (type_info PgType.money_array)
to_array_type PgType.hstore_array = none
to_array_type PgType.hstore = some (type_info PgType.hstore_array)
to_array_type PgType.tsvector = none
to_array_type PgType.tsquery = none
to_array_type PgType.macaddr_array = none
to_array_type PgType.macaddr = some (type_info PgType.macaddr_array)
to_array_type PgType.inet_array = none
to_array_type PgType.inet = some (type_info PgType.inet_array)
to_array_type PgType.bpchar_array = none
to_array_type PgType.bpchar = some (type_info PgType.bpchar_array)
to_array_type PgType.varchar_array = none
to_array_type PgType.varchar = some (type_info PgType.varchar_array)
to_array_type PgType.date_array = none
to_array_type PgType.date = some (type_info PgType.date_array)
to_array_type PgType.time_array = none
to_array_type PgType.time = some (type_info PgType.time_array)
to_array_type PgType.timestamp_array = none
to_array_type PgType.timestamp = some (type_info PgType.timestamp_array)
to_array_type PgType.timestamptz_array = none
to_array_type PgType.timestamptz = some (type_info PgType.timestamptz_array)
to_array_type PgType.interval_array = none
to_array_type PgType.interval = some (type_info PgType.interval_array)
to_array_type PgType.timetz_array = none
to_array_type PgType.timetz = some (type_info PgType.timetz_array)
to_array_type PgType.bit_array = none
to_array_type PgType.bit = some (type_info PgType.bit_array)
to_array_type PgType.varbit_array = none
to_array_type PgType.varbit = some (type_info PgType.varbit_array)
to_array_type PgType.numeric_array = none
to_array_type PgType.numeric = some (type_info PgType.numeric_array)
to_array_type PgType.record_type_array = none
to_array_type PgType.record_type = some (type_info PgType.record_type_array)
to_array_type PgType.uuid_array = none
to_array_type PgType.uuid = some (type_info PgType.uuid_array)
to_array_type PgType.jsonb_array = none
to_array_type PgType.jsonb = some (type_info PgType.jsonb_array)
to_array_type PgType.int4_range_array = none
to_array_type PgType.int4_range = some (type_info PgType.int4_range_array)
to_array_type PgType.num_range_array = none
to_array_type PgType.num_range = some (type_info PgType.num_range_array)
to_array_type PgType.ts_range_array = none
to_array_type PgType.ts_range = some (type_info PgType.ts_range_array)
to_array_type PgType.tstz_range_array = none
to_array_type PgType.tstz_range = some (type_info PgType.tstz_range_array)
to_array_type PgType.date_range_array = none
to_array_type PgType.date_range = some (type_info PgType.date_range_array)
to_array_type PgType.int8_range_array = none
to_array_type PgType.int8_range = some (type_info PgType.int8_range_array)
to_array_type PgType.jsonpath_array = none
to_array_type PgType.jsonpath = some (type_info PgType.jsonpath_array)
to_array_type PgType.unknown = none
to_array_type PgType.void = none
to_array_type (PgType.custom t) = none
to_array_type (PgType.declare_with_oid oid) = none
to_array_type (PgType.declare_with_name name) = none
