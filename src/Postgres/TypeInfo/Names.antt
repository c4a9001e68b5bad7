-- ===== src/Postgres/TypeInfo/Names.antt =====
-- `PgType::display_name` and `name` of rbdc-pg/src/type_info.rs, and the comparison of types.
use rbdc.Base.{String}
use rbdc.Postgres.TypeInfo.{PgType, custom_type}

unfoldable pub display_name : PgType → String
display_name PgType.bool = "BOOL"
display_name PgType.bytea = "BYTEA"
display_name PgType.char = "\"CHAR\""
display_name PgType.name = "NAME"
display_name PgType.int8 = "INT8"
display_name PgType.int2 = "INT2"
display_name PgType.int4 = "INT4"
display_name PgType.text = "TEXT"
display_name PgType.oid = "OID"
display_name PgType.json = "JSON"
display_name PgType.json_array = "JSON[]"
display_name PgType.point = "POINT"
display_name PgType.lseg = "LSEG"
display_name PgType.path = "PATH"
display_name PgType.box = "BOX"
display_name PgType.polygon = "POLYGON"
display_name PgType.line = "LINE"
display_name PgType.line_array = "LINE[]"
display_name PgType.cidr = "CIDR"
display_name PgType.cidr_array = "CIDR[]"
display_name PgType.float4 = "FLOAT4"
display_name PgType.float8 = "FLOAT8"
display_name PgType.unknown = "UNKNOWN"
display_name PgType.circle = "CIRCLE"
display_name PgType.circle_array = "CIRCLE[]"
display_name PgType.macaddr8 = "MACADDR8"
display_name PgType.macaddr8_array = "MACADDR8[]"
display_name PgType.macaddr = "MACADDR"
display_name PgType.inet = "INET"
display_name PgType.bool_array = "BOOL[]"
display_name PgType.bytea_array = "BYTEA[]"
display_name PgType.char_array = "\"CHAR\"[]"
display_name PgType.name_array = "NAME[]"
display_name PgType.int2_array = "INT2[]"
display_name PgType.int4_array = "INT4[]"
display_name PgType.text_array = "TEXT[]"
display_name PgType.bpchar_array = "CHAR[]"
display_name PgType.varchar_array = "VARCHAR[]"
display_name PgType.int8_array = "INT8[]"
display_name PgType.point_array = "POINT[]"
display_name PgType.lseg_array = "LSEG[]"
display_name PgType.path_array = "PATH[]"
display_name PgType.box_array = "BOX[]"
display_name PgType.float4_array = "FLOAT4[]"
display_name PgType.float8_array = "FLOAT8[]"
display_name PgType.polygon_array = "POLYGON[]"
display_name PgType.oid_array = "OID[]"
display_name PgType.macaddr_array = "MACADDR[]"
display_name PgType.inet_array = "INET[]"
display_name PgType.bpchar = "CHAR"
display_name PgType.varchar = "VARCHAR"
display_name PgType.date = "DATE"
display_name PgType.time = "TIME"
display_name PgType.timestamp = "TIMESTAMP"
display_name PgType.timestamp_array = "TIMESTAMP[]"
display_name PgType.date_array = "DATE[]"
display_name PgType.time_array = "TIME[]"
display_name PgType.timestamptz = "TIMESTAMPTZ"
display_name PgType.timestamptz_array = "TIMESTAMPTZ[]"
display_name PgType.interval = "INTERVAL"
display_name PgType.interval_array = "INTERVAL[]"
display_name PgType.numeric_array = "NUMERIC[]"
display_name PgType.timetz = "TIMETZ"
display_name PgType.timetz_array = "TIMETZ[]"
display_name PgType.bit = "BIT"
display_name PgType.bit_array = "BIT[]"
display_name PgType.varbit = "VARBIT"
display_name PgType.varbit_array = "VARBIT[]"
display_name PgType.numeric = "NUMERIC"
display_name PgType.record_type = "RECORD"
display_name PgType.record_type_array = "RECORD[]"
display_name PgType.uuid = "UUID"
display_name PgType.uuid_array = "UUID[]"
display_name PgType.jsonb = "JSONB"
display_name PgType.jsonb_array = "JSONB[]"
display_name PgType.int4_range = "INT4RANGE"
display_name PgType.int4_range_array = "INT4RANGE[]"
display_name PgType.num_range = "NUMRANGE"
display_name PgType.num_range_array = "NUMRANGE[]"
display_name PgType.ts_range = "TSRANGE"
display_name PgType.ts_range_array = "TSRANGE[]"
display_name PgType.tstz_range = "TSTZRANGE"
display_name PgType.tstz_range_array = "TSTZRANGE[]"
display_name PgType.date_range = "DATERANGE"
display_name PgType.date_range_array = "DATERANGE[]"
display_name PgType.int8_range = "INT8RANGE"
display_name PgType.int8_range_array = "INT8RANGE[]"
display_name PgType.jsonpath = "JSONPATH"
display_name PgType.jsonpath_array = "JSONPATH[]"
display_name PgType.money = "MONEY"
display_name PgType.money_array = "MONEY[]"
display_name PgType.hstore = "HSTORE"
display_name PgType.hstore_array = "HSTORE[]"
display_name PgType.tsvector = "TSVECTOR"
display_name PgType.tsquery = "TSQUERY"
display_name PgType.void = "VOID"
display_name (PgType.custom (custom_type oid name kind)) = name
display_name (PgType.declare_with_oid oid) = "?"
display_name (PgType.declare_with_name name) = name

unfoldable pub name : PgType → String
name PgType.bool = "bool"
name PgType.bytea = "bytea"
name PgType.char = "char"
name PgType.name = "name"
name PgType.int8 = "int8"
name PgType.int2 = "int2"
name PgType.int4 = "int4"
name PgType.text = "text"
name PgType.oid = "oid"
name PgType.json = "json"
name PgType.json_array = "_json"
name PgType.point = "point"
name PgType.lseg = "lseg"
name PgType.path = "path"
name PgType.box = "box"
name PgType.polygon = "polygon"
name PgType.line = "line"
name PgType.line_array = "_line"
name PgType.cidr = "cidr"
name PgType.cidr_array = "_cidr"
name PgType.float4 = "float4"
name PgType.float8 = "float8"
name PgType.unknown = "unknown"
name PgType.circle = "circle"
name PgType.circle_array = "_circle"
name PgType.macaddr8 = "macaddr8"
name PgType.macaddr8_array = "_macaddr8"
name PgType.macaddr = "macaddr"
name PgType.inet = "inet"
name PgType.bool_array = "_bool"
name PgType.bytea_array = "_bytea"
name PgType.char_array = "_char"
name PgType.name_array = "_name"
name PgType.int2_array = "_int2"
name PgType.int4_array = "_int4"
name PgType.text_array = "_text"
name PgType.bpchar_array = "_bpchar"
name PgType.varchar_array = "_varchar"
name PgType.int8_array = "_int8"
name PgType.point_array = "_point"
name PgType.lseg_array = "_lseg"
name PgType.path_array = "_path"
name PgType.box_array = "_box"
name PgType.float4_array = "_float4"
name PgType.float8_array = "_float8"
name PgType.polygon_array = "_polygon"
name PgType.oid_array = "_oid"
name PgType.macaddr_array = "_macaddr"
name PgType.inet_array = "_inet"
name PgType.bpchar = "bpchar"
name PgType.varchar = "varchar"
name PgType.date = "date"
name PgType.time = "time"
name PgType.timestamp = "timestamp"
name PgType.timestamp_array = "_timestamp"
name PgType.date_array = "_date"
name PgType.time_array = "_time"
name PgType.timestamptz = "timestamptz"
name PgType.timestamptz_array = "_timestamptz"
name PgType.interval = "interval"
name PgType.interval_array = "_interval"
name PgType.numeric_array = "_numeric"
name PgType.timetz = "timetz"
name PgType.timetz_array = "_timetz"
name PgType.bit = "bit"
name PgType.bit_array = "_bit"
name PgType.varbit = "varbit"
name PgType.varbit_array = "_varbit"
name PgType.numeric = "numeric"
name PgType.record_type = "record"
name PgType.record_type_array = "_record"
name PgType.uuid = "uuid"
name PgType.uuid_array = "_uuid"
name PgType.jsonb = "jsonb"
name PgType.jsonb_array = "_jsonb"
name PgType.int4_range = "int4range"
name PgType.int4_range_array = "_int4range"
name PgType.num_range = "numrange"
name PgType.num_range_array = "_numrange"
name PgType.ts_range = "tsrange"
name PgType.ts_range_array = "_tsrange"
name PgType.tstz_range = "tstzrange"
name PgType.tstz_range_array = "_tstzrange"
name PgType.date_range = "daterange"
name PgType.date_range_array = "_daterange"
name PgType.int8_range = "int8range"
name PgType.int8_range_array = "_int8range"
name PgType.jsonpath = "jsonpath"
name PgType.jsonpath_array = "_jsonpath"
name PgType.money = "money"
name PgType.money_array = "_money"
name PgType.hstore = "hstore"
name PgType.hstore_array = "_hstore"
name PgType.tsvector = "tsvector"
name PgType.tsquery = "tsquery"
name PgType.void = "void"
name (PgType.custom (custom_type oid n kind)) = n
name (PgType.declare_with_oid oid) = "?"
name (PgType.declare_with_name n) = n
