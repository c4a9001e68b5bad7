-- ===== src/Postgres/TypeInfo/Oids.antt =====
-- `PgType::try_from_oid`, `oid` and `try_oid` of rbdc-pg/src/type_info.rs.
use rbdc.Base.{
  ℕ, ◌≡◌, refl, List, [], ◌∷◌, Option, none, some, ◌==◌, if◌then◌else◌, Outcome, ok, panic, arith,
  Bool, true, false, ◌&&◌, ap, ==_iff,
}
use mathlib.Core.Option
use rbdc.Postgres.TypeInfo.{PgType, custom_type, IsBuiltin}

-- The arms of the `match` on the oid, in their order.
abbrev oid_arms : List (ℕ × PgType)
oid_arms =
    (16, PgType.bool)
    ∷ (17, PgType.bytea)
    ∷ (18, PgType.char)
    ∷ (19, PgType.name)
    ∷ (20, PgType.int8)
    ∷ (21, PgType.int2)
    ∷ (23, PgType.int4)
    ∷ (25, PgType.text)
    ∷ (26, PgType.oid)
    ∷ (114, PgType.json)
    ∷ (199, PgType.json_array)
    ∷ (600, PgType.point)
    ∷ (601, PgType.lseg)
    ∷ (602, PgType.path)
    ∷ (603, PgType.box)
    ∷ (604, PgType.polygon)
    ∷ (628, PgType.line)
    ∷ (629, PgType.line_array)
    ∷ (650, PgType.cidr)
    ∷ (651, PgType.cidr_array)
    ∷ (700, PgType.float4)
    ∷ (701, PgType.float8)
    ∷ (705, PgType.unknown)
    ∷ (718, PgType.circle)
    ∷ (719, PgType.circle_array)
    ∷ (774, PgType.macaddr8)
    ∷ (775, PgType.macaddr8_array)
    ∷ (790, PgType.money)
    ∷ (791, PgType.money_array)
    ∷ (829, PgType.macaddr)
    ∷ (869, PgType.inet)
    ∷ (1000, PgType.bool_array)
    ∷ (1001, PgType.bytea_array)
    ∷ (1002, PgType.char_array)
    ∷ (1003, PgType.name_array)
    ∷ (1005, PgType.int2_array)
    ∷ (1007, PgType.int4_array)
    ∷ (1009, PgType.text_array)
    ∷ (1014, PgType.bpchar_array)
    ∷ (1015, PgType.varchar_array)
    ∷ (1016, PgType.int8_array)
    ∷ (1017, PgType.point_array)
    ∷ (1018, PgType.lseg_array)
    ∷ (1019, PgType.path_array)
    ∷ (1020, PgType.box_array)
    ∷ (1021, PgType.float4_array)
    ∷ (1022, PgType.float8_array)
    ∷ (1027, PgType.polygon_array)
    ∷ (1028, PgType.oid_array)
    ∷ (1040, PgType.macaddr_array)
    ∷ (1041, PgType.inet_array)
    ∷ (1042, PgType.bpchar)
    ∷ (1043, PgType.varchar)
    ∷ (1082, PgType.date)
    ∷ (1083, PgType.time)
    ∷ (1114, PgType.timestamp)
    ∷ (1115, PgType.timestamp_array)
    ∷ (1182, PgType.date_array)
    ∷ (1183, PgType.time_array)
    ∷ (1184, PgType.timestamptz)
    ∷ (1185, PgType.timestamptz_array)
    ∷ (1186, PgType.interval)
    ∷ (1187, PgType.interval_array)
    ∷ (1231, PgType.numeric_array)
    ∷ (1266, PgType.timetz)
    ∷ (1270, PgType.timetz_array)
    ∷ (1560, PgType.bit)
    ∷ (1561, PgType.bit_array)
    ∷ (1562, PgType.varbit)
    ∷ (1563, PgType.varbit_array)
    ∷ (1700, PgType.numeric)
    ∷ (2278, PgType.void)
    ∷ (2249, PgType.record_type)
    ∷ (2287, PgType.record_type_array)
    ∷ (2950, PgType.uuid)
    ∷ (2951, PgType.uuid_array)
    ∷ (3802, PgType.jsonb)
    ∷ (3807, PgType.jsonb_array)
    ∷ (3904, PgType.int4_range)
    ∷ (3905, PgType.int4_range_array)
    ∷ (3906, PgType.num_range)
    ∷ (3907, PgType.num_range_array)
    ∷ (3908, PgType.ts_range)
    ∷ (3909, PgType.ts_range_array)
    ∷ (3910, PgType.tstz_range)
    ∷ (3911, PgType.tstz_range_array)
    ∷ (3912, PgType.date_range)
    ∷ (3913, PgType.date_range_array)
    ∷ (3926, PgType.int8_range)
    ∷ (3927, PgType.int8_range_array)
    ∷ (4072, PgType.jsonpath)
    ∷ (4073, PgType.jsonpath_array)
    ∷ (3361, PgType.hstore)
    ∷ (3362, PgType.hstore_array)
    ∷ (3614, PgType.tsvector)
    ∷ (3615, PgType.tsquery)
    ∷ []

-- A `match` on a number: the first arm that equals it.
match_oid : ℕ → List (ℕ × PgType) → Option PgType
match_oid oid [] = none
match_oid oid ((k, t) ∷ arms) = if oid == k then some t else match_oid oid arms

unfoldable pub try_from_oid : ℕ → Option PgType
unfolding match_oid
try_from_oid oid = match_oid oid oid_arms

unfoldable pub try_oid : PgType → Option ℕ
try_oid PgType.bool = some 16
try_oid PgType.bytea = some 17
try_oid PgType.char = some 18
try_oid PgType.name = some 19
try_oid PgType.int8 = some 20
try_oid PgType.int2 = some 21
try_oid PgType.int4 = some 23
try_oid PgType.text = some 25
try_oid PgType.oid = some 26
try_oid PgType.json = some 114
try_oid PgType.json_array = some 199
try_oid PgType.point = some 600
try_oid PgType.lseg = some 601
try_oid PgType.path = some 602
try_oid PgType.box = some 603
try_oid PgType.polygon = some 604
try_oid PgType.line = some 628
try_oid PgType.line_array = some 629
try_oid PgType.cidr = some 650
try_oid PgType.cidr_array = some 651
try_oid PgType.float4 = some 700
try_oid PgType.float8 = some 701
try_oid PgType.unknown = some 705
try_oid PgType.circle = some 718
try_oid PgType.circle_array = some 719
try_oid PgType.macaddr8 = some 774
try_oid PgType.macaddr8_array = some 775
try_oid PgType.money = some 790
try_oid PgType.money_array = some 791
try_oid PgType.hstore = some 3361
try_oid PgType.hstore_array = some 3362
try_oid PgType.tsvector = some 3614
try_oid PgType.tsquery = some 3615
try_oid PgType.macaddr = some 829
try_oid PgType.inet = some 869
try_oid PgType.bool_array = some 1000
try_oid PgType.bytea_array = some 1001
try_oid PgType.char_array = some 1002
try_oid PgType.name_array = some 1003
try_oid PgType.int2_array = some 1005
try_oid PgType.int4_array = some 1007
try_oid PgType.text_array = some 1009
try_oid PgType.bpchar_array = some 1014
try_oid PgType.varchar_array = some 1015
try_oid PgType.int8_array = some 1016
try_oid PgType.point_array = some 1017
try_oid PgType.lseg_array = some 1018
try_oid PgType.path_array = some 1019
try_oid PgType.box_array = some 1020
try_oid PgType.float4_array = some 1021
try_oid PgType.float8_array = some 1022
try_oid PgType.polygon_array = some 1027
try_oid PgType.oid_array = some 1028
try_oid PgType.macaddr_array = some 1040
try_oid PgType.inet_array = some 1041
try_oid PgType.bpchar = some 1042
try_oid PgType.varchar = some 1043
try_oid PgType.date = some 1082
try_oid PgType.time = some 1083
try_oid PgType.timestamp = some 1114
try_oid PgType.timestamp_array = some 1115
try_oid PgType.date_array = some 1182
try_oid PgType.time_array = some 1183
try_oid PgType.timestamptz = some 1184
try_oid PgType.timestamptz_array = some 1185
try_oid PgType.interval = some 1186
try_oid PgType.interval_array = some 1187
try_oid PgType.numeric_array = some 1231
try_oid PgType.timetz = some 1266
try_oid PgType.timetz_array = some 1270
try_oid PgType.bit = some 1560
try_oid PgType.bit_array = some 1561
try_oid PgType.varbit = some 1562
try_oid PgType.varbit_array = some 1563
try_oid PgType.numeric = some 1700
try_oid PgType.void = some 2278
try_oid PgType.record_type = some 2249
try_oid PgType.record_type_array = some 2287
try_oid PgType.uuid = some 2950
try_oid PgType.uuid_array = some 2951
try_oid PgType.jsonb = some 3802
try_oid PgType.jsonb_array = some 3807
try_oid PgType.int4_range = some 3904
try_oid PgType.int4_range_array = some 3905
try_oid PgType.num_range = some 3906
try_oid PgType.num_range_array = some 3907
try_oid PgType.ts_range = some 3908
try_oid PgType.ts_range_array = some 3909
try_oid PgType.tstz_range = some 3910
try_oid PgType.tstz_range_array = some 3911
try_oid PgType.date_range = some 3912
try_oid PgType.date_range_array = some 3913
try_oid PgType.int8_range = some 3926
try_oid PgType.int8_range_array = some 3927
try_oid PgType.jsonpath = some 4072
try_oid PgType.jsonpath_array = some 4073
try_oid (PgType.custom (custom_type oid name kind)) = some oid
try_oid (PgType.declare_with_oid oid) = some oid
try_oid (PgType.declare_with_name name) = none

-- "use of unresolved type declaration" is a panic.
unfoldable pub get_oid : PgType → Outcome ℕ
unfolding try_oid
get_oid t = elim (try_oid t) [ some oid ↦ ok oid | none ↦ panic ]

is_builtin : PgType → Bool
is_builtin (PgType.custom t) = false
is_builtin (PgType.declare_with_name n) = false
is_builtin (PgType.declare_with_oid o) = false
is_builtin _ = true

-- Every built-in type is found again by its oid.
pub try_from_oid-try_oid :
    (t : PgType) → IsBuiltin t → Option.bind (try_oid t) try_from_oid ≡ some t
unfolding try_oid try_from_oid Option.bind
try_from_oid-try_oid PgType.bool b = refl
try_from_oid-try_oid (PgType.custom t) b = absurd b
try_from_oid-try_oid (PgType.declare_with_name n) b = absurd b
try_from_oid-try_oid (PgType.declare_with_oid o) b = absurd b
try_from_oid-try_oid _ b = refl

-- Every arm is for the oid of its type, which is a built-in one.
is_own : ℕ → Option ℕ → Bool
is_own k none = false
is_own k (some oid) = oid == k

arms_agree : List (ℕ × PgType) → Bool
unfolding is_own
arms_agree [] = true
arms_agree ((k, t) ∷ arms) = is_builtin t && is_own k (try_oid t) && arms_agree arms

is_own-eq : (k : ℕ) (o : Option ℕ) → is_own k o ≡ true → o ≡ some k
unfolding is_own
is_own-eq k none h = cc
is_own-eq k (some oid) h = ap some ((==_iff oid k).0 h)

IsBuiltin-is_builtin : (t : PgType) → is_builtin t ≡ true → IsBuiltin t
unfolding is_builtin
IsBuiltin-is_builtin (PgType.custom t) h = cc
IsBuiltin-is_builtin (PgType.declare_with_name n) h = cc
IsBuiltin-is_builtin (PgType.declare_with_oid o) h = cc
IsBuiltin-is_builtin _ h = tt

match_oid-arms :
    (oid : ℕ) (arms : List (ℕ × PgType)) (t : PgType)
    → arms_agree arms ≡ true
    → match_oid oid arms ≡ some t
    → (try_oid t ≡ some oid) × (is_builtin t ≡ true)
unfolding match_oid arms_agree
match_oid-arms oid [] t h e = cc
match_oid-arms oid ((k, u) ∷ arms) t h e =
    ground (arith, is_own-eq k (try_oid u), match_oid-arms oid arms t)

-- A type that is found by an oid is a built-in type and has this oid.
pub try_oid-try_from_oid :
    (oid : ℕ) (t : PgType) → try_from_oid oid ≡ some t → (try_oid t ≡ some oid) × IsBuiltin t
unfolding try_from_oid try_oid arms_agree is_builtin
try_oid-try_from_oid oid t e =
    let (own, builtin) = match_oid-arms oid oid_arms t refl e in
    (own, IsBuiltin-is_builtin t builtin)
