-- ===== src/Postgres/Tests.antt =====
-- The PostgreSQL driver's password file and types on concrete inputs.
mod Messages
use Prim.Native.String.{◌++◌ as append}
use rbdc.Base.{
  Bytes, length, ◌+◌, arith, ℕ, ◌≡◌, refl, true, false, List, [], ◌∷◌, ◌++◌, some, none, ok,
  and_then, All, take, drop,
}
use mathlib.Core.Option
use rbdc.Crates.{reference, reference-Documented}
use rbdc.Postgres.Io.{put_length_prefixed}
use rbdc.Postgres.Io.Laws.{get_uint-put_length_prefixed}
use rbdc.Postgres.Pgpass.{
  Text, Login, reads, find_next_field, is_entry, trim_start, load_password_from_line,
  load_password_from_reader, text_eq, trim_newline, is_whitespace, ReadLine,
}
use rbdc.Postgres.Pgpass.Fields.{escape, field_of, find_next_field-escape, find_next_field-field_of}
use rbdc.Postgres.Pgpass.Lookup.{
  entry, Passes, password_of, load_password_from_line-entry, load_password_from_reader-first,
  load_password_from_reader-found,
}
use rbdc.Postgres.TypeInfo.{PgType, type_info, IsBuiltin}
use rbdc.Postgres.TypeInfo.ArrayTypes.{to_array_type}
use rbdc.Postgres.TypeInfo.Arrays.{element, try_array_element, to_array_element}
use rbdc.Postgres.TypeInfo.Compare.{
  eq, eq-builtin, eq_not_transitive, eq_ignore_ascii_case, eq_refl,
}
use rbdc.Postgres.TypeInfo.Kinds.{kind, try_array_element-kind}
use rbdc.Postgres.TypeInfo.Laws.{to_array_type_lem, try_array_element_lem}
use rbdc.Postgres.TypeInfo.Names.{name, display_name}
use rbdc.Postgres.TypeInfo.Oids.{try_oid, try_from_oid, try_from_oid-try_oid, try_oid-try_from_oid}

-- `a:b` and `p\:w`
abbrev host : Text
host = b'a' ∷ b':' ∷ b'b' ∷ []

abbrev secret : Text
secret = b'p' ∷ b'\\' ∷ b':' ∷ b'w' ∷ []

find_next_field-escape_example :
    find_next_field (escape host ++ b':' ∷ secret) ≡ some (host, secret)
find_next_field-escape_example = find_next_field-escape host secret

find_next_field-field_of_example : find_next_field secret ≡ field_of false secret
find_next_field-field_of_example = find_next_field-field_of secret

abbrev login : Login
login = record { host = host; port = 5432; username = b'u' ∷ []; database = some (b'd' ∷ []) }

login-is_entry : is_entry (trim_start (entry login secret)) ≡ true
unfolding is_entry trim_start is_whitespace entry escape
login-is_entry = refl

load_password_from_line-entry_example :
    load_password_from_line login (entry login secret) ≡ some secret
load_password_from_line-entry_example = load_password_from_line-entry login secret login-is_entry

abbrev comment : Text
comment = b'#' ∷ b'x' ∷ 10 ∷ []

-- `*:*:*:*:pw`
abbrev wild : Text
wild = b'*' ∷ b':' ∷ b'*' ∷ b':' ∷ b'*' ∷ b':' ∷ b'*' ∷ b':' ∷ b'p' ∷ b'w' ∷ []

comment-Passes : Passes login (reads comment)
unfolding load_password_from_line trim_newline is_entry trim_start is_whitespace
comment-Passes = refl

wild_password : password_of login wild ≡ some (b'p' ∷ b'w' ∷ [])
unfolding load_password_from_line trim_newline text_eq take drop
wild_password = refl

load_password_from_reader-first_example :
    load_password_from_reader login ((reads comment ∷ []) ++ reads wild ∷ [])
    ≡ some (b'p' ∷ b'w' ∷ [])
load_password_from_reader-first_example =
    load_password_from_reader-first login (reads comment ∷ []) b'*'
      (b':' ∷ b'*' ∷ b':' ∷ b'*' ∷ b':' ∷ b'*' ∷ b':' ∷ b'p' ∷ b'w' ∷ []) (b'p' ∷ b'w' ∷ []) []
      (comment-Passes, tt) wild_password

load_password_from_reader-found_example :
    (before : List ReadLine) × (c : ℕ) × (cs : Text) × (behind : List ReadLine) × ((reads comment
          ∷ [])
        ++ reads wild ∷ []
      ≡ before ++ reads (c ∷ cs) ∷ behind)
    × All (Passes login) before
    × (password_of login (c ∷ cs) ≡ some (b'p' ∷ b'w' ∷ []))
load_password_from_reader-found_example =
    load_password_from_reader-found login ((reads comment ∷ []) ++ reads wild ∷ [])
      (b'p' ∷ b'w' ∷ []) load_password_from_reader-first_example

try_from_oid-try_oid_example :
    Option.bind (try_oid PgType.int8_array) try_from_oid ≡ some PgType.int8_array
try_from_oid-try_oid_example = try_from_oid-try_oid PgType.int8_array tt

try_array_element-kind_example :
    try_array_element PgType.int4_array ≡ and_then (kind PgType.int4_array) (λ k. ok (element k))
try_array_element-kind_example = try_array_element-kind PgType.int4_array

int4_array_of : to_array_type PgType.int4 ≡ some (type_info PgType.int4_array)
unfolding to_array_type
int4_array_of = refl

int4_element : try_array_element PgType.int4_array ≡ ok (some (type_info PgType.int4))
unfolding try_array_element
int4_element = refl

try_array_element_lem_example :
    (to_array_type PgType.int4 ≡ some (type_info PgType.int4_array))
    × (to_array_element PgType.int4_array ≡ none)
    × IsBuiltin PgType.int4
try_array_element_lem_example = try_array_element_lem PgType.int4_array PgType.int4 tt int4_element

names_differ : eq_ignore_ascii_case "mood" "color" ≡ false
unfolding eq_ignore_ascii_case
names_differ = refl

eq_not_transitive_example :
    (eq (PgType.declare_with_name "mood") (PgType.declare_with_oid 16400) ≡ true)
    × (eq (PgType.declare_with_oid 16400) (PgType.declare_with_name "color") ≡ true)
    × (eq (PgType.declare_with_name "mood") (PgType.declare_with_name "color") ≡ false)
eq_not_transitive_example = eq_not_transitive "mood" "color" 16400 names_differ
