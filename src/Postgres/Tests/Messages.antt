-- ===== src/Postgres/Tests/Messages.antt =====
-- The messages of PostgreSQL on concrete inputs.
use rbdc.Base.{
  eq_bytes, ℕ, ◌+◌, ◌^◌, ◌<◌, ◌≡◌, refl, true, List, [], ◌∷◌, ◌++◌, arith, Bytes, length, be_bytes,
  Option, some, none, ok,
}
use rbdc.Base.Utf8.{is_utf8}
use rbdc.Crates.{reference, reference-Documented}
use rbdc.Io.{put_str_nul}
use rbdc.Io.Laws.{NoNul}
use rbdc.Io.Stream.{Delivery, arrives}
use rbdc.Io.Stream.Reads.{Holds, after_read}
use rbdc.Mysql.Row.{slice}
use rbdc.Mysql.Row.Laws.{value_at}
use rbdc.Postgres.Message.{MessageFormat, Field, ParameterStatus, decode_row_description}
use rbdc.Postgres.Message.DataRow.{DataRow, get_data, decode_data_row}
use rbdc.Postgres.Message.DataRow.Laws.{encode_value, encode_data, decode_data_row-encode_data}
use rbdc.Postgres.Message.Frontend.{text, binary, Bind, encode_bind, Parse, encode_parse}
use rbdc.Postgres.Message.Frontend.Binding.{bind_layout, read_bind, read_bind-encode_bind}
use rbdc.Postgres.Message.Frontend.Laws.{
  WritesDigits, parse_layout, portal_name, statement_name, read_parse, read_parse-encode_parse,
}
use rbdc.Postgres.Message.Laws.{
  encode_all, encode_field, FieldFits, byte_of, IsText, decode_row_description-encode_field,
}
use rbdc.Postgres.Message.Notice.{Notice, error, try_from, find_severity, decode_notice}
use rbdc.Postgres.Message.Notice.Laws.{field, decode_notice-field}
use rbdc.Postgres.Stream.{PgStream, recv}
use rbdc.Postgres.Stream.Laws.{IsSetting, settings_then, kept_all, moved, recv-settings}

-- One digit is enough for the ids of the examples.
abbrev digits : ℕ → Bytes
digits n = b'7' ∷ []

digits-WritesDigits : WritesDigits digits
digits-WritesDigits n = ((omega arith, omega arith), tt)

abbrev a_word : Bytes
a_word = b'h' ∷ b'i' ∷ []

a_word-NoNul : NoNul a_word
a_word-NoNul = ((λ (e : b'h' ≡ 0). ground (arith, e)), ((λ (e : b'i' ≡ 0). ground (arith, e)), tt))

a_word-IsText : IsText a_word
unfolding is_utf8
a_word-IsText = (a_word-NoNul, refl)

abbrev a_field : Field
a_field = record {
  name = a_word;
  relation_id = none;
  relation_attribute_no = some 2;
  data_type_id = 23;
  data_type_size = 4;
  type_modifier = 0;
  format = 1;
}

a_field-FieldFits : FieldFits a_field
a_field-FieldFits = record {
  name = a_word-IsText;
  relation_id = tt;
  relation_attribute_no = ((λ (e : 2 ≡ 0). ground (arith, e)), omega arith);
  data_type_id = omega arith;
  data_type_size = omega arith;
  type_modifier = omega arith;
  format = omega arith;
}

decode_row_description-encode_field_example :
    decode_row_description reference
      (be_bytes 2 1 ++ (encode_all encode_field (a_field ∷ []) ++ []))
    ≡ ok (record { fields = a_field ∷ [] })
decode_row_description-encode_field_example =
    decode_row_description-encode_field reference reference-Documented (a_field ∷ []) []
      (omega arith) (a_field-FieldFits, tt)

abbrev data_values : List (Option Bytes)
data_values = none ∷ some a_word ∷ []

two_values-short : length (encode_data data_values) + 2 < 2 ^ 32
unfolding encode_data
two_values-short = omega arith

decode_data_row-encode_data_example :
    (row : DataRow) × (decode_data_row reference (be_bytes 2 2 ++ encode_data data_values) ≡ ok row)
    × (row.storage ≡ data_values)
    × (get_data row 1 ≡ ok (value_at data_values 1))
decode_data_row-encode_data_example =
    decode_data_row-encode_data reference reference-Documented data_values 1 (omega arith)
      (tt, (omega arith, tt)) two_values-short

abbrev a_parse : Parse
a_parse = record { statement = 7; query = a_word; param_types = 23 ∷ [] }

a_parse-short : length (parse_layout digits a_parse) + 4 < 2 ^ 31
unfolding encode_all
a_parse-short = omega arith

read_parse-encode_parse_example :
    (message : Bytes) × (n : ℕ) × (encode_parse digits a_parse [] ≡ ok ([] ++ message))
    × (length message ≡ n + 1)
    × (read_parse reference (message ++ [])
        ≡ ok ((b'P', n, statement_name digits 7, a_word, 23 ∷ []), []))
read_parse-encode_parse_example =
    read_parse-encode_parse reference reference-Documented digits a_parse [] [] digits-WritesDigits
      a_word-NoNul (omega arith) (omega arith, tt) a_parse-short

abbrev a_bind : Bind
a_bind = record {
  portal = none;
  statement = 7;
  formats = binary ∷ [];
  num_params = 2;
  params = encode_all encode_value data_values;
  result_formats = text ∷ [];
}

a_bind-short : length (bind_layout digits a_bind) + 4 < 2 ^ 31
unfolding encode_all
a_bind-short = omega arith

read_bind-encode_bind_example :
    (message : Bytes) × (n : ℕ) × (encode_bind digits a_bind [] ≡ [] ++ message)
    × (length message ≡ n + 1)
    × (read_bind reference (message ++ [])
        ≡ ok (
          record {
            tag = b'B';
            len = n;
            portal = portal_name digits none;
            statement = statement_name digits 7;
            formats = binary ∷ [];
            values = data_values;
            result_formats = text ∷ [];
          },
          [],
        ))
read_bind-encode_bind_example =
    read_bind-encode_bind reference reference-Documented digits a_bind data_values [] []
      digits-WritesDigits
      (record {
        count = refl;
        params = refl;
        short = (tt, (omega arith, tt));
        few = omega arith;
        few_formats = omega arith;
        few_results = omega arith;
      })
      a_bind-short

abbrev error_word : Bytes
error_word = b'E' ∷ b'R' ∷ b'R' ∷ b'O' ∷ b'R' ∷ []

error_word-NoNul : NoNul error_word
error_word-NoNul = (
  (λ (e : b'E' ≡ 0). ground (arith, e)),
  (
    (λ (e : b'R' ≡ 0). ground (arith, e)),
    (
      (λ (e : b'R' ≡ 0). ground (arith, e)),
      ((λ (e : b'O' ≡ 0). ground (arith, e)), ((λ (e : b'R' ≡ 0). ground (arith, e)), tt)),
    ),
  ),
)

error_word-utf8 : is_utf8 error_word ≡ true
unfolding is_utf8
error_word-utf8 = refl

error_word-severity : try_from error_word ≡ some error
unfolding try_from find_severity eq_bytes
error_word-severity = refl

decode_notice-field_example :
    (notice : Notice) × (decode_notice reference (
        field b'S' error_word
        ++ (field b'V' error_word ++ (field b'C' a_word ++ (field b'M' a_word ++ 0 ∷ []))))
      ≡ ok notice)
    × (notice.severity ≡ error)
    × (slice notice.storage notice.code ≡ ok a_word)
    × (slice notice.storage notice.message ≡ ok a_word)
decode_notice-field_example =
    decode_notice-field reference reference-Documented error_word error_word a_word a_word [] 0
      error (error_word-NoNul, error_word-NoNul, a_word-NoNul, a_word-NoNul) error_word-utf8
      error_word-utf8 error_word-severity (omega arith)

abbrev a_setting : ParameterStatus
a_setting = record { name = a_word; value = a_word }

abbrev delivered : Bytes
delivered =
    b'S' ∷ 0 ∷ 0 ∷ 0 ∷ 10 ∷ b'h' ∷ b'i' ∷ 0 ∷ b'h' ∷ b'i' ∷ 0 ∷ b'Z' ∷ 0 ∷ 0 ∷ 0 ∷ 5 ∷ b'I' ∷ []

abbrev pg_stream : PgStream
pg_stream = record {
  inner = record { socket = arrives delivered ∷ []; sink = []; sent = []; wbuf = []; rbuf = [] };
  notifications = none;
  parameter_statuses = [];
  server_version_num = none;
}

pg_stream-Holds :
    Holds
      (settings_then (a_setting ∷ []) MessageFormat.ready_for_query (b'I' ∷ []) ++ [])
      pg_stream.inner
unfolding settings_then byte_of put_str_nul
pg_stream-Holds = record { clean = refl; delivers = ([], refl, (λ (e : delivered ≡ []). cc), refl) }

a_setting-IsSetting : IsSetting a_setting
unfolding put_str_nul
a_setting-IsSetting = (a_word-IsText, a_word-IsText, omega arith)

recv-settings_example :
    (left : List Delivery) × (recv reference pg_stream ≡ (
      ok (record { format = MessageFormat.ready_for_query; contents = b'I' ∷ [] }),
      moved (kept_all (a_setting ∷ []) pg_stream) left,
    ))
    × Holds [] (after_read pg_stream.inner left)
recv-settings_example =
    recv-settings reference reference-Documented (a_setting ∷ []) MessageFormat.ready_for_query
      (b'I' ∷ []) [] pg_stream (a_setting-IsSetting, tt) tt (omega arith) pg_stream-Holds
