-- ===== src/Mysql/Tests.antt =====
-- The MySQL protocol on concrete inputs.
mod Rows
mod Greetings
mod Connections
use rbdc.Base.{
  ℕ, ◌/◌, ◌≡◌, refl, inl, inr, true, List, [], ◌∷◌, ◌++◌, arith, Bytes, length, overwrite, take,
  drop, le_bytes, Option, some, none, ok, err, panic, protocol,
}
use rbdc.Base.Utf8.{is_utf8}
use rbdc.Crates.{reference, reference-Documented}
use rbdc.Io.Stream.{Delivery, arrives}
use rbdc.Io.Stream.Reads.{Holds, after_read}
use rbdc.Mysql.Capabilities
use rbdc.Mysql.Collation.{Collation, CharSet}
use rbdc.Mysql.Collation.Laws.{
  from_str-as_str, as_str-from_str, collation_id_injective, char_set_from_str-as_str,
  char_set_as_str-from_str, default_collation_lem,
}
use rbdc.Mysql.Collation.Names.{as_str, char_set_as_str, default_collation}
use rbdc.Mysql.Collation.Parse.{from_str, char_set_from_str}
use rbdc.Mysql.Lenenc.{
  put_uint_lenenc, get_uint_lenenc, put_str_lenenc, get_str_lenenc, put_bytes_lenenc,
  get_bytes_lenenc,
}
use rbdc.Mysql.Lenenc.Laws.{
  get_uint_lenenc-put_uint_lenenc, get_str_lenenc-put_str_lenenc, get_bytes_lenenc-put_bytes_lenenc,
}
use rbdc.Mysql.Packet.{max_chunk, encode_with}
use rbdc.Mysql.Packet.Frames.{frames, next_seq, encode_with-frames}
use rbdc.Mysql.Response.{decode_ok, decode_err, packet_eof}
use rbdc.Mysql.Response.Laws.{
  ok_layout, decode_ok-layout, decode_ok-header, decode_err-state, decode_err-plain,
}
use rbdc.Mysql.Row.{Row, decode_text, get, take_value}
use rbdc.Mysql.Row.Take.{left_behind, take_value-get}
use rbdc.Mysql.Row.Ranges.{encode_row}
use rbdc.Mysql.Row.Laws.{value_at, decode_text-encode_row, decode_text-short}
use rbdc.Mysql.Status
use rbdc.Mysql.Stream.{MySqlStream, row, is_eof, recv_packet, recv_payload, wait_until_ready}
use rbdc.Mysql.Stream.Drain.{answer, IsRow, IsLast, ended, wait_until_ready-answer}
use rbdc.Mysql.Stream.Parts.{Receives, recv_payload-Receives}
use rbdc.Mysql.Stream.Wait.{Finishes, wait_until_ready-Finishes}
use rbdc.Mysql.Stream.Receive.{recv_packet-encode_with}
use text.Mathlib.Text.{starts_with}

abbrev three : Bytes
three = 1 ∷ 2 ∷ 3 ∷ []

abbrev payload : Bytes → Bytes
payload buf = buf ++ three

abbrev arrived : Bytes
arrived = 3 ∷ 0 ∷ 0 ∷ 0 ∷ 1 ∷ 2 ∷ 3 ∷ []

abbrev connection : MySqlStream
connection = record {
  stream = record { socket = arrives arrived ∷ []; sink = []; sent = []; wbuf = []; rbuf = [] };
  capabilities = 0;
  server_version = (8, 0, 36);
  sequence_id = 0;
  waiting = [];
  charset = CharSet.utf8mb4;
  collation = Collation.utf8mb4_bin;
}

connection-Holds : Holds ((encode_with payload [] 0).0 ++ []) connection.stream
unfolding encode_with overwrite take drop
connection-Holds = record { clean = refl; delivers = ([], refl, (λ (e : arrived ≡ []). cc), refl) }

recv_packet-encode_with_example :
    (left : List Delivery) × (recv_packet reference connection ≡ (
      ok three,
      record connection {
        stream = after_read connection.stream left;
        sequence_id = (encode_with payload [] 0).1;
      },
    ))
    × Holds [] (after_read connection.stream left)
recv_packet-encode_with_example =
    recv_packet-encode_with reference reference-Documented payload 1 (2 ∷ 3 ∷ []) [] 0 connection
      (λ buf. refl) (λ (e : 1 ≡ 0xff). ground (arith, e)) (omega arith) connection-Holds

abbrev row_packet : Bytes
row_packet = 2 ∷ b'h' ∷ b'i' ∷ []

abbrev eof_packet : Bytes
eof_packet = 0xfe ∷ 0 ∷ 0 ∷ 2 ∷ 0 ∷ []

abbrev rest_of_answer : Bytes
rest_of_answer = 3 ∷ 0 ∷ 0 ∷ 4 ∷ 2 ∷ b'h' ∷ b'i' ∷ 5 ∷ 0 ∷ 0 ∷ 5 ∷ 0xfe ∷ 0 ∷ 0 ∷ 2 ∷ 0 ∷ []

abbrev waits : MySqlStream
waits = record connection {
  stream = record {
    socket = arrives rest_of_answer ∷ [];
    sink = [];
    sent = [];
    wbuf = [];
    rbuf = [];
  };
  waiting = row ∷ [];
}

waits-Holds : Holds (answer 4 (row_packet ∷ []) eof_packet ++ []) waits.stream
unfolding answer frames next_seq take drop
waits-Holds = record {
  clean = refl;
  delivers = ([], refl, (λ (e : rest_of_answer ≡ []). cc), refl);
}

row_packet-IsRow : IsRow reference row_packet
unfolding is_eof
row_packet-IsRow = ((λ (e : 2 ≡ 0xff). ground (arith, e)), refl)

eof_packet-IsLast : IsLast reference 0 eof_packet
unfolding is_eof packet_eof take drop
eof_packet-IsLast = (
  (λ (e : 0xfe ≡ 0xff). ground (arith, e)),
  refl,
  (record { warnings = 0; status = 2 }, refl, refl),
)

wait_until_ready-answer_example :
    (left : List Delivery) × (q : ℕ) × (wait_until_ready reference waits
      ≡ (ok tt, ended waits left q))
    × Holds [] (after_read waits.stream left)
wait_until_ready-answer_example =
    wait_until_ready-answer reference reference-Documented (row_packet ∷ []) eof_packet [] 4 waits
      (omega arith) (row_packet-IsRow, tt) eof_packet-IsLast refl refl waits-Holds

wait_until_ready-Finishes_example : Finishes reference waits (wait_until_ready reference waits)
wait_until_ready-Finishes_example = wait_until_ready-Finishes reference waits

recv_payload-Receives_example : Receives reference waits (recv_payload reference waits)
recv_payload-Receives_example = recv_payload-Receives reference waits

encode_with-frames_example :
    encode_with payload [] 255
    ≡ ([] ++ frames (length three / max_chunk) 255 three, next_seq (length three / max_chunk) 255)
encode_with-frames_example = encode_with-frames payload three [] 255 (λ b. refl)

get_uint_lenenc-put_uint_lenenc_example :
    get_uint_lenenc reference (put_uint_lenenc [] 70000 ++ three) ≡ ok (70000, three)
get_uint_lenenc-put_uint_lenenc_example =
    get_uint_lenenc-put_uint_lenenc reference reference-Documented 70000 three (omega arith)

abbrev word : Bytes
word = b'a' ∷ b'b' ∷ b'c' ∷ b'd' ∷ b'e' ∷ []

word_utf8 : is_utf8 word ≡ true
unfolding is_utf8
word_utf8 = refl

decode_err-state_example :
    decode_err reference Capabilities.protocol_41 (0xff ∷ le_bytes 2 1064 ++ (0x23 ∷ word ++ word))
    ≡ ok (record { error_code = 1064; sql_state = some word; error_message = word })
decode_err-state_example =
    decode_err-state reference reference-Documented Capabilities.protocol_41 1064 word word refl
      (omega arith) refl word_utf8 word_utf8

abbrev two_columns : List ℕ
two_columns = 0 ∷ 1 ∷ []

abbrev three_columns : List ℕ
three_columns = 0 ∷ 1 ∷ 2 ∷ []

abbrev sent_values : List (Option Bytes)
sent_values = some word ∷ none ∷ []

decode_text-encode_row_example :
    (row : Row) × (decode_text reference two_columns (encode_row sent_values) ≡ ok row)
    × (row.storage ≡ sent_values)
    × (get row 0 ≡ ok (value_at sent_values 0))
decode_text-encode_row_example =
    decode_text-encode_row reference reference-Documented two_columns sent_values 0 refl
      (omega arith, (tt, tt))

decode_text-short_example : decode_text reference three_columns (encode_row sent_values) ≡ panic
decode_text-short_example =
    decode_text-short reference reference-Documented three_columns sent_values (omega arith)
      (omega arith, (tt, tt))

abbrev sent_row : Row
sent_row = record {
  storage = some word ∷ some three ∷ [];
  values = some (1, 6) ∷ some (7, 10) ∷ [];
}

first_value : get sent_row 0 ≡ ok (some word)
unfolding get
first_value = refl

take_value-get_example :
    ((take_value sent_row 0).0 ≡ get sent_row 0)
    × (get (take_value sent_row 0).1 0 ≡ left_behind (get sent_row 0))
    × (get (take_value sent_row 0).1 1 ≡ get sent_row 1)
take_value-get_example = take_value-get sent_row 0 1 (λ (e : 1 ≡ 0). ground (arith, e))
