-- ===== src/Postgres/Message.antt =====
-- rbdc-pg/src/message: the formats of the messages, and the contents of the messages of the server.
pub mod Laws
pub mod DataRow
pub mod Frontend
pub mod Notice
use rbdc.Base.{
  ℕ, zero, suc, ◌+◌, ◌^◌, Bool, not, List, [], ◌∷◌, Option, none, some, ◌==◌, if◌then◌else◌, Bytes,
  match_number, Error, protocol, Outcome, ok, err, panic, and_then, Reader, pure, fail, ◌>>=◌,
  value_of, length, drop, ltb,
}
use rbdc.Crates.{Crates}
use rbdc.Io.{get_bytes_nul, get_str_nul}

pub data MessageFormat : Type 0 where
  authentication backend_key_data bind_complete close_complete command_complete : MessageFormat
  copy_data copy_done copy_in_response copy_out_response data_row : MessageFormat
  empty_query_response error_response no_data notice_response : MessageFormat
  notification_response parameter_description parameter_status parse_complete : MessageFormat
  portal_suspended ready_for_query row_description : MessageFormat

-- The discriminant of a format.
unfoldable pub format_number : MessageFormat → ℕ
format_number MessageFormat.authentication = 0
format_number MessageFormat.backend_key_data = 1
format_number MessageFormat.bind_complete = 2
format_number MessageFormat.close_complete = 3
format_number MessageFormat.command_complete = 4
format_number MessageFormat.copy_data = 5
format_number MessageFormat.copy_done = 6
format_number MessageFormat.copy_in_response = 7
format_number MessageFormat.copy_out_response = 8
format_number MessageFormat.data_row = 9
format_number MessageFormat.empty_query_response = 10
format_number MessageFormat.error_response = 11
format_number MessageFormat.no_data = 12
format_number MessageFormat.notice_response = 13
format_number MessageFormat.notification_response = 14
format_number MessageFormat.parameter_description = 15
format_number MessageFormat.parameter_status = 16
format_number MessageFormat.parse_complete = 17
format_number MessageFormat.portal_suspended = 18
format_number MessageFormat.ready_for_query = 19
format_number MessageFormat.row_description = 20

-- The arms of the `match`, in their order.
abbrev pub format_arms : List (ℕ × MessageFormat)
format_arms =
    (b'1', MessageFormat.parse_complete)
    ∷ (b'2', MessageFormat.bind_complete)
    ∷ (b'3', MessageFormat.close_complete)
    ∷ (b'C', MessageFormat.command_complete)
    ∷ (b'd', MessageFormat.copy_data)
    ∷ (b'c', MessageFormat.copy_done)
    ∷ (b'G', MessageFormat.copy_in_response)
    ∷ (b'H', MessageFormat.copy_out_response)
    ∷ (b'D', MessageFormat.data_row)
    ∷ (b'E', MessageFormat.error_response)
    ∷ (b'I', MessageFormat.empty_query_response)
    ∷ (b'A', MessageFormat.notification_response)
    ∷ (b'K', MessageFormat.backend_key_data)
    ∷ (b'N', MessageFormat.notice_response)
    ∷ (b'R', MessageFormat.authentication)
    ∷ (b'S', MessageFormat.parameter_status)
    ∷ (b'T', MessageFormat.row_description)
    ∷ (b'Z', MessageFormat.ready_for_query)
    ∷ (b'n', MessageFormat.no_data)
    ∷ (b's', MessageFormat.portal_suspended)
    ∷ (b't', MessageFormat.parameter_description)
    ∷ []

abbrev pub known_format : ℕ → Option MessageFormat → Outcome MessageFormat
known_format v none = err (protocol "unknown message type: {:?}" (v ∷ []))
known_format v (some format) = ok format

unfoldable pub try_from_u8 : ℕ → Outcome MessageFormat
unfolding match_number
try_from_u8 v = known_format v (match_number v format_arms)

pub record Message : Type 0 where
  pub format : MessageFormat
  pub contents : Bytes

-- The values of a loop `for _ in 0..n` that reads each of them.
unfoldable pub repeat {ℓ} : {A : Type ℓ} → ℕ → Reader A → Reader (List A)
repeat zero m = pure []
repeat (suc n) m = do x ← m; xs ← repeat n m; pure (x ∷ xs)

-- A number of 0 stands for none.
abbrev pub nonzero : ℕ → Option ℕ
nonzero n = if n == 0 then none else some n

-- The signed numbers are their bit patterns.
pub record Field : Type 0 where
  pub name : Bytes
  pub relation_id : Option ℕ
  pub relation_attribute_no : Option ℕ
  pub data_type_id : ℕ
  pub data_type_size : ℕ
  pub type_modifier : ℕ
  pub format : ℕ

pub record RowDescription : Type 0 where
  pub fields : List Field

pub record ParameterDescription : Type 0 where
  pub types : List ℕ

pub record ParameterStatus : Type 0 where
  pub name : Bytes
  pub value : Bytes

pub record Notification : Type 0 where
  pub process_id : ℕ
  pub channel : Bytes
  pub payload : Bytes

pub record BackendKeyData : Type 0 where
  pub process_id : ℕ
  pub secret_key : ℕ

pub record CopyResponse : Type 0 where
  pub format : ℕ
  pub num_columns : ℕ
  pub format_codes : List ℕ

pub data TransactionStatus : Type 0 where
  idle transaction failed : TransactionStatus

abbrev pub status_of : ℕ → Outcome TransactionStatus
status_of status =
    if status == b'I'
    then ok idle
    else if status == b'T'
    then ok transaction
    else if status == b'E'
    then ok failed
    else err (protocol "unknown transaction status: {:?}" (status ∷ []))

-- `ReadyForQuery::decode_with`, whose only field is the status
unfoldable pub decode_ready_for_query : Bytes → Outcome TransactionStatus
decode_ready_for_query [] = panic
decode_ready_for_query (status ∷ _) = status_of status

-- `CopyDone::decode_with`
unfoldable pub decode_copy_done : Bytes → Outcome (Unit {0})
decode_copy_done [] = ok tt
decode_copy_done (b ∷ bs) = err (protocol "expected no data for CopyDone, got: {:?}" (b ∷ bs))

module _ (c : Crates) where
  open c use {get_uint, read_uint}

  field_reader : Reader Field
  field_reader = do
    name ← get_str_nul c
    relation_id ← get_uint 4
    relation_attribute_no ← get_uint 2
    data_type_id ← get_uint 4
    data_type_size ← get_uint 2
    type_modifier ← get_uint 4
    format ← get_uint 2
    pure (record {
      name = name;
      relation_id = nonzero relation_id;
      relation_attribute_no = nonzero relation_attribute_no;
      data_type_id = data_type_id;
      data_type_size = data_type_size;
      type_modifier = type_modifier;
      format = format;
    })

  row_description_reader : Reader RowDescription
  row_description_reader = do
    cnt ← get_uint 2
    fields ← repeat cnt field_reader
    pure (record { fields = fields })

  unfoldable pub decode_row_description : Bytes → Outcome RowDescription
  unfolding row_description_reader field_reader
  decode_row_description buf = value_of (row_description_reader buf)

  parameter_description_reader : Reader ParameterDescription
  parameter_description_reader = do
    cnt ← get_uint 2
    types ← repeat cnt (get_uint 4)
    pure (record { types = types })

  unfoldable pub decode_parameter_description : Bytes → Outcome ParameterDescription
  unfolding parameter_description_reader
  decode_parameter_description buf = value_of (parameter_description_reader buf)

  -- A negative number of columns has no codes.
  copy_response_reader : Reader CopyResponse
  copy_response_reader = do
    format ← get_uint 1
    num_columns ← get_uint 2
    format_codes ← repeat (if ltb num_columns (2 ^ 15) then num_columns else 0) (get_uint 2)
    pure (record { format = format; num_columns = num_columns; format_codes = format_codes })

  unfoldable pub decode_copy_response : Bytes → Outcome CopyResponse
  unfolding copy_response_reader
  decode_copy_response buf = value_of (copy_response_reader buf)

  parameter_status_reader : Reader ParameterStatus
  parameter_status_reader = do
    name ← get_str_nul c
    value ← get_str_nul c
    pure (record { name = name; value = value })

  unfoldable pub decode_parameter_status : Bytes → Outcome ParameterStatus
  unfolding parameter_status_reader
  decode_parameter_status buf = value_of (parameter_status_reader buf)

  notification_reader : Reader Notification
  notification_reader = do
    process_id ← get_uint 4
    channel ← get_bytes_nul c
    payload ← get_bytes_nul c
    pure (record { process_id = process_id; channel = channel; payload = payload })

  unfoldable pub decode_notification : Bytes → Outcome Notification
  unfolding notification_reader
  decode_notification buf = value_of (notification_reader buf)

  -- `read_u32(&buf[offset..])` and its kin
  abbrev pub read_at : ℕ → ℕ → Bytes → Outcome ℕ
  read_at n offset buf = if ltb (length buf) offset then panic else read_uint n (drop offset buf)

  unfoldable pub decode_backend_key_data : Bytes → Outcome BackendKeyData
  decode_backend_key_data buf = and_then (read_uint 4 buf) λ process_id.
      and_then (read_at 4 4 buf)
        λ secret_key. ok (record { process_id = process_id; secret_key = secret_key })
