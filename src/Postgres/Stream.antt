-- ===== src/Postgres/Stream.antt =====
-- rbdc-pg/src/connection/stream.rs: the messages of a connection. What was changed before an error
-- stays changed. The channel of notifications is the list of those that were sent to it.
pub mod Laws
use rbdc.Base.{
  eq_bytes, ℕ, zero, suc, ◌+◌, ◌-◌, ◌*◌, ◌%◌, ◌^◌, ◌/◌, Bool, true, false, ◌&&◌, not, List, [], ◌∷◌,
  ◌++◌, Option, none, some, ltb, leb, ◌==◌, if◌then◌else◌, Bytes, length, take, drop, Error,
  protocol, response, io, Outcome, ok, err, panic, and_then,
}
use rbdc.Crates.{Crates}
use rbdc.Io.Stream.{BufStream, arriving, read_raw, write_with, flush}
use rbdc.Postgres.Message.{
  MessageFormat, format_number, Message, try_from_u8, Notification, ParameterStatus,
  decode_notification, decode_parameter_status,
}
use rbdc.Postgres.Message.Notice.{Notice, decode_notice}

pub record PgStream : Type 0 where
  pub inner : BufStream
  pub notifications : Option (List Notification)
  pub parameter_statuses : List (Bytes × Bytes)
  pub server_version_num : Option ℕ

abbrev pub Exec : Type 0 → Type 0
Exec A = PgStream → Outcome A × PgStream

abbrev pub pure : {A : Type 0} → A → Exec A
pure a s = (ok a, s)

abbrev pub lift : {A : Type 0} → Outcome A → Exec A
lift r s = (r, s)

abbrev pub continue : {A B : Type 0} → Outcome A → (A → Exec B) → Exec B
continue (ok a) f s = f a s
continue (err e) f s = (err e, s)
continue panic f s = (panic, s)

infixl 5 ◌>>=◌ ◌>>◌
abbrev pub ◌>>=◌ : {A B : Type 0} → Exec A → (A → Exec B) → Exec B
◌>>=◌ m f s = let (r, s') = m s in continue r f s'

abbrev pub ◌>>◌ : {A B : Type 0} → Exec A → Exec B → Exec B
m >> k = m >>= λ _. k

abbrev pub on_stream : {A : Type 0} → (BufStream → Outcome A × BufStream) → Exec A
on_stream f s = let (r, inner) = f s.inner in (r, record s { inner = inner })

-- `self.inner.read(n)`
abbrev pub read : ℕ → Exec Bytes
read n = on_stream (read_raw n)

-- `u32::from_str` of digits
abbrev pub digits_value : ℕ → Bytes → ℕ
digits_value acc [] = acc
digits_value acc (b ∷ bs) = digits_value (acc * 10 + (b - b'0')) bs

unfoldable pub parse_u32 : Bytes → Option ℕ
parse_u32 [] = none
parse_u32 (b ∷ bs) = let n = digits_value 0 (b ∷ bs) in if ltb n (2 ^ 32) then some n else none

abbrev pub is_digit : ℕ → Bool
is_digit ch = leb b'0' ch && leb ch b'9'

abbrev pub or_skip : Option ℕ → List ℕ
or_skip none = []
or_skip (some n) = n ∷ []

-- The loop over the characters: `part` is `s[from..i]`, which has only digits.
unfoldable pub version_parts : Bytes → Bytes → List ℕ
unfolding parse_u32
version_parts part [] = []
version_parts part (ch ∷ chs) =
    let rest = version_parts [] chs in
    let longer = version_parts (part ++ ch ∷ []) chs in
    if ch == b'.'
    then elim (parse_u32 part) [ none ↦ [] | some num ↦ num ∷ rest ]
    else if is_digit ch
    then elim chs [ [] ↦ or_skip (parse_u32 (part ++ ch ∷ [])) | _ ↦ longer ]
    else or_skip (parse_u32 part)

-- The arithmetic of 32 bits.
abbrev pub version_of : List ℕ → Option ℕ
version_of (major ∷ minor ∷ rev ∷ []) = some (((100 * major + minor) * 100 + rev) % 2 ^ 32)
version_of (major ∷ minor ∷ []) =
    if leb 10 major
    then some ((100 * 100 * major + minor) % 2 ^ 32)
    else some ((100 * major + minor) * 100 % 2 ^ 32)
version_of (major ∷ []) = some (100 * 100 * major % 2 ^ 32)
version_of _ = none

unfoldable pub parse_server_version : Bytes → Option ℕ
unfolding version_parts
parse_server_version s = version_of (version_parts [] s)

-- `BTreeMap::insert`
unfoldable pub insert_status : List (Bytes × Bytes) → Bytes → Bytes → List (Bytes × Bytes)
insert_status [] name value = (name, value) ∷ []
insert_status ((key, old) ∷ entries) name value =
    if eq_bytes key name
    then (name, value) ∷ entries
    else (key, old) ∷ insert_status entries name value

abbrev pub version_name : Bytes
version_name =
    b's' ∷ b'e' ∷ b'r' ∷ b'v' ∷ b'e' ∷ b'r' ∷ b'_' ∷ b'v' ∷ b'e' ∷ b'r' ∷ b's' ∷ b'i' ∷ b'o' ∷ b'n'
    ∷ []

-- The setting that a status informs about.
unfoldable pub keep_status : ParameterStatus → PgStream → PgStream
unfolding insert_status eq_bytes parse_server_version
keep_status status s =
    if eq_bytes status.name version_name
    then record s { server_version_num = parse_server_version status.value }
    else record s {
      parameter_statuses = insert_status s.parameter_statuses status.name status.value;
    }

-- `T: Encode` writes itself at the end of the buffer.
pub send : (Bytes → Bytes) → Exec (Unit {0})
send message s = on_stream flush (record s { inner = write_with message s.inner })

-- What `recv` does with a message: it is returned, or the loop goes on.
pub data Step : Type 0 where
  returned : Message → Step
  again : Step

module _ (c : Crates) where
  open c use {get_uint}

  -- The type and the size of a message, of its header.
  header_fields : Bytes → Outcome (MessageFormat × ℕ)
  header_fields header = and_then (get_uint 1 header) λ (v, rest).
      and_then (try_from_u8 v)
        λ format. and_then (get_uint 4 rest) λ (size, _). ok (format, (size + 2 ^ 32 - 4) % 2 ^ 32)

  recv_unchecked : Exec Message
  unfolding header_fields
  recv_unchecked = do
    header ← read 5
    fields ← lift (header_fields header)
    contents ← read fields.1
    pure (record { format = fields.0; contents = contents })

  -- The body of the loop; notices are only logged.
  handle : Message → Exec Step
  unfolding keep_status
  handle message s = elim message.format [
    | MessageFormat.error_response ↦
        continue (decode_notice c message.contents) (λ notice. lift (err (response notice.storage)))
          s
    | MessageFormat.notification_response ↦ elim s.notifications [
      | none ↦ (ok (returned message), s)
      | some buffer ↦
          continue (decode_notification c message.contents)
            (λ notification s.
              (ok again, record s { notifications = some (buffer ++ notification ∷ []) }))
            s
    ]
    | MessageFormat.parameter_status ↦
        continue (decode_parameter_status c message.contents)
          (λ status s. (ok again, keep_status status s)) s
    | MessageFormat.notice_response ↦
        continue (decode_notice c message.contents) (λ notice. pure again) s
    | _ ↦ (ok (returned message), s)
  ]

  after_step : Exec Message → Step → Exec Message
  after_step loop (returned message) = pure message
  after_step loop again = loop

  recv_loop : ℕ → Exec Message
  unfolding after_step
  recv_loop zero = lift (err (io "fuel"))
  recv_loop (suc fuel) = do
    message ← recv_unchecked
    step ← handle message
    after_step (recv_loop fuel) step

  -- Each round takes at least the five bytes of a header.
  unfoldable pub recv : Exec Message
  unfolding recv_loop recv_unchecked handle
  recv s = recv_loop (suc (arriving s.inner.socket)) s

  -- `recv_expect`, by the decoder of the type that is expected
  unfoldable pub recv_expect : {T : Type 0} → (Bytes → Outcome T) → MessageFormat → Exec T
  recv_expect decode format = do
    message ← recv
    (if not (format_number message.format == format_number format)
        then lift (
            err (
              protocol "expecting {:?} but received {:?}"
                (format_number format ∷ format_number message.format ∷ [])))
        else lift (decode message.contents))
