-- ===== src/Postgres/Stream/Laws.antt =====
-- The messages of a server, received as it sent them.
use native.Mathlib.Nat.{mod-eq_of_lt}
use rbdc.Base.{
  eq_bytes, ℕ, zero, suc, ◌+◌, ◌-◌, ◌%◌, ◌^◌, ◌<◌, ◌≡◌, refl, ap, sym, ◌∙◌, subst, Bool-cases, inl,
  inr, List, [], ◌∷◌, ◌++◌, append-nil, append_assoc, arith, Bytes, length, length-append,
  take-append, drop-append, be_bytes, All, ok, if◌then◌else◌,
}
use rbdc.Crates.{Crates, Documented}
use rbdc.Io.{put_str_nul}
use rbdc.Io.Laws.{get_str_nul-put_str_nul, get_uint-be_bytes}
use rbdc.Io.Stream.{Delivery, arriving}
use rbdc.Io.Stream.Reads.{Holds, after_read, read_raw_lem}
use rbdc.Io.Stream.Reads.Spent.{arriving-Delivers}
use rbdc.Postgres.Message.{MessageFormat, Message, ParameterStatus, decode_parameter_status}
use rbdc.Postgres.Message.Laws.{byte_of, format_found, IsText}
use rbdc.Postgres.Stream.{
  PgStream, read, header_fields, recv_unchecked, handle, returned, again, after_step, recv_loop,
  recv, keep_status, insert_status, parse_server_version, version_name,
}

-- A message as the server sends it.
abbrev pub frame : MessageFormat → Bytes → Bytes
frame format contents = byte_of format ∷ (be_bytes 4 (length contents + 4) ++ contents)

-- The state after messages were received, before their settings are kept.
abbrev pub moved : PgStream → List Delivery → PgStream
moved s left = record s { inner = after_read s.inner left }

-- A read of the first part of what the stream holds.
read-append :
    (n : ℕ) (bs rest : Bytes) (s : PgStream)
    → length bs ≡ n
    → Holds (bs ++ rest) s.inner
    → (left : List Delivery) × (read n s ≡ (ok bs, moved s left))
      × Holds rest (after_read s.inner left)
read-append n bs rest s e h =
    let (left, r, held) =
      read_raw_lem n (bs ++ rest) s.inner h (omega (arith, length-append bs rest)) in
    (
      left,
      rw (r, take-append n bs rest (sym e)),
      subst (λ x. Holds x (after_read s.inner left)) (drop-append n bs rest (sym e)) held,
    )

byte_of_lt : (format : MessageFormat) → byte_of format < 256
unfolding byte_of
byte_of_lt MessageFormat.authentication = omega arith
byte_of_lt _ = omega arith

module _ (c : Crates) (d : Documented c) where
  header_fields-byte_of :
      (format : MessageFormat) (n : ℕ)
      → n + 4 < 2 ^ 32
      → header_fields c (byte_of format ∷ be_bytes 4 (n + 4)) ≡ ok (format, n)
  unfolding header_fields
  header_fields-byte_of format n h =
      let size : (n + 4 + 2 ^ 32 - 4) % 2 ^ 32 ≡ n = omega arith in
      ground (
        arith,
        rw (mod-eq_of_lt (byte_of_lt format)) at
            (get_uint-be_bytes c d 1 (byte_of format) (be_bytes 4 (n + 4)) (byte_of_lt format)),
        get_uint-be_bytes c d 4 (n + 4) [] h,
        format_found format,
        size,
      )

  recv_unchecked-frame :
      (format : MessageFormat) (contents rest : Bytes) (s : PgStream)
      → length contents + 4 < 2 ^ 32
      → Holds (frame format contents ++ rest) s.inner
      → (left : List Delivery) × (recv_unchecked c s
          ≡ (ok (record { format = format; contents = contents }), moved s left))
        × Holds rest (after_read s.inner left)
  recv_unchecked-frame format contents rest s lt h =
      let header = byte_of format ∷ be_bytes 4 (length contents + 4) in
      let (left1, r1, held1) =
        read-append 5 header (contents ++ rest) s refl
          (subst (λ x. Holds x s.inner) (append_assoc header contents rest) h) in
      let (left2, r2, held2) =
        read-append (length contents) contents rest (moved s left1) refl held1 in
      (
        left2,
        unfold recv_unchecked in
            ground (arith, r1, r2, header_fields-byte_of format (length contents) lt),
        held2,
      )

-- The setting kept, field by field.
abbrev pub kept : ParameterStatus → PgStream → PgStream
kept status s = record s {
  server_version_num =
      if eq_bytes status.name version_name
      then parse_server_version status.value
      else s.server_version_num;
  parameter_statuses =
      if eq_bytes status.name version_name
      then s.parameter_statuses
      else insert_status s.parameter_statuses status.name status.value;
}

keep_status-kept : (status : ParameterStatus) (s : PgStream) → keep_status status s ≡ kept status s
unfolding keep_status
keep_status-kept status s = elim (Bool-cases (eq_bytes status.name version_name)) [
  | inl version ↦ rw (keep_status, version) refl
  | inr other ↦ rw (keep_status, other) refl
]

-- The settings kept in the order in which they came.
unfoldable pub kept_all : List ParameterStatus → PgStream → PgStream
kept_all [] s = s
kept_all (status ∷ statuses) s = kept_all statuses (kept status s)

kept_all-moved :
    (statuses : List ParameterStatus) (s : PgStream) (left : List Delivery)
    → kept_all statuses (moved s left) ≡ moved (kept_all statuses s) left
unfolding kept_all
kept_all-moved [] s left = refl
kept_all-moved (status ∷ statuses) s left = kept_all-moved statuses (kept status s) left

abbrev pub status_contents : ParameterStatus → Bytes
status_contents status = put_str_nul [] status.name ++ put_str_nul [] status.value

-- Some settings and then a message, as the server sends them.
unfoldable pub settings_then : List ParameterStatus → MessageFormat → Bytes → Bytes
settings_then [] format contents = frame format contents
settings_then (status ∷ statuses) format contents =
    frame MessageFormat.parameter_status (status_contents status)
    ++ settings_then statuses format contents

-- A format that `recv` returns, whatever the state.
abbrev pub IsReturned : MessageFormat → Type 0
IsReturned MessageFormat.error_response = ⊥
IsReturned MessageFormat.notification_response = ⊥
IsReturned MessageFormat.parameter_status = ⊥
IsReturned MessageFormat.notice_response = ⊥
IsReturned _ = Unit

-- The texts of a setting are texts, and together they are short enough for a message.
abbrev pub IsSetting : ParameterStatus → Type 0
IsSetting status =
    IsText status.name × IsText status.value × length (status_contents status) + 4 < 2 ^ 32

settings_then-long :
    (statuses : List ParameterStatus) (format : MessageFormat) (contents : Bytes)
    → length statuses < length (settings_then statuses format contents)
unfolding settings_then
settings_then-long [] format contents = omega arith
settings_then-long (status ∷ statuses) format contents = omega (
  arith,
  settings_then-long statuses format contents,
  length-append (frame MessageFormat.parameter_status (status_contents status))
      (settings_then statuses format contents),
)

module _ (c : Crates) (d : Documented c) where
  handle-IsReturned :
      (format : MessageFormat) (contents : Bytes) (s : PgStream)
      → IsReturned format
      → handle c (record { format = format; contents = contents }) s
        ≡ (ok (returned (record { format = format; contents = contents })), s)
  unfolding handle
  handle-IsReturned MessageFormat.error_response contents s r = absurd r
  handle-IsReturned MessageFormat.notification_response contents s r = absurd r
  handle-IsReturned MessageFormat.parameter_status contents s r = absurd r
  handle-IsReturned MessageFormat.notice_response contents s r = absurd r
  handle-IsReturned _ contents s r = refl

  decode_parameter_status-contents :
      (status : ParameterStatus)
      → IsSetting status
      → decode_parameter_status c (status_contents status) ≡ ok status
  unfolding decode_parameter_status
  decode_parameter_status-contents status (n, v, lt) =
      let last =
        rw (append-nil (put_str_nul [] status.value)) at
          (get_str_nul-put_str_nul c d status.value [] v.0 v.1) in
      ground
        (arith, get_str_nul-put_str_nul c d status.name (put_str_nul [] status.value) n.0 n.1, last)

  handle-setting :
      (status : ParameterStatus) (s : PgStream)
      → IsSetting status
      → handle c
          (record { format = MessageFormat.parameter_status; contents = status_contents status })
          s
        ≡ (ok again, kept status s)
  unfolding handle
  handle-setting status s h =
      rw (handle, decode_parameter_status-contents status h)
        (ap (λ x. (ok again, x)) (keep_status-kept status s))

  Received : ℕ → PgStream → Message → List ParameterStatus → Bytes → Type 0
  Received n s message statuses rest =
      (left : List Delivery) × (recv_loop c n s ≡ (ok message, moved (kept_all statuses s) left))
      × Holds rest (after_read s.inner left)

  recv_loop-settings :
      (statuses : List ParameterStatus) (format : MessageFormat) (contents rest : Bytes) (n : ℕ)
      (s : PgStream)
      → length statuses < n
      → All IsSetting statuses
      → IsReturned format
      → length contents + 4 < 2 ^ 32
      → Holds (settings_then statuses format contents ++ rest) s.inner
      → Received n s (record { format = format; contents = contents }) statuses rest
  unfolding Received settings_then kept_all recv_loop after_step
  recv_loop-settings statuses format contents rest zero s hn hs r lt h = absurd (omega arith)
  recv_loop-settings [] format contents rest (suc n) s hn hs r lt h =
      let (left, e, held) = recv_unchecked-frame c d format contents rest s lt h in
      (left, rw (recv_loop, e, handle-IsReturned format contents (moved s left) r) refl, held)
  recv_loop-settings (status ∷ statuses) format contents rest (suc n) s hn (hs, hss) r lt h =
      let (left1, e1, held1) =
        recv_unchecked-frame c d MessageFormat.parameter_status (status_contents status)
          (settings_then statuses format contents ++ rest) s (hs.2)
          (subst (λ x. Holds x s.inner)
            (append_assoc (frame MessageFormat.parameter_status (status_contents status))
              (settings_then statuses format contents) rest)
            h) in
      let (left2, e2, held2) =
        recv_loop-settings statuses format contents rest n (kept status (moved s left1))
          (omega arith) hss r lt held1 in
      (
        left2,
        rw (recv_loop, e1, handle-setting status (moved s left1) hs)
            (e2
              ∙ ap (λ x. (ok (record { format = format; contents = contents }), moved x left2))
                  (kept_all-moved statuses (kept status s) left1)),
        held2,
      )

  -- Where the socket delivers some settings of the server and then a message of a format that is neither
  -- an error, a notification, a setting nor a notice, all short enough for their lengths of 32 bits and
  -- the settings in UTF-8 without NULs, `recv` returns this message, the settings are kept in their
  -- order, and the stream holds what follows.
  pub recv-settings :
      (statuses : List ParameterStatus) (format : MessageFormat) (contents rest : Bytes)
      (s : PgStream)
      → All IsSetting statuses
      → IsReturned format
      → length contents + 4 < 2 ^ 32
      → Holds (settings_then statuses format contents ++ rest) s.inner
      → (left : List Delivery) × (recv c s ≡ (
        ok (record { format = format; contents = contents }),
        moved (kept_all statuses s) left,
      ))
        × Holds rest (after_read s.inner left)
  unfolding recv Received
  recv-settings statuses format contents rest s hs r lt h =
      let sent = settings_then statuses format contents in
      recv_loop-settings statuses format contents rest (suc (arriving s.inner.socket)) s
        (omega (
          arith,
          arriving-Delivers (sent ++ rest) s.inner.socket h.delivers,
          length-append sent rest,
          settings_then-long statuses format contents,
        ))
        hs r lt h
