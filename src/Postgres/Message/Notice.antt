-- ===== src/Postgres/Message/Notice.antt =====
-- rbdc-pg/src/message/response.rs: the fields of an error or a notice, at offsets of 16 bits.
pub mod Laws
use rbdc.Base.{
  eq_bytes, ℕ, zero, suc, ◌+◌, ◌%◌, ◌^◌, Bool, true, false, ◌&&◌, not, List, [], ◌∷◌, Option, none,
  some, ◌==◌, ltb, if◌then◌else◌, Bytes, length, drop, get_elem?, Error, protocol, io, Outcome, ok,
  err, panic, and_then,
}
use rbdc.Base.Utf8.{is_utf8}
use rbdc.Crates.{Crates}
use rbdc.Mysql.Row.{slice}

pub data PgSeverity : Type 0 where
  panic_severity fatal error warning notice debug info log : PgSeverity

abbrev pub is_error : PgSeverity → Bool
is_error panic_severity = true
is_error fatal = true
is_error error = true
is_error _ = false

-- The arms of the `match`, in their order.
abbrev pub severity_arms : List (Bytes × PgSeverity)
severity_arms =
    (b'P' ∷ b'A' ∷ b'N' ∷ b'I' ∷ b'C' ∷ [], panic_severity)
    ∷ (b'F' ∷ b'A' ∷ b'T' ∷ b'A' ∷ b'L' ∷ [], fatal)
    ∷ (b'E' ∷ b'R' ∷ b'R' ∷ b'O' ∷ b'R' ∷ [], error)
    ∷ (b'W' ∷ b'A' ∷ b'R' ∷ b'N' ∷ b'I' ∷ b'N' ∷ b'G' ∷ [], warning)
    ∷ (b'N' ∷ b'O' ∷ b'T' ∷ b'I' ∷ b'C' ∷ b'E' ∷ [], notice)
    ∷ (b'D' ∷ b'E' ∷ b'B' ∷ b'U' ∷ b'G' ∷ [], debug)
    ∷ (b'I' ∷ b'N' ∷ b'F' ∷ b'O' ∷ [], info)
    ∷ (b'L' ∷ b'O' ∷ b'G' ∷ [], log)
    ∷ []

unfoldable pub find_severity : Bytes → List (Bytes × PgSeverity) → Option PgSeverity
unfolding eq_bytes
find_severity s [] = none
find_severity s ((name, severity) ∷ arms) =
    if eq_bytes s name then some severity else find_severity s arms

-- `PgSeverity::try_from`, none for its error
unfoldable pub try_from : Bytes → Option PgSeverity
unfolding find_severity
try_from s = find_severity s severity_arms

pub record Notice : Type 0 where
  pub storage : Bytes
  pub severity : PgSeverity
  pub message : ℕ × ℕ
  pub code : ℕ × ℕ

-- What the loop of the decoder has found.
pub record Found : Type 0 where
  pub severity_v : Option PgSeverity
  pub severity_s : Option PgSeverity
  pub message : ℕ × ℕ
  pub code : ℕ × ℕ

abbrev pub nothing : Found
nothing = record { severity_v = none; severity_s = none; message = (0, 0); code = (0, 0) }

abbrev pub notice_protocol_err : Error
notice_protocol_err = protocol "Postgres returned a non-UTF-8 string for its error message." []

-- `from_utf8(&buf[v.0..v.1])`, with its error
abbrev pub text_at : Bytes → ℕ × ℕ → Outcome Bytes
text_at storage v =
    and_then (slice storage v) λ s. if is_utf8 s then ok s else err notice_protocol_err

abbrev pub known_severity : Bytes → Option PgSeverity → Outcome PgSeverity
known_severity s none = err (protocol "unknown severity: {:?}" s)
known_severity s (some severity) = ok severity

-- The body of the loop.
unfoldable pub note_field : Bytes → ℕ → ℕ × ℕ → Found → Outcome Found
note_field storage field v found =
    if field == b'S'
    then (and_then (text_at storage v) λ s. ok (record found { severity_s = try_from s }))
    else if field == b'V'
    then (and_then (text_at storage v) λ s.
        and_then (known_severity s (try_from s))
          λ severity. ok (record found { severity_v = some severity }))
    else if field == b'M'
    then ok (record found { message = v })
    else if field == b'C'
    then ok (record found { code = v })
    else ok found

-- The unlocalized severity, or the localized one, or that of the log.
abbrev pub severity_or_default : Found → PgSeverity
severity_or_default found = elim found.severity_v [
  | some severity ↦ severity
  | none ↦ elim found.severity_s [ some severity ↦ severity | none ↦ log ]
]

module _ (c : Crates) where
  -- `Fields::next`: the field, its range, and the next offset.
  abbrev pub field_at : ℕ → ℕ → Option ℕ → Option (ℕ × (ℕ × ℕ) × ℕ)
  field_at ty offset none = none
  field_at ty offset (some at) =
      let nul = at % 2 ^ 16 in
      some (ty, ((offset + 1) % 2 ^ 16, (offset + nul + 1) % 2 ^ 16), (offset + nul + 2) % 2 ^ 16)

  abbrev pub next_of : Bytes → ℕ → Option ℕ → Outcome (Option (ℕ × (ℕ × ℕ) × ℕ))
  next_of storage offset none = panic
  next_of storage offset (some ty) =
      if ty == 0
      then ok none
      else let start = (offset + 1) % 2 ^ 16 in
        if ltb (length storage) start
        then panic
        else ok (field_at ty offset (c.memchr 0 (drop start storage)))

  unfoldable pub next : Bytes → ℕ → Outcome (Option (ℕ × (ℕ × ℕ) × ℕ))
  next storage offset = next_of storage offset (get_elem? storage offset)

  -- `for (field, v) in fields`, with fuel: with the three fields found, the next one ends it.
  notice_loop : ℕ → Bytes → ℕ → Found → Outcome Found
  notice_loop zero storage offset found = err (io "fuel")
  notice_loop (suc fuel) storage offset found = elim (next storage offset) [
    | ok none ↦ ok found
    | ok (some (field, v, more)) ↦
        if not (found.message.0 == 0) && not (found.code.0 == 0)
        then ok found
        else elim (note_field storage field v found) [
          | ok noted ↦ notice_loop fuel storage more noted
          | err e ↦ err e
          | panic ↦ panic
        ]
    | err e ↦ err e
    | panic ↦ panic
  ]

  -- `Notice::decode_with`
  unfoldable pub decode_notice : Bytes → Outcome Notice
  unfolding notice_loop
  decode_notice [] = err (protocol "Postgres returned a empty data" [])
  decode_notice (b ∷ bs) = and_then (notice_loop (length (b ∷ bs)) (b ∷ bs) 0 nothing) λ found.
      ok (record {
        storage = b ∷ bs;
        severity = severity_or_default found;
        message = found.message;
        code = found.code;
      })
