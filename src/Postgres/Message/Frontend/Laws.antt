-- ===== src/Postgres/Message/Frontend/Laws.antt =====
-- A server that reads by the protocol finds in a message what the driver wrote.
use native.Mathlib.Nat.{mod-eq_of_lt}
use rbdc.Base.{
  ℕ, ◌+◌, ◌%◌, ◌^◌, ◌≤◌, ◌<◌, ◌≡◌, ap, sym, ◌∙◌, ◌≢◌, List, [], ◌∷◌, ◌++◌, append-nil, append_assoc,
  Option, none, some, arith, Bytes, length, length-append, be_bytes, length-be_bytes, All,
  All-append, ok, Reader, ◌>>=◌, pure, le→not_ltb,
}
use rbdc.Crates.{Crates, Documented, eq_reference}
use rbdc.Io.{get_bytes_nul, put_str_nul}
use rbdc.Io.Laws.{NoNul, get_bytes_nul-append, get_uint-be_bytes}
use rbdc.Postgres.Io.{put_length_prefixed, put_statement_name}
use rbdc.Postgres.Io.Laws.{put_length_prefixed-body}
use rbdc.Postgres.Message.{repeat}
use rbdc.Postgres.Message.Laws.{encode_all, repeat-encode_all}
use rbdc.Postgres.Message.Frontend.{
  PgValueFormat, format_code, put_formats, put_oids, Parse, parse_body, encode_parse,
}

-- What the loops write, behind what the buffer held.
put_oids-append :
    (oids : List ℕ) (buf : Bytes) → put_oids oids buf ≡ buf ++ encode_all (be_bytes 4) oids
unfolding put_oids encode_all
put_oids-append [] buf = sym (append-nil buf)
put_oids-append (oid ∷ oids) buf =
    put_oids-append oids (buf ++ be_bytes 4 oid)
    ∙ append_assoc buf (be_bytes 4 oid) (encode_all (be_bytes 4) oids)

abbrev pub format_bytes : PgValueFormat → Bytes
format_bytes format = be_bytes 2 (format_code format)

pub put_formats-append :
    (formats : List PgValueFormat) (buf : Bytes)
    → put_formats formats buf ≡ buf ++ encode_all format_bytes formats
unfolding put_formats encode_all
put_formats-append [] buf = sym (append-nil buf)
put_formats-append (format ∷ formats) buf =
    put_formats-append formats (buf ++ format_bytes format)
    ∙ append_assoc buf (format_bytes format) (encode_all format_bytes formats)

-- A tag, the length, and a body that is appended.
pub tagged :
    (tag : ℕ) (f : Bytes → Bytes) (p buf : Bytes)
    → ((b : Bytes) → f b ≡ b ++ p)
    → length p + 4 < 2 ^ 31
    → put_length_prefixed f (buf ++ tag ∷ []) ≡ buf ++ (tag ∷ (be_bytes 4 (length p + 4) ++ p))
tagged tag f p buf h lt =
    put_length_prefixed-body f p (buf ++ tag ∷ []) h (omega arith)
    ∙ append_assoc buf (tag ∷ []) (be_bytes 4 (length p + 4) ++ p)

-- The digits of the crate itoa.
abbrev pub IsDigit : ℕ → Type 0
IsDigit b = b'0' ≤ b × b ≤ b'9'

abbrev pub WritesDigits : (ℕ → Bytes) → Type 0
WritesDigits format = (n : ℕ) → All IsDigit (format n)

digits-NoNul : (bs : Bytes) → All IsDigit bs → NoNul bs
digits-NoNul [] h = tt
digits-NoNul (b ∷ bs) (h, hs) = ((λ (e : b ≡ 0). omega arith), digits-NoNul bs hs)

abbrev pub statement_prefix : Bytes
statement_prefix = b'r' ∷ b'b' ∷ b'd' ∷ b'c' ∷ b'_' ∷ b's' ∷ b'_' ∷ []

abbrev pub portal_prefix : Bytes
portal_prefix = b'r' ∷ b'b' ∷ b'd' ∷ b'c' ∷ b'_' ∷ b'p' ∷ b'_' ∷ []

positive-NoNul : (bs : Bytes) → All (λ b. 0 < b) bs → NoNul bs
positive-NoNul [] h = tt
positive-NoNul (b ∷ bs) (h, hs) = ((λ (e : b ≡ 0). omega arith), positive-NoNul bs hs)

statement_prefix-NoNul : NoNul statement_prefix
statement_prefix-NoNul = positive-NoNul statement_prefix (
  omega arith,
  (omega arith, (omega arith, (omega arith, (omega arith, (omega arith, (omega arith, tt)))))),
)

portal_prefix-NoNul : NoNul portal_prefix
portal_prefix-NoNul = positive-NoNul portal_prefix (
  omega arith,
  (omega arith, (omega arith, (omega arith, (omega arith, (omega arith, (omega arith, tt)))))),
)

module _ (format : ℕ → Bytes) where
  abbrev pub statement_name : ℕ → Bytes
  statement_name id = statement_prefix ++ format id

  abbrev pub portal_name : Option ℕ → Bytes
  portal_name none = []
  portal_name (some id) = portal_prefix ++ format id

  abbrev pub parse_layout : Parse → Bytes
  parse_layout self =
      (statement_name self.statement ++ 0 ∷ [])
      ++ ((self.query ++ 0 ∷ [])
          ++ (be_bytes 2 (length self.param_types) ++ encode_all (be_bytes 4) self.param_types))

  parse_body-layout :
      (self : Parse) (buf : Bytes)
      → length self.param_types < 2 ^ 16
      → parse_body format self buf ≡ buf ++ parse_layout self
  unfolding put_str_nul put_statement_name
  parse_body-layout self buf h =
      put_oids-append self.param_types (
        put_str_nul (put_statement_name format self.statement buf) self.query
        ++ be_bytes 2 (length self.param_types % 2 ^ 16))
      ∙ (rw (mod-eq_of_lt h) (simp (append_assoc)))

pub statement_name-NoNul :
    (format : ℕ → Bytes) (id : ℕ) → WritesDigits format → NoNul (statement_name format id)
statement_name-NoNul format id w =
    All-append (λ b. b ≢ 0) statement_prefix (format id) statement_prefix-NoNul
      (digits-NoNul (format id) (w id))

pub portal_name-NoNul :
    (format : ℕ → Bytes) (id : Option ℕ) → WritesDigits format → NoNul (portal_name format id)
portal_name-NoNul format none w = tt
portal_name-NoNul format (some id) w =
    All-append (λ b. b ≢ 0) portal_prefix (format id) portal_prefix-NoNul
      (digits-NoNul (format id) (w id))

-- What a server reads of `Parse`: the tag, the length, the name, the query and the types.
abbrev pub SentParse : Type 0
SentParse = ℕ × ℕ × Bytes × Bytes × List ℕ

module _ (c : Crates) where
  open c use {get_uint}

  unfoldable pub read_parse : Reader SentParse
  read_parse = do
    tag ← get_uint 1
    len ← get_uint 4
    name ← get_bytes_nul c
    query ← get_bytes_nul c
    cnt ← get_uint 2
    types ← repeat cnt (get_uint 4)
    pure (tag, len, name, query, types)

module _ (c : Crates) (d : Documented c) where
  pub one_tag : (tag : ℕ) (rest : Bytes) → tag < 256 → c.get_uint 1 (tag ∷ rest) ≡ ok (tag, rest)
  one_tag tag rest h = rw (mod-eq_of_lt h) at (get_uint-be_bytes c d 1 tag rest h)

  pub nul_read :
      (xs rest : Bytes) → NoNul xs → get_bytes_nul c ((xs ++ 0 ∷ []) ++ rest) ≡ ok (xs, rest)
  nul_read xs rest h =
      rw (eq_reference c d, append_assoc xs (0 ∷ []) rest) (get_bytes_nul-append xs rest h)

  read_parse-parse_layout :
      (format : ℕ → Bytes) (self : Parse) (n : ℕ) (rest : Bytes)
      → WritesDigits format
      → NoNul self.query
      → length self.param_types < 2 ^ 16
      → All (λ oid. oid < 2 ^ 32) self.param_types
      → n < 2 ^ 32
      → read_parse c (b'P' ∷ (be_bytes 4 n ++ (parse_layout format self ++ rest)))
        ≡ ok ((b'P', n, statement_name format self.statement, self.query, self.param_types), rest)
  unfolding read_parse
  read_parse-parse_layout format self n rest w q h o lt =
      let types = encode_all (be_bytes 4) self.param_types in
      let counted = be_bytes 2 (length self.param_types) ++ types in
      let queried = (self.query ++ 0 ∷ []) ++ counted in
      let name = statement_name format self.statement in
      rw
        (
          append_assoc (name ++ 0 ∷ []) queried rest,
          append_assoc (self.query ++ 0 ∷ []) counted rest,
          append_assoc (be_bytes 2 (length self.param_types)) types rest,
        )
        (ground (
          arith,
          one_tag b'P'
              (be_bytes 4 n
                ++ ((name ++ 0 ∷ [])
                    ++ ((self.query ++ 0 ∷ [])
                        ++ (be_bytes 2 (length self.param_types) ++ (types ++ rest)))))
              (omega arith),
          get_uint-be_bytes c d 4 n
              ((name ++ 0 ∷ [])
                ++ ((self.query ++ 0 ∷ [])
                    ++ (be_bytes 2 (length self.param_types) ++ (types ++ rest))))
              lt,
          nul_read name
              ((self.query ++ 0 ∷ []) ++ (be_bytes 2 (length self.param_types) ++ (types ++ rest)))
              (statement_name-NoNul format self.statement w),
          nul_read self.query (be_bytes 2 (length self.param_types) ++ (types ++ rest)) q,
          get_uint-be_bytes c d 2 (length self.param_types) (types ++ rest) h,
          repeat-encode_all (c.get_uint 4) (be_bytes 4) (λ oid. oid < 2 ^ 32)
              (λ oid rest lt. get_uint-be_bytes c d 4 oid rest lt) self.param_types rest o,
        ))

  -- A server reads in the message Parse its tag, a length that counts all but the tag, and the name, the
  -- query and the types that the driver wrote, if the query has no NUL, there are fewer than 2^16 types of
  -- 32 bits, and the message is shorter than 2^31 bytes.
  pub read_parse-encode_parse :
      (format : ℕ → Bytes) (self : Parse) (buf rest : Bytes)
      → WritesDigits format
      → NoNul self.query
      → length self.param_types < 2 ^ 16
      → All (λ oid. oid < 2 ^ 32) self.param_types
      → length (parse_layout format self) + 4 < 2 ^ 31
      → (message : Bytes) × (n : ℕ) × (encode_parse format self buf ≡ ok (buf ++ message))
        × (length message ≡ n + 1)
        × (read_parse c (message ++ rest)
            ≡ ok (
              (b'P', n, statement_name format self.statement, self.query, self.param_types),
              rest,
            ))
  unfolding encode_parse
  read_parse-encode_parse format self buf rest w q h o l =
      let layout = parse_layout format self in
      let n = length layout + 4 in
      (
        b'P' ∷ (be_bytes 4 n ++ layout),
        n,
        rw (encode_parse, le→not_ltb 65535 (length self.param_types) (omega arith))
            (ap ok (
              tagged b'P' (parse_body format self) layout buf
                (λ b. parse_body-layout format self b h) l)),
        omega (arith, length-append (be_bytes 4 n) layout, length-be_bytes 4 n),
        rw (append_assoc (be_bytes 4 n) layout rest)
            (read_parse-parse_layout format self n rest w q h o (omega arith)),
      )
