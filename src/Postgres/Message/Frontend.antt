-- ===== src/Postgres/Message/Frontend.antt =====
-- rbdc-pg/src/message: the messages of the driver. The decimal digits of an id are those of the crate
-- itoa, and the hexadecimal digits of a hash those of the crate md5, both parameters.
pub mod Laws
pub mod Binding
use rbdc.Base.{
  ℕ, ◌+◌, ◌%◌, ◌*◌, ◌^◌, Bool, List, [], ◌∷◌, ◌++◌, Option, none, some, Bytes, length, be_bytes,
  ltb, if◌then◌else◌, Outcome, ok, panic,
}
use rbdc.Io.{put_str_nul}
use rbdc.Postgres.Io.{put_length_prefixed, put_statement_name, put_portal_name}

pub data PgValueFormat : Type 0 where
  text binary : PgValueFormat

abbrev pub format_code : PgValueFormat → ℕ
format_code text = 0
format_code binary = 1

-- The loop that writes the format codes, each of 16 bits.
unfoldable pub put_formats : List PgValueFormat → Bytes → Bytes
put_formats [] buf = buf
put_formats (format ∷ formats) buf = put_formats formats (buf ++ be_bytes 2 (format_code format))

-- The loop that writes the oids of the types.
unfoldable pub put_oids : List ℕ → Bytes → Bytes
put_oids [] buf = buf
put_oids (oid ∷ oids) buf = put_oids oids (buf ++ be_bytes 4 oid)

-- `num_params` is its bit pattern.
pub record Bind : Type 0 where
  pub portal : Option ℕ
  pub statement : ℕ
  pub formats : List PgValueFormat
  pub num_params : ℕ
  pub params : Bytes
  pub result_formats : List PgValueFormat

pub data Close : Type 0 where
  close_statement close_portal : ℕ → Close

pub data Describe : Type 0 where
  unnamed_statement unnamed_portal : Describe
  describe_statement describe_portal : ℕ → Describe

pub record Execute : Type 0 where
  pub portal : Option ℕ
  pub limit : ℕ

pub record Parse : Type 0 where
  pub statement : ℕ
  pub query : Bytes
  pub param_types : List ℕ

pub record Startup : Type 0 where
  pub username : Option Bytes
  pub database : Option Bytes
  pub params : List (Bytes × Bytes)

pub data Password : Type 0 where
  cleartext : Bytes → Password
  -- the password, the user name, and the salt
  md5 : Bytes → Bytes → Bytes → Password

module _ (format : ℕ → Bytes) where
  abbrev pub bind_body : Bind → Bytes → Bytes
  bind_body self buf =
      let names =
        put_statement_name format self.statement (put_portal_name format self.portal buf) in
      let formats = put_formats self.formats (names ++ be_bytes 2 (length self.formats % 2 ^ 16)) in
      let params = (formats ++ be_bytes 2 self.num_params) ++ self.params in
      put_formats self.result_formats (params ++ be_bytes 2 (length self.result_formats % 2 ^ 16))

  unfoldable pub encode_bind : Bind → Bytes → Bytes
  encode_bind self buf = put_length_prefixed (bind_body self) (buf ++ b'B' ∷ [])

  abbrev pub close_body : Close → Bytes → Bytes
  close_body (close_statement id) buf = put_statement_name format id (buf ++ b'S' ∷ [])
  close_body (close_portal id) buf = put_portal_name format (some id) (buf ++ b'P' ∷ [])

  pub encode_close : Close → Bytes → Bytes
  encode_close self buf = put_length_prefixed (close_body self) (buf ++ b'C' ∷ [])

  abbrev pub describe_body : Describe → Bytes → Bytes
  describe_body (describe_statement id) buf = put_statement_name format id (buf ++ b'S' ∷ [])
  describe_body unnamed_portal buf = (buf ++ b'P' ∷ []) ++ 0 ∷ []
  describe_body unnamed_statement buf = (buf ++ b'S' ∷ []) ++ 0 ∷ []
  describe_body (describe_portal id) buf = put_portal_name format (some id) (buf ++ b'P' ∷ [])

  pub encode_describe : Describe → Bytes → Bytes
  encode_describe self buf = put_length_prefixed (describe_body self) (buf ++ b'D' ∷ [])

  pub encode_execute : Execute → Bytes → Bytes
  encode_execute self buf =
      put_length_prefixed (λ buf. put_portal_name format self.portal buf ++ be_bytes 4 self.limit)
        (buf ++ b'E' ∷ [])

  abbrev pub parse_body : Parse → Bytes → Bytes
  parse_body self buf =
      let named = put_str_nul (put_statement_name format self.statement buf) self.query in
      put_oids self.param_types (named ++ be_bytes 2 (length self.param_types % 2 ^ 16))

  -- The assertion on the number of types panics.
  unfoldable pub encode_parse : Parse → Bytes → Outcome Bytes
  encode_parse self buf =
      if ltb 65535 (length self.param_types)
      then panic
      else ok (put_length_prefixed (parse_body self) (buf ++ b'P' ∷ []))

abbrev pub encode_startup_param : Bytes → Bytes → Bytes → Bytes
encode_startup_param name value buf = put_str_nul (put_str_nul buf name) value

abbrev pub encode_startup_params : List (Bytes × Bytes) → Bytes → Bytes
encode_startup_params [] buf = buf
encode_startup_params ((name, value) ∷ params) buf =
    encode_startup_params params (encode_startup_param name value buf)

abbrev pub encode_given : Bytes → Option Bytes → Bytes → Bytes
encode_given name none buf = buf
encode_given name (some value) buf = encode_startup_param name value buf

abbrev user_name : Bytes
user_name = b'u' ∷ b's' ∷ b'e' ∷ b'r' ∷ []

abbrev database_name : Bytes
database_name = b'd' ∷ b'a' ∷ b't' ∷ b'a' ∷ b'b' ∷ b'a' ∷ b's' ∷ b'e' ∷ []

abbrev pub startup_body : Startup → Bytes → Bytes
startup_body self buf =
    let user = encode_given user_name self.username (buf ++ be_bytes 4 196608) in
    let database = encode_given database_name self.database user in
    encode_startup_params self.params database ++ 0 ∷ []

pub encode_startup : Startup → Bytes → Bytes
encode_startup self buf = put_length_prefixed (startup_body self) buf

-- `{:x}` of a digest of the crate md5
module _ (md5_hex : Bytes → Bytes) where
  abbrev pub password_body : Password → Bytes → Bytes
  password_body (cleartext password) buf = put_str_nul buf password
  password_body (md5 password username salt) buf =
      let output = md5_hex (password ++ username) in
      put_str_nul buf (b'm' ∷ b'd' ∷ b'5' ∷ md5_hex (output ++ salt))

  pub encode_password : Password → Bytes → Bytes
  encode_password self buf = put_length_prefixed (password_body self) (buf ++ b'p' ∷ [])

abbrev scram : Bytes
scram =
    b'S' ∷ b'C' ∷ b'R' ∷ b'A' ∷ b'M' ∷ b'-' ∷ b'S' ∷ b'H' ∷ b'A' ∷ b'-' ∷ b'2' ∷ b'5' ∷ b'6' ∷ []

abbrev plus_suffix : Bytes
plus_suffix = b'-' ∷ b'P' ∷ b'L' ∷ b'U' ∷ b'S' ∷ []

-- The response, and whether the channel is bound.
pub encode_sasl_initial_response : Bytes → Bool → Bytes → Bytes
encode_sasl_initial_response response plus buf =
    put_length_prefixed
      (λ buf.
        (put_str_nul buf (if plus then scram ++ plus_suffix else scram)
          ++ be_bytes 4 (length response % 2 ^ 32))
        ++ response)
      (buf ++ b'p' ∷ [])

pub encode_sasl_response : Bytes → Bytes → Bytes
encode_sasl_response response buf = put_length_prefixed (λ buf. buf ++ response) (buf ++ b'p' ∷ [])

pub encode_query : Bytes → Bytes → Bytes
encode_query query buf =
    let len = 4 + length query + 1 in
    put_str_nul ((buf ++ b'Q' ∷ []) ++ be_bytes 4 (len % 2 ^ 32)) query

pub encode_flush : Bytes → Bytes
encode_flush buf = (buf ++ b'H' ∷ []) ++ be_bytes 4 4

pub encode_sync : Bytes → Bytes
encode_sync buf = (buf ++ b'S' ∷ []) ++ be_bytes 4 4

pub encode_terminate : Bytes → Bytes
encode_terminate buf = (buf ++ b'X' ∷ []) ++ be_bytes 4 4

pub encode_ssl_request : Bytes → Bytes
encode_ssl_request buf = (buf ++ be_bytes 4 8) ++ be_bytes 4 (1234 * 2 ^ 16 + 5679)

pub encode_copy_data : Bytes → Bytes → Bytes
encode_copy_data contents buf =
    ((buf ++ b'd' ∷ []) ++ be_bytes 4 ((length contents % 2 ^ 32 + 4) % 2 ^ 32)) ++ contents

pub encode_copy_fail : Bytes → Bytes → Bytes
encode_copy_fail message buf =
    let len = 4 + length message + 1 in
    put_str_nul ((buf ++ b'f' ∷ []) ++ be_bytes 4 (len % 2 ^ 32)) message

pub encode_copy_done : Bytes → Bytes
encode_copy_done buf = (buf ++ b'c' ∷ []) ++ be_bytes 4 4
