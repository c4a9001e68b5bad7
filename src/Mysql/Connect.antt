-- ===== src/Mysql/Connect.antt =====
-- rbdc-mysql/src/protocol/connect and rbdc-mysql/src/protocol/auth.rs: the first packets of a connection.
pub mod Laws
use rbdc.Base.{
  ℕ, ◌+◌, ◌-◌, ◌*◌, ◌/◌, ◌%◌, ◌^◌, Bool, not, List, [], ◌∷◌, ◌++◌, Option, none, some, ◌==◌, ltb,
  if◌then◌else◌, eq_bytes, Bytes, length, le_bytes, replicate, protocol, Outcome, ok, err, panic,
  Reader, pure, fail, ◌>>=◌, ◌>>◌, value_of,
}
use rbdc.Crates.{Crates}
use rbdc.Io.{get_bytes, get_str_nul, put_str_nul}
use rbdc.Mysql.Capabilities
use rbdc.Mysql.Lenenc.{put_bytes_lenenc}
use rbdc.Mysql.Status

pub data AuthPlugin : Type 0 where
  mysql_native_password caching_sha2_password sha256_password : AuthPlugin

abbrev pub native_name : Bytes
native_name =
    b'm' ∷ b'y' ∷ b's' ∷ b'q' ∷ b'l' ∷ b'_' ∷ b'n' ∷ b'a' ∷ b't' ∷ b'i' ∷ b'v' ∷ b'e' ∷ b'_' ∷ b'p'
    ∷ b'a' ∷ b's' ∷ b's' ∷ b'w' ∷ b'o' ∷ b'r' ∷ b'd' ∷ []

abbrev pub caching_name : Bytes
caching_name =
    b'c' ∷ b'a' ∷ b'c' ∷ b'h' ∷ b'i' ∷ b'n' ∷ b'g' ∷ b'_' ∷ b's' ∷ b'h' ∷ b'a' ∷ b'2' ∷ b'_' ∷ b'p'
    ∷ b'a' ∷ b's' ∷ b's' ∷ b'w' ∷ b'o' ∷ b'r' ∷ b'd' ∷ []

abbrev pub sha256_name : Bytes
sha256_name =
    b's' ∷ b'h' ∷ b'a' ∷ b'2' ∷ b'5' ∷ b'6' ∷ b'_' ∷ b'p' ∷ b'a' ∷ b's' ∷ b's' ∷ b'w' ∷ b'o' ∷ b'r'
    ∷ b'd' ∷ []

unfoldable pub plugin_name : AuthPlugin → Bytes
plugin_name mysql_native_password = native_name
plugin_name caching_sha2_password = caching_name
plugin_name sha256_password = sha256_name

-- `AuthPlugin::from_str`
unfoldable pub parse_plugin : Bytes → Outcome AuthPlugin
unfolding eq_bytes
parse_plugin s =
    if eq_bytes s native_name
    then ok mysql_native_password
    else if eq_bytes s caching_name
    then ok caching_sha2_password
    else if eq_bytes s sha256_name
    then ok sha256_password
    else err (protocol "unknown authentication plugin: {}" s)

-- The data is a chain of two parts.
pub record Handshake : Type 0 where
  pub protocol_version : ℕ
  pub server_version : Bytes
  pub connection_id : ℕ
  pub server_capabilities : ℕ
  pub server_default_collation : ℕ
  pub status : ℕ
  pub auth_plugin : Option AuthPlugin
  pub auth_plugin_data : Bytes × Bytes

pub record AuthSwitchRequest : Type 0 where
  pub plugin : AuthPlugin
  pub plugin_data : Bytes

pub record HandshakeResponse : Type 0 where
  pub database : Option Bytes
  pub max_packet_size : ℕ
  pub collation : ℕ
  pub username : Bytes
  pub auth_plugin : Option AuthPlugin
  pub auth_response : Option Bytes

abbrev pub lift {ℓ} : {A : Type ℓ} → Outcome A → Reader A
lift (ok a) bs = ok (a, bs)
lift (err e) bs = err e
lift panic bs = panic

-- `.max(12)` of the signed difference
abbrev pub second_part_len : ℕ → ℕ
second_part_len len = if ltb (len - 9) 12 then 12 else len - 9

abbrev pub bytes_or_empty : Option Bytes → Bytes
bytes_or_empty none = []
bytes_or_empty (some v) = v

module _ (c : Crates) where
  open c use {get_uint_le, advance, contains, union, from_bits_truncate, remove}

  -- `buf.get_str_nul()?.parse()?`
  unfoldable pub plugin_reader : Reader AuthPlugin
  plugin_reader = do s ← get_str_nul c; lift (parse_plugin s)

  -- The length of the data, where plugins are named.
  unfoldable pub data_len_reader : ℕ → Reader ℕ
  data_len_reader capabilities =
      if contains capabilities Capabilities.plugin_auth
      then get_uint_le 1
      else (do advance 1; pure 0)

  -- The capabilities with their upper half, or the reserved bytes of MySQL.
  unfoldable pub upper_reader : ℕ → Reader ℕ
  upper_reader capabilities =
      if contains capabilities Capabilities.mysql then (do advance 4; pure capabilities) else (do
        capabilities_3 ← get_uint_le 4
        pure (union capabilities (from_bits_truncate Capabilities.all (capabilities_3 * 2 ^ 32))))

  unfoldable pub second_part_reader : ℕ → ℕ → Reader Bytes
  second_part_reader capabilities len =
      if contains capabilities Capabilities.secure_connection
      then (do v ← get_bytes c (second_part_len len); advance 1; pure v)
      else pure []

  unfoldable pub named_plugin_reader : ℕ → Reader (Option AuthPlugin)
  named_plugin_reader capabilities =
      if contains capabilities Capabilities.plugin_auth
      then (do plugin ← plugin_reader; pure (some plugin))
      else pure none

  abbrev pub lower_capabilities : ℕ → ℕ → ℕ
  lower_capabilities capabilities_1 capabilities_2 =
      union (from_bits_truncate Capabilities.all capabilities_1)
        (from_bits_truncate Capabilities.all (capabilities_2 * 2 ^ 16))

  handshake_reader : Reader Handshake
  handshake_reader = do
    protocol_version ← get_uint_le 1
    server_version ← get_str_nul c
    connection_id ← get_uint_le 4
    auth_plugin_data_1 ← get_bytes c 8
    advance 1
    capabilities_1 ← get_uint_le 2
    collation ← get_uint_le 1
    status ← get_uint_le 2
    capabilities_2 ← get_uint_le 2
    auth_plugin_data_len ← data_len_reader (lower_capabilities capabilities_1 capabilities_2)
    advance 6
    capabilities ← upper_reader (lower_capabilities capabilities_1 capabilities_2)
    auth_plugin_data_2 ← second_part_reader capabilities auth_plugin_data_len
    auth_plugin ← named_plugin_reader capabilities
    pure (record {
      protocol_version = protocol_version;
      server_version = server_version;
      connection_id = connection_id;
      server_capabilities = capabilities;
      server_default_collation = collation;
      status = from_bits_truncate Status.all status;
      auth_plugin = auth_plugin;
      auth_plugin_data = (auth_plugin_data_1, auth_plugin_data_2);
    })

  unfoldable pub decode_handshake : Bytes → Outcome Handshake
  unfolding handshake_reader
  decode_handshake buf = value_of (handshake_reader buf)

  -- Behind the plugin there are 20 bytes of data and a NUL.
  abbrev pub switch_data : AuthPlugin → Reader AuthSwitchRequest
  switch_data plugin buf =
      if not (length buf == 21)
      then err (protocol "expected 21 bytes but found {} bytes" (length buf ∷ []))
      else (do
        data_20 ← get_bytes c 20
        advance 1
        pure (record { plugin = plugin; plugin_data = data_20 }))
          buf

  auth_switch_reader : Reader AuthSwitchRequest
  auth_switch_reader = do
    header ← get_uint_le 1
    (if not (header == 0xfe)
        then fail (protocol "expected 0xfe (AUTH_SWITCH) but found 0x{:x}" (header ∷ []))
        else do plugin ← plugin_reader; switch_data plugin)

  unfoldable pub decode_auth_switch : Bytes → Outcome AuthSwitchRequest
  unfolding auth_switch_reader
  decode_auth_switch buf = value_of (auth_switch_reader buf)

  -- `SslRequest::encode_with`, by its two fields
  unfoldable pub encode_ssl_request : ℕ → ℕ → Bytes → ℕ → Bytes
  encode_ssl_request max_packet_size collation buf capabilities =
      let fixed =
        (((buf ++ le_bytes 4 (capabilities % 2 ^ 32)) ++ le_bytes 4 max_packet_size)
          ++ collation ∷ [])
        ++ replicate 19 0 in
      if contains capabilities Capabilities.mysql
      then fixed ++ replicate 4 0
      else fixed ++ le_bytes 4 (capabilities / 2 ^ 32 % 2 ^ 32)

  -- The capabilities that the response announces.
  abbrev pub response_capabilities : Option AuthPlugin → ℕ → ℕ
  response_capabilities none capabilities = remove capabilities Capabilities.plugin_auth
  response_capabilities (some plugin) capabilities = capabilities

  abbrev pub put_response : ℕ → Option Bytes → Bytes → Bytes
  put_response capabilities auth_response buf =
      let response = bytes_or_empty auth_response in
      if contains capabilities Capabilities.plugin_auth_lenenc_data
      then put_bytes_lenenc buf response
      else if contains capabilities Capabilities.secure_connection
      then (buf ++ length response % 2 ^ 8 ∷ []) ++ response
      else buf ++ 0 ∷ []

  abbrev pub put_database : ℕ → Option Bytes → Bytes → Bytes
  put_database capabilities database buf =
      if contains capabilities Capabilities.connect_with_db
      then (elim database [ some name ↦ put_str_nul buf name | none ↦ buf ++ 0 ∷ [] ])
      else buf

  abbrev pub put_plugin : ℕ → Option AuthPlugin → Bytes → Bytes
  put_plugin capabilities auth_plugin buf =
      if contains capabilities Capabilities.plugin_auth
      then (elim auth_plugin [
        | some plugin ↦ put_str_nul buf (plugin_name plugin)
        | none ↦ buf ++ 0 ∷ []
      ])
      else buf

  unfoldable pub encode_handshake_response : HandshakeResponse → Bytes → ℕ → Bytes
  encode_handshake_response self buf capabilities =
      let announced = response_capabilities self.auth_plugin capabilities in
      let request = encode_ssl_request self.max_packet_size self.collation buf announced in
      let user = put_str_nul request self.username in
      let response = put_response announced self.auth_response user in
      put_plugin announced self.auth_plugin (put_database announced self.database response)
