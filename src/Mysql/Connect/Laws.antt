-- ===== src/Mysql/Connect/Laws.antt =====
-- The first packets of a connection are read as what the server sent.
use Prim.Native.Nat.{max, bit_and, bit_or}
use rbdc.Base.{
  ℕ, ◌+◌, ◌-◌, ◌*◌, ◌/◌, ◌%◌, ◌^◌, ◌<◌, ◌≡◌, refl, ap, sym, ◌∙◌, Bool, true, not, ◌&&◌, [], ◌∷◌,
  ◌++◌, append-nil, some, ◌==◌, arith, Bytes, length, length-append, le_bytes, ok, Bool-cases, inl,
  inr,
}
use rbdc.Base.Digits.{bit_or-halves}
use rbdc.Base.Utf8.{is_utf8}
use rbdc.Crates.{Crates, Documented}
use rbdc.Io.{put_str_nul}
use rbdc.Io.Laws.{
  NoNul, get_str_nul-put_str_nul, get_bytes-append, get_uint_le-le_bytes, advance-append,
}
use rbdc.Mysql.Capabilities
use rbdc.Mysql.Connect.{
  AuthPlugin, mysql_native_password, caching_sha2_password, sha256_password, plugin_name,
  parse_plugin, second_part_len, plugin_reader, data_len_reader, upper_reader, second_part_reader,
  named_plugin_reader, lower_capabilities, decode_handshake, decode_auth_switch,
}
use rbdc.Mysql.Lenenc.Laws.{one_byte}
use rbdc.Mysql.Status

parse_plugin-plugin_name : (plugin : AuthPlugin) → parse_plugin (plugin_name plugin) ≡ ok plugin
unfolding parse_plugin plugin_name
parse_plugin-plugin_name mysql_native_password = refl
parse_plugin-plugin_name _ = refl

-- A test for the absence of NULs.
no_nul : Bytes → Bool
no_nul [] = true
no_nul (b ∷ bs) = not (b == 0) && no_nul bs

no_nul-NoNul : (bs : Bytes) → no_nul bs ≡ true → NoNul bs
unfolding no_nul
no_nul-NoNul [] h = tt
no_nul-NoNul (b ∷ bs) h = elim (Bool-cases (b == 0)) [
  | inl nul ↦ absurd (ground (arith, rw nul at h))
  | inr other ↦ ((λ (e : b ≡ 0). ground (arith, other)), no_nul-NoNul bs (rw other at h))
]

plugin_name-NoNul : (plugin : AuthPlugin) → NoNul (plugin_name plugin)
unfolding plugin_name no_nul
plugin_name-NoNul mysql_native_password = no_nul-NoNul (plugin_name mysql_native_password) refl
plugin_name-NoNul caching_sha2_password = no_nul-NoNul (plugin_name caching_sha2_password) refl
plugin_name-NoNul sha256_password = no_nul-NoNul (plugin_name sha256_password) refl

plugin_name_utf8 : (plugin : AuthPlugin) → is_utf8 (plugin_name plugin) ≡ true
unfolding plugin_name is_utf8
plugin_name_utf8 mysql_native_password = refl
plugin_name_utf8 _ = refl

module _ (c : Crates) (d : Documented c) where
  plugin_reader-plugin_name :
      (plugin : AuthPlugin) (rest : Bytes)
      → plugin_reader c (put_str_nul [] (plugin_name plugin) ++ rest) ≡ ok (plugin, rest)
  unfolding plugin_reader
  plugin_reader-plugin_name plugin rest = ground (
    arith,
    get_str_nul-put_str_nul c d (plugin_name plugin) rest (plugin_name-NoNul plugin)
        (plugin_name_utf8 plugin),
    parse_plugin-plugin_name plugin,
  )

  -- A request to switch the plugin, with 20 bytes of data and a NUL, is read as its plugin and its data.
  pub decode_auth_switch-plugin_name :
      (plugin : AuthPlugin) (data_20 : Bytes)
      → length data_20 ≡ 20
      → decode_auth_switch c (0xfe ∷ (put_str_nul [] (plugin_name plugin) ++ (data_20 ++ 0 ∷ [])))
        ≡ ok (record { plugin = plugin; plugin_data = data_20 })
  unfolding decode_auth_switch
  decode_auth_switch-plugin_name plugin data_20 h = ground (
    arith,
    one_byte c d 0xfe (put_str_nul [] (plugin_name plugin) ++ (data_20 ++ 0 ∷ [])) (omega arith),
    plugin_reader-plugin_name plugin (data_20 ++ 0 ∷ []),
    length-append data_20 (0 ∷ []),
    get_bytes-append c d 20 data_20 (0 ∷ []) (sym h),
    advance-append c d 1 (0 ∷ []) [] refl,
  )

-- What a server with named plugins sends.
pub record Greeting : Type 0 where
  pub protocol_version : ℕ
  pub server_version : Bytes
  pub connection_id : ℕ
  pub data_1 : Bytes
  pub capabilities : ℕ
  pub collation : ℕ
  pub status : ℕ
  pub data_len : ℕ
  pub reserved_6 : Bytes
  pub reserved_4 : Bytes
  pub data_2 : Bytes
  pub plugin : AuthPlugin

abbrev pub tail_of : Greeting → Bytes
tail_of g =
    g.reserved_6 ++ (g.reserved_4 ++ (g.data_2 ++ (0 ∷ put_str_nul [] (plugin_name g.plugin))))

-- The capabilities stand in two halves, the lower one first.
abbrev pub lower_half : Greeting → ℕ
lower_half g = g.capabilities % 2 ^ 16

abbrev pub upper_half : Greeting → ℕ
upper_half g = g.capabilities / 2 ^ 16

abbrev pub middle_of : Greeting → Bytes
middle_of g =
    le_bytes 2 (lower_half g)
    ++ (g.collation
        ∷ (le_bytes 2 g.status ++ (le_bytes 2 (upper_half g) ++ (g.data_len ∷ tail_of g))))

abbrev pub greeting_layout : Greeting → Bytes
greeting_layout g =
    g.protocol_version
    ∷ (put_str_nul [] g.server_version
        ++ (le_bytes 4 g.connection_id ++ (g.data_1 ++ (0 ∷ middle_of g))))

-- The capabilities of a greeting that the driver knows.
abbrev pub known_of : Greeting → ℕ
known_of g = bit_and g.capabilities Capabilities.all

-- The parts of a greeting fit their widths.
pub record Fits (g : Greeting) : Type 0 where
  pub protocol_version : g.protocol_version < 256
  pub server_version : NoNul g.server_version
  pub server_version_utf8 : is_utf8 g.server_version ≡ true
  pub connection_id : g.connection_id < 2 ^ 32
  pub data_1 : length g.data_1 ≡ 8
  pub capabilities : g.capabilities < 2 ^ 32
  pub collation : g.collation < 256
  pub status : g.status < 2 ^ 16
  pub data_len : g.data_len < 256
  pub reserved_6 : length g.reserved_6 ≡ 6
  pub reserved_4 : length g.reserved_4 ≡ 4
  -- the length that the server announces is that of both parts and the NUL; it is not heeded where the
  -- second part, with the NUL, would be shorter than 13 bytes
  pub data_2 : length g.data_2 + 1 ≡ max 13 (g.data_len - 8)

module _ (c : Crates) (d : Documented c) where
  -- The capabilities of a server of MySQL that names its plugin and sends the second part of its data.
  pub record Announces (g : Greeting) : Type 0 where
    pub plugin_auth : c.contains (known_of g) Capabilities.plugin_auth ≡ true
    pub mysql : c.contains (known_of g) Capabilities.mysql ≡ true
    pub secure : c.contains (known_of g) Capabilities.secure_connection ≡ true

  lower_capabilities-known_of :
      (g : Greeting) → lower_capabilities c (lower_half g) (upper_half g) ≡ known_of g
  lower_capabilities-known_of g =
      let whole : lower_half g + upper_half g * 2 ^ 16 ≡ g.capabilities = omega arith in
      let lower = c.from_bits_truncate Capabilities.all (lower_half g) in
      let upper = c.from_bits_truncate Capabilities.all (upper_half g * 2 ^ 16) in
      d.union_lem lower upper
      ∙ ap (λ x. bit_or x upper) (d.from_bits_truncate_lem Capabilities.all (lower_half g))
      ∙ ap (bit_or (bit_and (lower_half g) Capabilities.all))
          (d.from_bits_truncate_lem Capabilities.all (upper_half g * 2 ^ 16))
      ∙ bit_or-halves 16 (lower_half g) (upper_half g) Capabilities.all (omega arith)
      ∙ ap (λ n. bit_and n Capabilities.all) whole

  data_len_read :
      (caps b : ℕ) (rest : Bytes)
      → c.contains caps Capabilities.plugin_auth ≡ true
      → b < 256
      → data_len_reader c caps (b ∷ rest) ≡ ok (b, rest)
  unfolding data_len_reader
  data_len_read caps b rest h lt = rw (data_len_reader, h) (one_byte c d b rest lt)

  upper_read :
      (caps : ℕ) (bytes rest : Bytes)
      → c.contains caps Capabilities.mysql ≡ true
      → length bytes ≡ 4
      → upper_reader c caps (bytes ++ rest) ≡ ok (caps, rest)
  unfolding upper_reader
  upper_read caps bytes rest h e =
      rw (upper_reader, h) (ground (arith, advance-append c d 4 bytes rest (sym e)))

  second_part_read :
      (caps len : ℕ) (part rest : Bytes)
      → c.contains caps Capabilities.secure_connection ≡ true
      → length part + 1 ≡ max 13 (len - 8)
      → second_part_reader c caps len (part ++ (0 ∷ rest)) ≡ ok (part, rest)
  unfolding second_part_reader
  second_part_read caps len part rest h e =
      let size : second_part_len len ≡ length part = ground arith in
      let get = get_bytes-append c d (second_part_len len) part (0 ∷ rest) size in
      rw (second_part_reader, h) (ground (arith, get, advance-append c d 1 (0 ∷ []) rest refl))

  named_plugin_read :
      (caps : ℕ) (plugin : AuthPlugin)
      → c.contains caps Capabilities.plugin_auth ≡ true
      → named_plugin_reader c caps (put_str_nul [] (plugin_name plugin)) ≡ ok (some plugin, [])
  unfolding named_plugin_reader
  named_plugin_read caps plugin h =
      let e =
        rw (append-nil (put_str_nul [] (plugin_name plugin))) at
          (plugin_reader-plugin_name c d plugin []) in
      rw (named_plugin_reader, h) (ground (arith, e))

  -- The greeting of a MySQL server, whose parts fit their widths and whose capabilities announce a named
  -- plugin and two parts of data, is read as the server sent it: its version, its capabilities and
  -- status as those that the driver knows, its plugin, and both parts of the data.
  pub decode_handshake-greeting_layout :
      (g : Greeting)
      → Fits g
      → Announces g
      → decode_handshake c (greeting_layout g)
        ≡ ok (record {
          protocol_version = g.protocol_version;
          server_version = g.server_version;
          connection_id = g.connection_id;
          server_capabilities = known_of g;
          server_default_collation = g.collation;
          status = bit_and g.status Status.all;
          auth_plugin = some g.plugin;
          auth_plugin_data = (g.data_1, g.data_2);
        })
  unfolding decode_handshake
  decode_handshake-greeting_layout g f a =
      let last = put_str_nul [] (plugin_name g.plugin) in
      let second = g.data_2 ++ (0 ∷ last) in
      let upper = g.reserved_4 ++ second in
      let tail = g.reserved_6 ++ upper in
      let caps_2 = le_bytes 2 (upper_half g) ++ (g.data_len ∷ tail) in
      let status = le_bytes 2 g.status ++ caps_2 in
      let middle = le_bytes 2 (lower_half g) ++ (g.collation ∷ status) in
      let ids = le_bytes 4 g.connection_id ++ (g.data_1 ++ (0 ∷ middle)) in
      ground (
        arith,
        one_byte c d g.protocol_version (put_str_nul [] g.server_version ++ ids) f.protocol_version,
        get_str_nul-put_str_nul c d g.server_version ids f.server_version f.server_version_utf8,
        get_uint_le-le_bytes c d 4 g.connection_id (g.data_1 ++ (0 ∷ middle)) f.connection_id,
        get_bytes-append c d 8 g.data_1 (0 ∷ middle) (sym f.data_1),
        advance-append c d 1 (0 ∷ []) middle refl,
        get_uint_le-le_bytes c d 2 (lower_half g) (g.collation ∷ status) (omega arith),
        one_byte c d g.collation status f.collation,
        get_uint_le-le_bytes c d 2 g.status caps_2 f.status,
        get_uint_le-le_bytes c d 2 (upper_half g) (g.data_len ∷ tail)
            (omega (arith, f.capabilities)),
        lower_capabilities-known_of g,
        d.from_bits_truncate_lem Status.all g.status,
        data_len_read (known_of g) g.data_len tail a.plugin_auth f.data_len,
        advance-append c d 6 g.reserved_6 upper (sym f.reserved_6),
        upper_read (known_of g) g.reserved_4 second a.mysql f.reserved_4,
        second_part_read (known_of g) g.data_len g.data_2 last a.secure f.data_2,
        named_plugin_read (known_of g) g.plugin a.plugin_auth,
      )
