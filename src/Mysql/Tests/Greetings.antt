-- ===== src/Mysql/Tests/Greetings.antt =====
-- The first packets of a connection on concrete inputs.
use Prim.Native.Nat.{bit_and}
use rbdc.Base.{◌≡◌, refl, true, [], ◌∷◌, ◌++◌, some, arith, Bytes, replicate, ok}
use rbdc.Base.Utf8.{is_utf8}
use rbdc.Crates.{reference, reference-Documented}
use rbdc.Io.{put_str_nul}
use rbdc.Mysql.Connect.{caching_sha2_password, plugin_name, decode_handshake, decode_auth_switch}
use rbdc.Mysql.Connect.Laws.{
  Greeting, greeting_layout, known_of, Fits, Announces, decode_handshake-greeting_layout,
  decode_auth_switch-plugin_name,
}
use rbdc.Mysql.Status

abbrev twenty : Bytes
twenty = replicate 20 7

decode_auth_switch-plugin_name_example :
    decode_auth_switch reference
      (0xfe ∷ (put_str_nul [] (plugin_name caching_sha2_password) ++ (twenty ++ 0 ∷ [])))
    ≡ ok (record { plugin = caching_sha2_password; plugin_data = twenty })
decode_auth_switch-plugin_name_example =
    decode_auth_switch-plugin_name reference reference-Documented caching_sha2_password twenty refl

-- The capabilities are those of MySQL, secure connections and named plugins.
abbrev greeting : Greeting
greeting = record {
  protocol_version = 10;
  server_version = b'8' ∷ [];
  connection_id = 11;
  data_1 = replicate 8 1;
  capabilities = 557057;
  collation = 255;
  status = 2;
  data_len = 21;
  reserved_6 = replicate 6 0;
  reserved_4 = replicate 4 0;
  data_2 = replicate 12 2;
  plugin = caching_sha2_password;
}

greeting_utf8 : is_utf8 (b'8' ∷ []) ≡ true
unfolding is_utf8
greeting_utf8 = refl

greeting-Fits : Fits greeting
greeting-Fits = record {
  protocol_version = omega arith;
  server_version = ((λ (e : b'8' ≡ 0). ground (arith, e)), tt);
  server_version_utf8 = greeting_utf8;
  connection_id = omega arith;
  data_1 = refl;
  capabilities = omega arith;
  collation = omega arith;
  status = omega arith;
  data_len = omega arith;
  reserved_6 = refl;
  reserved_4 = refl;
  data_2 = refl;
}

greeting-Announces : Announces reference reference-Documented greeting
greeting-Announces = record { plugin_auth = refl; mysql = refl; secure = refl }

decode_handshake-greeting_layout_example :
    decode_handshake reference (greeting_layout greeting)
    ≡ ok (record {
      protocol_version = 10;
      server_version = b'8' ∷ [];
      connection_id = 11;
      server_capabilities = known_of greeting;
      server_default_collation = 255;
      status = bit_and 2 Status.all;
      auth_plugin = some caching_sha2_password;
      auth_plugin_data = (replicate 8 1, replicate 12 2);
    })
decode_handshake-greeting_layout_example =
    decode_handshake-greeting_layout reference reference-Documented greeting greeting-Fits
      greeting-Announces
