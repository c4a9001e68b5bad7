-- ===== src/Mysql/Capabilities.antt =====
-- rbdc-mysql/src/protocol/capabilities.rs: the capability flags and their bits.
use rbdc.Base.{ℕ, ◌+◌, ◌^◌}

abbrev pub mysql : ℕ
mysql = 1

abbrev pub found_rows : ℕ
found_rows = 2

abbrev pub long_flag : ℕ
long_flag = 4

abbrev pub connect_with_db : ℕ
connect_with_db = 8

abbrev pub no_schema : ℕ
no_schema = 16

abbrev pub compress : ℕ
compress = 32

abbrev pub odbc : ℕ
odbc = 64

abbrev pub local_files : ℕ
local_files = 128

abbrev pub ignore_space : ℕ
ignore_space = 256

abbrev pub protocol_41 : ℕ
protocol_41 = 512

abbrev pub interactive : ℕ
interactive = 1024

abbrev pub ssl : ℕ
ssl = 2048

abbrev pub transactions : ℕ
transactions = 8192

abbrev pub secure_connection : ℕ
secure_connection = 2 ^ 15

abbrev pub multi_statements : ℕ
multi_statements = 2 ^ 16

abbrev pub multi_results : ℕ
multi_results = 2 ^ 17

abbrev pub ps_multi_results : ℕ
ps_multi_results = 2 ^ 18

abbrev pub plugin_auth : ℕ
plugin_auth = 2 ^ 19

abbrev pub connect_attrs : ℕ
connect_attrs = 2 ^ 20

abbrev pub plugin_auth_lenenc_data : ℕ
plugin_auth_lenenc_data = 2 ^ 21

abbrev pub can_handle_expired_passwords : ℕ
can_handle_expired_passwords = 2 ^ 22

abbrev pub session_track : ℕ
session_track = 2 ^ 23

abbrev pub deprecate_eof : ℕ
deprecate_eof = 2 ^ 24

abbrev pub zstd_compression_algorithm : ℕ
zstd_compression_algorithm = 2 ^ 26

abbrev pub ssl_verify_server_cert : ℕ
ssl_verify_server_cert = 2 ^ 30

abbrev pub optional_resultset_metadata : ℕ
optional_resultset_metadata = 2 ^ 25

abbrev pub remember_options : ℕ
remember_options = 2 ^ 31

-- All bits that the type declares, which `from_bits_truncate` keeps.
abbrev pub all : ℕ
all =
    mysql + found_rows + long_flag + connect_with_db + no_schema + compress + odbc + local_files
    + ignore_space + protocol_41 + interactive + ssl + transactions + secure_connection
    + multi_statements + multi_results + ps_multi_results + plugin_auth + connect_attrs
    + plugin_auth_lenenc_data + can_handle_expired_passwords + session_track + deprecate_eof
    + zstd_compression_algorithm + ssl_verify_server_cert + optional_resultset_metadata
    + remember_options
