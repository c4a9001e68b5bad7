-- ===== src/Mysql/Status.antt =====
-- rbdc-mysql/src/protocol/response/status.rs: the status flags and their bits.
use rbdc.Base.{ℕ, ◌+◌, ◌^◌}

abbrev pub server_status_in_trans : ℕ
server_status_in_trans = 1

abbrev pub server_status_autocommit : ℕ
server_status_autocommit = 2

abbrev pub server_more_results_exists : ℕ
server_more_results_exists = 8

abbrev pub server_query_no_good_index_used : ℕ
server_query_no_good_index_used = 16

abbrev pub server_query_no_index_used : ℕ
server_query_no_index_used = 32

abbrev pub server_status_cursor_exists : ℕ
server_status_cursor_exists = 64

abbrev pub server_status_last_row_sent : ℕ
server_status_last_row_sent = 128

abbrev pub server_status_db_dropped : ℕ
server_status_db_dropped = 2 ^ 8

abbrev pub server_status_no_backslash_escapes : ℕ
server_status_no_backslash_escapes = 2 ^ 9

abbrev pub server_status_metadata_changed : ℕ
server_status_metadata_changed = 2 ^ 10

abbrev pub server_query_was_slow : ℕ
server_query_was_slow = 2 ^ 11

abbrev pub server_ps_out_params : ℕ
server_ps_out_params = 2 ^ 12

abbrev pub server_status_in_trans_readonly : ℕ
server_status_in_trans_readonly = 2 ^ 13

abbrev pub server_session_state_changed : ℕ
server_session_state_changed = 2 ^ 14

-- All bits that the type declares, which `from_bits_truncate` keeps.
abbrev pub all : ℕ
all =
    server_status_in_trans + server_status_autocommit + server_more_results_exists
    + server_query_no_good_index_used + server_query_no_index_used + server_status_cursor_exists
    + server_status_last_row_sent + server_status_db_dropped + server_status_no_backslash_escapes
    + server_status_metadata_changed + server_query_was_slow + server_ps_out_params
    + server_status_in_trans_readonly + server_session_state_changed
