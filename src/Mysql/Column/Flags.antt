-- ===== src/Mysql/Column/Flags.antt =====
-- The flags of a column, `ColumnFlags` of rbdc-mysql/src/protocol/text/column.rs, and their bits.
use rbdc.Base.{ℕ}

abbrev pub not_null : ℕ
not_null = 1

abbrev pub primary_key : ℕ
primary_key = 2

abbrev pub unique_key : ℕ
unique_key = 4

abbrev pub multiple_key : ℕ
multiple_key = 8

abbrev pub blob : ℕ
blob = 16

abbrev pub unsigned : ℕ
unsigned = 32

abbrev pub zerofill : ℕ
zerofill = 64

abbrev pub binary : ℕ
binary = 128

abbrev pub enum : ℕ
enum = 256

abbrev pub auto_increment : ℕ
auto_increment = 512

abbrev pub timestamp : ℕ
timestamp = 1024

abbrev pub set : ℕ
set = 2048

abbrev pub no_default_value : ℕ
no_default_value = 4096

abbrev pub on_update_now : ℕ
on_update_now = 8192

abbrev pub num : ℕ
num = 32768

-- all of them together
abbrev pub all : ℕ
all = 49151
