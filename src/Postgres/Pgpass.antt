-- ===== src/Postgres/Pgpass.antt =====
-- rbdc-pg/src/options/pgpass.rs: the password file. A text is the list of its characters; a byte
-- offset of the source is the number of characters before it. The environment and the files are
-- outside the program: what they hold is an argument, and a reader is the list of what its
-- `read_line` calls return.
pub mod Fields
pub mod Lookup
use Prim.Native.Nat.{bit_and}
use rbdc.Base.{
  ℕ, zero, suc, ◌+◌, ◌-◌, ◌/◌, ◌%◌, Bool, true, false, not, ◌&&◌, ◌||◌, List, [], ◌∷◌, ◌++◌, Option,
  none, some, ltb, leb, ◌==◌, if◌then◌else◌, take, drop,
}

abbrev pub Text : Type 0
Text = List ℕ

-- `s == t` on texts
unfoldable pub text_eq : Text → Text → Bool
text_eq [] [] = true
text_eq (a ∷ s) (b ∷ t) = a == b && text_eq s t
text_eq _ _ = false

-- `char::is_whitespace`
unfoldable pub is_whitespace : ℕ → Bool
is_whitespace c =
    (leb 9 c && leb c 13)
    || c == 32
    || c == 0x85
    || c == 0xa0
    || c == 0x1680
    || (leb 0x2000 c && leb c 0x200a)
    || c == 0x2028
    || c == 0x2029
    || c == 0x202f
    || c == 0x205f
    || c == 0x3000

unfoldable pub trim_start : Text → Text
trim_start [] = []
trim_start (c ∷ cs) = if is_whitespace c then trim_start cs else c ∷ cs

-- `to_string` of a number, with fuel for its digits
digits : ℕ → ℕ → Text → Text
digits zero n out = out
digits (suc fuel) n out =
    let rest = digits fuel (n / 10) ((48 + n % 10) ∷ out) in
    if ltb n 10 then (48 + n) ∷ out else rest

unfoldable pub port_to_string : ℕ → Text
unfolding digits
port_to_string port = digits 5 port []

abbrev or_empty : Option Text → Text
or_empty none = []
or_empty (some s) = s

-- The field, and what `line` points to afterwards.
abbrev field_at : Text → ℕ → Option Text → ℕ → Text × Text
field_at line idx none last_added = (take idx line, drop 1 (drop idx line))
field_at line idx (some s) last_added =
    (s ++ drop last_added (take idx line), drop 1 (drop idx line))

-- The loop over `char_indices`, at the characters that are left.
find_loop : Text → Text → ℕ → Bool → Option Text → ℕ → Option (Text × Text)
find_loop line [] idx escaping escaped_string last_added = none
find_loop line (c ∷ cs) idx escaping escaped_string last_added =
    let s = or_empty escaped_string in
    let unescaped =
      find_loop line cs (idx + 1) (not escaping)
        (some (if escaping then s ++ b'\\' ∷ [] else s ++ drop last_added (take idx line)))
        (idx + 1) in
    let plain = find_loop line cs (idx + 1) false escaped_string last_added in
    if c == b':' && not escaping
    then some (field_at line idx escaped_string last_added)
    else if c == b'\\'
    then unescaped
    else plain

unfoldable pub find_next_field : Text → Option (Text × Text)
unfolding find_loop
find_next_field line = find_loop line line 0 false none 0

-- `Some(())` with the rest of the line, if the next field is the value or the wildcard
abbrev matched : Text → Option (Text × Text) → Option Text
matched value none = none
matched value (some (field, rest)) =
    if text_eq field (b'*' ∷ []) || text_eq field value then some rest else none

unfoldable pub matches_next_field : Text → Text → Option Text
unfolding find_next_field
matches_next_field line value = matched value (find_next_field line)

infixl 5 ◌>>=◌
abbrev pub ◌>>=◌ : {A B : Type 0} → Option A → (A → Option B) → Option B
none >>= f = none
some a >>= f = f a

-- Who asks: the host, the port, the user and the database.
pub record Login : Type 0 where
  pub host : Text
  pub port : ℕ
  pub username : Text
  pub database : Option Text

fields_of_line : Login → Text → Option Text
unfolding matches_next_field
fields_of_line login line = do
  line ← matches_next_field line login.host
  line ← matches_next_field line (port_to_string login.port)
  line ← matches_next_field line (or_empty login.database)
  matches_next_field line login.username

-- The first character that is not white space decides whether the line is empty or a comment.
unfoldable pub is_entry : Text → Bool
is_entry [] = false
is_entry (c ∷ cs) = not (c == b'#')

unfoldable pub load_password_from_line : Login → Text → Option Text
unfolding is_entry trim_start is_whitespace fields_of_line
load_password_from_line login line =
    if is_entry (trim_start line) then fields_of_line login line else none

-- A line break at the end is dropped, with a carriage return before it.
abbrev last_of : Text → Option ℕ
last_of [] = none
last_of (c ∷ []) = some c
last_of (c ∷ d ∷ cs) = last_of (d ∷ cs)

abbrev pop : Text → Text
pop [] = []
pop (c ∷ []) = []
pop (c ∷ d ∷ cs) = c ∷ pop (d ∷ cs)

abbrev ends_with : ℕ → Text → Bool
ends_with b s = elim (last_of s) [ none ↦ false | some c ↦ c == b ]

unfoldable pub trim_newline : Text → Text
trim_newline s =
    if ends_with 10 s then (let t = pop s in if ends_with 13 t then pop t else t) else s

-- What a `read_line` returns: the text that it read, empty at the end, or an error.
pub data ReadLine : Type 0 where
  reads : Text → ReadLine
  fails : ReadLine

abbrev starts_with_hash : Text → Bool
starts_with_hash [] = false
starts_with_hash (c ∷ cs) = c == b'#'

abbrev or_else : {A : Type 0} → Option A → Option A → Option A
or_else none b = b
or_else (some a) b = some a

unfoldable pub load_password_from_reader : Login → List ReadLine → Option Text
unfolding load_password_from_line trim_newline
load_password_from_reader login [] = none
load_password_from_reader login (fails ∷ reader) = none
load_password_from_reader login (reads [] ∷ reader) = none
load_password_from_reader login (reads (c ∷ cs) ∷ reader) =
    let rest = load_password_from_reader login reader in
    if c == b'#' then rest else or_else (load_password_from_line login (trim_newline (c ∷ cs))) rest

-- A file that can be opened, with its permission bits.
pub record File : Type 0 where
  pub mode : ℕ
  pub lines : List ReadLine

unfoldable pub load_password_from_file : Login → Option File → Option Text
unfolding load_password_from_reader
load_password_from_file login none = none
load_password_from_file login (some file) =
    if bit_and file.mode 0o77 == 0 then load_password_from_reader login file.lines else none

-- `PGPASSFILE`, if it is set, and `.pgpass` in the home directory, if there is one; each is a file,
-- or none if it cannot be opened.
unfoldable pub load_password : Login → Option (Option File) → Option (Option File) → Option Text
unfolding load_password_from_file
load_password login custom_file default_file =
    or_else (custom_file >>= load_password_from_file login)
      (default_file >>= load_password_from_file login)
