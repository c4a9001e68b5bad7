-- ===== src/Postgres/Pgpass/Lookup.antt =====
-- The lines of a password file: which password a login gets.
use rbdc.Base.{
  ℕ, ◌≡◌, refl, ap, sym, ◌∙◌, true, false, List, [], ◌∷◌, ◌++◌, Option, none, some, arith, ==_iff,
  Bool-cases, inl, inr, All, ◌≢◌, Option-cases,
}
use rbdc.Postgres.Pgpass.{
  Text, text_eq, Login, reads, fails, port_to_string, or_empty, or_else, is_entry, trim_start,
  matches_next_field, fields_of_line, load_password_from_line, trim_newline, ReadLine,
  load_password_from_reader, starts_with_hash, ends_with, pop, is_whitespace,
}
use rbdc.Postgres.Pgpass.Fields.{escape, find_next_field-escape}

text_eq_refl : (s : Text) → text_eq s s ≡ true
unfolding text_eq
text_eq_refl [] = refl
text_eq_refl (c ∷ s) = ground (arith, text_eq_refl s)

-- A field that holds the value, behind which `rest` follows.
matches_next_field-escape :
    (value rest : Text) → matches_next_field (escape value ++ b':' ∷ rest) value ≡ some rest
unfolding matches_next_field
matches_next_field-escape value rest =
    rw (find_next_field-escape value rest) (ground (arith, text_eq_refl value))

-- An entry of the file as libpq documents it, the password last.
unfoldable pub entry : Login → Text → Text
entry login password =
    escape login.host
    ++ b':'
      ∷ (escape (port_to_string login.port)
          ++ b':'
            ∷ (escape (or_empty login.database)
                ++ b':' ∷ (escape login.username ++ b':' ∷ password)))

-- The entry that was written for a login, with its fields escaped, gives that login the text behind
-- the fourth colon as it stands, with its backslashes, if the line is neither blank nor a comment.
pub load_password_from_line-entry :
    (login : Login) (password : Text)
    → is_entry (trim_start (entry login password)) ≡ true
    → load_password_from_line login (entry login password) ≡ some password
unfolding load_password_from_line fields_of_line entry
load_password_from_line-entry login password h = ground (
  arith,
  h,
  matches_next_field-escape login.username password,
  matches_next_field-escape (or_empty login.database) (escape login.username ++ b':' ∷ password),
  matches_next_field-escape (port_to_string login.port)
      (escape (or_empty login.database) ++ b':' ∷ (escape login.username ++ b':' ∷ password)),
  matches_next_field-escape login.host (
      escape (port_to_string login.port)
      ++ b':'
        ∷ (escape (or_empty login.database) ++ b':' ∷ (escape login.username ++ b':' ∷ password))),
)

pop-starts_with_hash :
    (b : ℕ) (s : Text)
    → b ≢ b'#'
    → ends_with b s ≡ true
    → starts_with_hash s ≡ true
    → starts_with_hash (pop s) ≡ true
pop-starts_with_hash b [] n e h = h
pop-starts_with_hash b (c ∷ []) n e h = ground arith
pop-starts_with_hash b (c ∷ d ∷ s) n e h = h

trim_newline-starts_with_hash :
    (s : Text) → starts_with_hash s ≡ true → starts_with_hash (trim_newline s) ≡ true
unfolding trim_newline
trim_newline-starts_with_hash s h = elim (Bool-cases (ends_with 10 s)) [
  | inr kept ↦ rw kept h
  | inl broken ↦
      let line = pop-starts_with_hash 10 s (ground arith) broken h in
      elim (Bool-cases (ends_with 13 (pop s))) [
        | inl carriage ↦
            rw (broken, carriage) (pop-starts_with_hash 13 (pop s) (ground arith) carriage line)
        | inr none_left ↦ rw (broken, none_left) line
      ]
]

load_password_from_line-hash :
    (login : Login) (s : Text) → starts_with_hash s ≡ true → load_password_from_line login s ≡ none
unfolding load_password_from_line is_entry trim_start is_whitespace
load_password_from_line-hash login [] h = refl
load_password_from_line-hash login (c ∷ s) h = rw ((==_iff c b'#').0 h) refl

-- What one line of the file gives.
abbrev pub password_of : Login → Text → Option Text
password_of login s = load_password_from_line login (trim_newline s)

reader_step :
    (login : Login) (c : ℕ) (cs : Text) (reader : List ReadLine)
    → load_password_from_reader login (reads (c ∷ cs) ∷ reader)
      ≡ or_else (password_of login (c ∷ cs)) (load_password_from_reader login reader)
unfolding load_password_from_reader
reader_step login c cs reader = ground (
  arith,
  load_password_from_line-hash login (trim_newline (c ∷ cs)),
  trim_newline-starts_with_hash (c ∷ cs),
)

-- A line that is read and gives no password.
abbrev pub Passes : Login → ReadLine → Type 0
Passes login fails = true ≡ false
Passes login (reads []) = true ≡ false
Passes login (reads (c ∷ cs)) = password_of login (c ∷ cs) ≡ none

-- The first line that gives a password decides, whatever follows it, if all lines before it are read
-- and give none.
pub load_password_from_reader-first :
    (login : Login) (before : List ReadLine) (c : ℕ) (cs : Text) (password : Text)
    (behind : List ReadLine)
    → All (Passes login) before
    → password_of login (c ∷ cs) ≡ some password
    → load_password_from_reader login (before ++ reads (c ∷ cs) ∷ behind) ≡ some password
load_password_from_reader-first login [] c cs password behind p h =
    rw (reader_step login c cs behind, h) refl
load_password_from_reader-first login (reads (d ∷ ds) ∷ before) c cs password behind (p, ps) h =
    rw (reader_step login d ds (before ++ reads (c ∷ cs) ∷ behind), p)
      (load_password_from_reader-first login before c cs password behind ps h)
load_password_from_reader-first login (reads [] ∷ before) c cs password behind (p, ps) h =
    ground (arith, p)
load_password_from_reader-first login (fails ∷ before) c cs password behind (p, ps) h =
    ground (arith, p)

-- A password that is found is that of a line, and no line before it gives one.
pub load_password_from_reader-found :
    (login : Login) (reader : List ReadLine) (password : Text)
    → load_password_from_reader login reader ≡ some password
    → (before : List ReadLine) × (c : ℕ) × (cs : Text) × (behind : List ReadLine) × (reader
        ≡ before ++ reads (c ∷ cs) ∷ behind)
      × All (Passes login) before
      × (password_of login (c ∷ cs) ≡ some password)
unfolding load_password_from_reader
load_password_from_reader-found login [] password h = ground (arith, h)
load_password_from_reader-found login (fails ∷ reader) password h = ground (arith, h)
load_password_from_reader-found login (reads [] ∷ reader) password h = ground (arith, h)
load_password_from_reader-found login (reads (c ∷ cs) ∷ reader) password h =
    elim (Option-cases (password_of login (c ∷ cs))) [
      | inr (found, e) ↦
          ([], c, cs, reader, refl, tt, e ∙ sym (sym h ∙ reader_step login c cs reader ∙ rw e refl))
      | inl nothing ↦
          let later =
            load_password_from_reader-found login reader password
              (sym (sym h ∙ reader_step login c cs reader ∙ rw nothing refl)) in
          let (before, d, ds, behind, whole, passed, e) = later in
          (
            reads (c ∷ cs) ∷ before,
            d,
            ds,
            behind,
            ap (λ x. reads (c ∷ cs) ∷ x) whole,
            (nothing, passed),
            e,
          )
    ]
