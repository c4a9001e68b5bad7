-- ===== src/Postgres/Message/Frontend/Binding.antt =====
-- A server reads the message Bind, with its values, as the driver wrote it.
use native.Mathlib.Nat.{mod-eq_of_lt}
use rbdc.Base.{
  ℕ, ◌+◌, ◌^◌, ◌<◌, ◌≡◌, refl, List, [], ◌∷◌, ◌++◌, append_assoc, Option, none, some, ◌==◌, arith,
  Bytes, length, length-append, be_bytes, length-be_bytes, All, ok, Reader, ◌>>=◌, pure, ltb,
  if◌then◌else◌,
}
use rbdc.Crates.{Crates, Documented}
use rbdc.Io.{get_bytes_nul, get_bytes}
use rbdc.Io.Laws.{get_bytes-append, get_uint-be_bytes}
use rbdc.Postgres.Io.{put_statement_name, put_portal_name}
use rbdc.Postgres.Message.{repeat}
use rbdc.Postgres.Message.Laws.{encode_all, repeat-encode_all}
use rbdc.Postgres.Message.DataRow.Laws.{encode_value, ShortEnough}
use rbdc.Postgres.Message.Frontend.{PgValueFormat, text, binary, Bind, bind_body, encode_bind}
use rbdc.Postgres.Message.Frontend.Laws.{
  format_bytes, put_formats-append, tagged, WritesDigits, statement_name, portal_name,
  statement_name-NoNul, portal_name-NoNul, one_tag, nul_read,
}

-- What a server reads of `Bind`.
pub record SentBind : Type 0 where
  pub tag : ℕ
  pub len : ℕ
  pub portal : Bytes
  pub statement : Bytes
  pub formats : List PgValueFormat
  pub values : List (Option Bytes)
  pub result_formats : List PgValueFormat

module _ (c : Crates) where
  open c use {get_uint}

  abbrev pub read_format : Reader PgValueFormat
  read_format = do code ← get_uint 2; pure (if code == 0 then text else binary)

  abbrev pub read_value : Reader (Option Bytes)
  read_value = do
    n ← get_uint 4
    (if ltb n (2 ^ 31) then (do v ← get_bytes c n; pure (some v)) else pure none)

  unfoldable pub read_bind : Reader SentBind
  read_bind = do
    tag ← get_uint 1
    len ← get_uint 4
    portal ← get_bytes_nul c
    statement ← get_bytes_nul c
    num_formats ← get_uint 2
    formats ← repeat num_formats read_format
    num_params ← get_uint 2
    values ← repeat num_params read_value
    num_results ← get_uint 2
    result_formats ← repeat num_results read_format
    pure (record {
      tag = tag;
      len = len;
      portal = portal;
      statement = statement;
      formats = formats;
      values = values;
      result_formats = result_formats;
    })

-- The values of a message as the driver's `params` hold them.
pub record Holds (self : Bind) (values : List (Option Bytes)) : Type 0 where
  pub count : self.num_params ≡ length values
  pub params : self.params ≡ encode_all encode_value values
  pub short : All ShortEnough values
  pub few : length values < 2 ^ 16
  pub few_formats : length self.formats < 2 ^ 16
  pub few_results : length self.result_formats < 2 ^ 16

abbrev pub results_layout : Bind → Bytes
results_layout self =
    be_bytes 2 (length self.result_formats) ++ encode_all format_bytes self.result_formats

abbrev pub formats_layout : Bind → Bytes
formats_layout self =
    be_bytes 2 (length self.formats)
    ++ (encode_all format_bytes self.formats
        ++ (be_bytes 2 self.num_params ++ (self.params ++ results_layout self)))

module _ (format : ℕ → Bytes) where
  abbrev pub bind_layout : Bind → Bytes
  bind_layout self =
      (portal_name format self.portal ++ 0 ∷ [])
      ++ ((statement_name format self.statement ++ 0 ∷ []) ++ formats_layout self)

  portal_written :
      (portal : Option ℕ) (buf : Bytes)
      → put_portal_name format portal buf ≡ buf ++ (portal_name format portal ++ 0 ∷ [])
  unfolding put_portal_name
  portal_written none buf = refl
  portal_written (some id) buf = simp (append_assoc)

  bind_body-layout :
      (self : Bind) (buf : Bytes)
      → length self.formats < 2 ^ 16
      → length self.result_formats < 2 ^ 16
      → bind_body format self buf ≡ buf ++ bind_layout self
  unfolding put_statement_name
  bind_body-layout self buf h k =
      simp (portal_written, put_formats-append, append_assoc, mod-eq_of_lt h, mod-eq_of_lt k)

module _ (c : Crates) (d : Documented c) where
  read_format-format_bytes :
      (format : PgValueFormat) (rest : Bytes)
      → Unit {0}
      → read_format c (format_bytes format ++ rest) ≡ ok (format, rest)
  read_format-format_bytes text rest u =
      ground (arith, get_uint-be_bytes c d 2 0 rest (omega arith))
  read_format-format_bytes binary rest u =
      ground (arith, get_uint-be_bytes c d 2 1 rest (omega arith))

  read_value-encode_value :
      (v : Option Bytes) (rest : Bytes)
      → ShortEnough v
      → read_value c (encode_value v ++ rest) ≡ ok (v, rest)
  read_value-encode_value none rest s =
      ground (arith, get_uint-be_bytes c d 4 0xffffffff rest (omega arith))
  read_value-encode_value (some v) rest s = rw (append_assoc (be_bytes 4 (length v)) v rest) (
      ground (
        arith,
        get_uint-be_bytes c d 4 (length v) (v ++ rest) (omega arith),
        get_bytes-append c d (length v) v rest refl,
      ))

  formats_read :
      (formats : List PgValueFormat) (rest : Bytes)
      → repeat (length formats) (read_format c) (encode_all format_bytes formats ++ rest)
        ≡ ok (formats, rest)
  formats_read formats rest =
      repeat-encode_all (read_format c) format_bytes (λ format. Unit {0}) read_format-format_bytes
        formats rest (all_units formats)
    where
      all_units : (formats : List PgValueFormat) → All (λ format. Unit {0}) formats
      all_units [] = tt
      all_units (format ∷ formats) = (tt, all_units formats)

  values_read :
      (values : List (Option Bytes)) (rest : Bytes)
      → All ShortEnough values
      → repeat (length values) (read_value c) (encode_all encode_value values ++ rest)
        ≡ ok (values, rest)
  values_read values rest s =
      repeat-encode_all (read_value c) encode_value ShortEnough read_value-encode_value values rest
        s

  read_bind-bind_layout :
      (format : ℕ → Bytes) (self : Bind) (values : List (Option Bytes)) (n : ℕ) (rest : Bytes)
      → WritesDigits format
      → Holds self values
      → n < 2 ^ 32
      → read_bind c (b'B' ∷ (be_bytes 4 n ++ (bind_layout format self ++ rest)))
        ≡ ok (
          record {
            tag = b'B';
            len = n;
            portal = portal_name format self.portal;
            statement = statement_name format self.statement;
            formats = self.formats;
            values = values;
            result_formats = self.result_formats;
          },
          rest,
        )
  unfolding read_bind
  read_bind-bind_layout format self values n rest w s lt =
      let portal = portal_name format self.portal in
      let statement = statement_name format self.statement in
      let codes = encode_all format_bytes self.formats in
      let results = encode_all format_bytes self.result_formats in
      let sent = encode_all encode_value values in
      let resulted = be_bytes 2 (length self.result_formats) ++ (results ++ rest) in
      let valued = be_bytes 2 (length values) ++ (sent ++ resulted) in
      let formatted = be_bytes 2 (length self.formats) ++ (codes ++ valued) in
      let stated = (statement ++ 0 ∷ []) ++ formatted in
      let portaled = (portal ++ 0 ∷ []) ++ stated in
      let flat : bind_layout format self ++ rest ≡ portaled =
        rw (s.count, s.params) (simp (append_assoc)) in
      rw flat (
        ground (
          arith,
          one_tag c d b'B' (be_bytes 4 n ++ portaled) (omega arith),
          get_uint-be_bytes c d 4 n portaled lt,
          nul_read c d portal stated (portal_name-NoNul format self.portal w),
          nul_read c d statement formatted (statement_name-NoNul format self.statement w),
          get_uint-be_bytes c d 2 (length self.formats) (codes ++ valued) s.few_formats,
          formats_read self.formats valued,
          get_uint-be_bytes c d 2 (length values) (sent ++ resulted) s.few,
          values_read values resulted s.short,
          get_uint-be_bytes c d 2 (length self.result_formats) (results ++ rest) s.few_results,
          formats_read self.result_formats rest,
        ))

  -- A server reads in the message Bind its tag, a length that counts all but the tag, the names, the
  -- formats and the values that the driver wrote, if there are fewer than 2^16 of each, each value is
  -- shorter than 2^31 bytes, and so is the message.
  pub read_bind-encode_bind :
      (format : ℕ → Bytes) (self : Bind) (values : List (Option Bytes)) (buf rest : Bytes)
      → WritesDigits format
      → Holds self values
      → length (bind_layout format self) + 4 < 2 ^ 31
      → (message : Bytes) × (n : ℕ) × (encode_bind format self buf ≡ buf ++ message)
        × (length message ≡ n + 1)
        × (read_bind c (message ++ rest)
            ≡ ok (
              record {
                tag = b'B';
                len = n;
                portal = portal_name format self.portal;
                statement = statement_name format self.statement;
                formats = self.formats;
                values = values;
                result_formats = self.result_formats;
              },
              rest,
            ))
  unfolding encode_bind
  read_bind-encode_bind format self values buf rest w s l =
      let layout = bind_layout format self in
      let n = length layout + 4 in
      (
        b'B' ∷ (be_bytes 4 n ++ layout),
        n,
        tagged b'B' (bind_body format self) layout buf
            (λ b. bind_body-layout format self b s.few_formats s.few_results) l,
        omega (arith, length-append (be_bytes 4 n) layout, length-be_bytes 4 n),
        rw (append_assoc (be_bytes 4 n) layout rest)
            (read_bind-bind_layout format self values n rest w s (omega arith)),
      )
