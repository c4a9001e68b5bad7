-- ===== src/Postgres/Message/Laws.antt =====
-- The messages of the server are read as what it sent.
use rbdc.Base.{
  ℕ, ◌^◌, ◌<◌, ◌≡◌, refl, ◌≢◌, true, List, [], ◌∷◌, ◌++◌, append_assoc, Option, none, some, arith,
  Bytes, length, be_bytes, All, ok, Reader,
}
use rbdc.Base.Utf8.{is_utf8}
use rbdc.Crates.{Crates, Documented}
use rbdc.Io.{put_str_nul}
use rbdc.Io.Laws.{NoNul, get_str_nul-put_str_nul, get_uint-be_bytes}
use rbdc.Postgres.Message.{
  MessageFormat, try_from_u8, repeat, nonzero, Field, field_reader, decode_row_description,
}

-- The byte of each format.
unfoldable pub byte_of : MessageFormat → ℕ
byte_of MessageFormat.authentication = b'R'
byte_of MessageFormat.backend_key_data = b'K'
byte_of MessageFormat.bind_complete = b'2'
byte_of MessageFormat.close_complete = b'3'
byte_of MessageFormat.command_complete = b'C'
byte_of MessageFormat.copy_data = b'd'
byte_of MessageFormat.copy_done = b'c'
byte_of MessageFormat.copy_in_response = b'G'
byte_of MessageFormat.copy_out_response = b'H'
byte_of MessageFormat.data_row = b'D'
byte_of MessageFormat.empty_query_response = b'I'
byte_of MessageFormat.error_response = b'E'
byte_of MessageFormat.no_data = b'n'
byte_of MessageFormat.notice_response = b'N'
byte_of MessageFormat.notification_response = b'A'
byte_of MessageFormat.parameter_description = b't'
byte_of MessageFormat.parameter_status = b'S'
byte_of MessageFormat.parse_complete = b'1'
byte_of MessageFormat.portal_suspended = b's'
byte_of MessageFormat.ready_for_query = b'Z'
byte_of MessageFormat.row_description = b'T'

pub format_found : (format : MessageFormat) → try_from_u8 (byte_of format) ≡ ok format
unfolding try_from_u8 byte_of
format_found MessageFormat.authentication = refl
format_found _ = refl

unfoldable pub encode_all {ℓ} : {A : Type ℓ} → (A → Bytes) → List A → Bytes
encode_all encode [] = []
encode_all encode (x ∷ xs) = encode x ++ encode_all encode xs

-- What a loop reads of values that are each written and read back.
pub repeat-encode_all :
    {A : Type 0} (m : Reader A) (encode : A → Bytes) (P : A → Type 0)
    → ((x : A) (rest : Bytes) → P x → m (encode x ++ rest) ≡ ok (x, rest))
    → (xs : List A) (rest : Bytes) → All P xs
    → repeat (length xs) m (encode_all encode xs ++ rest) ≡ ok (xs, rest)
unfolding repeat encode_all
repeat-encode_all m encode P h [] rest p = refl
repeat-encode_all m encode P h (x ∷ xs) rest (p, ps) =
    rw (append_assoc (encode x) (encode_all encode xs) rest) (
      ground
        (arith, h x (encode_all encode xs ++ rest) p, repeat-encode_all m encode P h xs rest ps))

abbrev pub IsText : Bytes → Type 0
IsText s = NoNul s × (is_utf8 s ≡ true)

abbrev pub number_of : Option ℕ → ℕ
number_of none = 0
number_of (some n) = n

abbrev pub FitsNonzero : ℕ → Option ℕ → Type 0
FitsNonzero bound none = Unit
FitsNonzero bound (some n) = (n ≢ 0) × n < bound

nonzero-number_of : (bound : ℕ) (o : Option ℕ) → FitsNonzero bound o → nonzero (number_of o) ≡ o
nonzero-number_of bound none f = refl
nonzero-number_of bound (some n) f = ground (arith, f.0)

number_of_lt : (bound : ℕ) (o : Option ℕ) → 0 < bound → FitsNonzero bound o → number_of o < bound
number_of_lt bound none h f = h
number_of_lt bound (some n) h f = f.1

-- The name is a text, and the numbers fit their widths.
pub record FieldFits (field : Field) : Type 0 where
  pub name : IsText field.name
  pub relation_id : FitsNonzero (2 ^ 32) field.relation_id
  pub relation_attribute_no : FitsNonzero (2 ^ 16) field.relation_attribute_no
  pub data_type_id : field.data_type_id < 2 ^ 32
  pub data_type_size : field.data_type_size < 2 ^ 16
  pub type_modifier : field.type_modifier < 2 ^ 32
  pub format : field.format < 2 ^ 16

-- The numbers behind the name.
abbrev pub encode_numbers : Field → Bytes
encode_numbers field =
    be_bytes 4 (number_of field.relation_id)
    ++ (be_bytes 2 (number_of field.relation_attribute_no)
        ++ (be_bytes 4 field.data_type_id
            ++ (be_bytes 2 field.data_type_size
                ++ (be_bytes 4 field.type_modifier ++ be_bytes 2 field.format))))

-- A field as the server sends it.
abbrev pub encode_field : Field → Bytes
encode_field field = put_str_nul [] field.name ++ encode_numbers field

module _ (c : Crates) (d : Documented c) where
  field_reader-encode_field :
      (field : Field) (rest : Bytes)
      → FieldFits field
      → field_reader c (encode_field field ++ rest) ≡ ok (field, rest)
  unfolding field_reader
  field_reader-encode_field field rest f =
      let format = be_bytes 2 field.format ++ rest in
      let modifier = be_bytes 4 field.type_modifier ++ format in
      let size = be_bytes 2 field.data_type_size ++ modifier in
      let type = be_bytes 4 field.data_type_id ++ size in
      let attribute = be_bytes 2 (number_of field.relation_attribute_no) ++ type in
      rw (append_assoc (put_str_nul [] field.name) (encode_numbers field) rest) (
        ground (
          arith,
          get_str_nul-put_str_nul c d field.name (encode_numbers field ++ rest) f.name.0 f.name.1,
          get_uint-be_bytes c d 4 (number_of field.relation_id) attribute
              (number_of_lt (2 ^ 32) field.relation_id (omega arith) f.relation_id),
          get_uint-be_bytes c d 2 (number_of field.relation_attribute_no) type (
              number_of_lt (2 ^ 16) field.relation_attribute_no (omega arith)
                f.relation_attribute_no),
          get_uint-be_bytes c d 4 field.data_type_id size f.data_type_id,
          get_uint-be_bytes c d 2 field.data_type_size modifier f.data_type_size,
          get_uint-be_bytes c d 4 field.type_modifier format f.type_modifier,
          get_uint-be_bytes c d 2 field.format rest f.format,
          nonzero-number_of (2 ^ 32) field.relation_id f.relation_id,
          nonzero-number_of (2 ^ 16) field.relation_attribute_no f.relation_attribute_no,
        ))

  -- A description of rows is read back from what the server sent, if the fields are fewer than 2^16, fit
  -- their widths, and have names in UTF-8 without NULs.
  pub decode_row_description-encode_field :
      (fields : List Field) (rest : Bytes)
      → length fields < 2 ^ 16
      → All FieldFits fields
      → decode_row_description c
          (be_bytes 2 (length fields) ++ (encode_all encode_field fields ++ rest))
        ≡ ok (record { fields = fields })
  unfolding decode_row_description
  decode_row_description-encode_field fields rest h p = ground (
    arith,
    get_uint-be_bytes c d 2 (length fields) (encode_all encode_field fields ++ rest) h,
    repeat-encode_all (field_reader c) encode_field FieldFits field_reader-encode_field fields rest
        p,
  )
