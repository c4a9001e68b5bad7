-- ===== src/Mysql/BinaryRow/Laws.antt =====
-- A row of the binary protocol is read as the values that the server sent.
use rbdc.Base.{
  ℕ, zero, suc, ◌+◌, ◌-◌, ◌/◌, ◌%◌, ◌^◌, ◌≤◌, ◌<◌, ◌≡◌, refl, ap, sym, ◌∙◌, false, not, List, [],
  ◌∷◌, ◌++◌, append_assoc, Option, none, some, ◌==◌, arith, Bytes, length, length-append,
  drop-append, All, le→not_ltb, ok, match_number,
}
use rbdc.Base.Bits.{byte_at, bit_at, bit_and-mask}
use rbdc.Crates.{Crates, Documented}
use rbdc.Io.Laws.{get_bytes-append}
use rbdc.Mysql.Column.{ColumnType, type_id}
use rbdc.Mysql.BinaryRow.{
  MySqlColumn, Size, length_encoded, fixed, temporal, unreachable, size_of, is_marked, read_size,
  binary_values, decode_binary,
}
use rbdc.Mysql.Lenenc.{put_bytes_lenenc}
use rbdc.Mysql.Lenenc.Laws.{one_byte}
use rbdc.Mysql.Row.{Row, Range, get, row_from, push_range}
use rbdc.Mysql.Row.Laws.{value_at, Matching, get-Matching}
use rbdc.Mysql.Row.Ranges.{prefix, size_first, slice-append}
use rbdc.Mysql.Statement.Laws.{IsByte, get_elem-byte_at, byte_at-IsByte}

-- The forms of the values that are not length-encoded, by the numbers of their types in the protocol:
-- integers and floats by their widths, and times with their length in the first byte. NULL has no value.
abbrev pub forms : List (ℕ × Size)
forms =
    (1, fixed 1)
    ∷ (2, fixed 2)
    ∷ (13, fixed 2)
    ∷ (3, fixed 4)
    ∷ (9, fixed 4)
    ∷ (4, fixed 4)
    ∷ (8, fixed 8)
    ∷ (5, fixed 8)
    ∷ (10, temporal)
    ∷ (11, temporal)
    ∷ (7, temporal)
    ∷ (12, temporal)
    ∷ (6, unreachable)
    ∷ []

abbrev pub or_length_encoded : Option Size → Size
or_length_encoded none = length_encoded
or_length_encoded (some size) = size

-- How a server sends the values of a type.
unfoldable pub form_of : ColumnType → Size
unfolding match_number type_id
form_of ty = or_length_encoded (match_number (type_id ty) forms)

size_of-form_of : (ty : ColumnType) → size_of ty ≡ form_of ty
unfolding size_of form_of
size_of-form_of ColumnType.decimal = refl
size_of-form_of _ = refl

abbrev pub sent_as : MySqlColumn → Size
sent_as column = form_of column.type_info.type

-- What stands before a value.
abbrev pub lead_of : Size → Bytes → Bytes
lead_of length_encoded v = prefix v
lead_of _ v = []

-- A value as its type is sent.
abbrev pub Sized : Size → Bytes → Type 0
Sized length_encoded v = length v < 2 ^ 64
Sized (fixed n) v = length v ≡ n
Sized temporal v = (b : ℕ) × (bs : Bytes) × (v ≡ b ∷ bs) × (b ≡ length bs)
Sized unreachable v = ⊥

abbrev pub AllSized : List MySqlColumn → List (Option Bytes) → Type 0
AllSized [] [] = Unit
AllSized (column ∷ columns) (none ∷ vs) = AllSized columns vs
AllSized (column ∷ columns) (some v ∷ vs) = Sized (sent_as column) v × AllSized columns vs
AllSized _ _ = ⊥

-- The values as the server sends them, NULLs left out.
unfoldable pub encode_values : List MySqlColumn → List (Option Bytes) → Bytes
encode_values (column ∷ columns) (none ∷ vs) = encode_values columns vs
encode_values (column ∷ columns) (some v ∷ vs) =
    lead_of (sent_as column) v ++ (v ++ encode_values columns vs)
encode_values _ _ = []

-- Where the values stand, from a place on.
unfoldable pub places : ℕ → List MySqlColumn → List (Option Bytes) → List (Option Range)
places p (column ∷ columns) (none ∷ vs) = none ∷ places p columns vs
places p (column ∷ columns) (some v ∷ vs) =
    let start = p + length (lead_of (sent_as column) v) in
    some (start, start + length v) ∷ places (start + length v) columns vs
places p _ _ = []

-- 1 where there is no value.
abbrev pub none_at : List (Option Bytes) → ℕ → ℕ
none_at [] i = 0
none_at (none ∷ vs) zero = 1
none_at (some v ∷ vs) zero = 0
none_at (v ∷ vs) (suc i) = none_at vs i

-- The bits of a bitmap, from an index on, are those of the values.
abbrev pub Marks : Bytes → ℕ → List (Option Bytes) → Type 0
Marks bitmap idx [] = Unit
Marks bitmap idx (none ∷ vs) = (bit_at bitmap (idx + 2) ≡ 1) × Marks bitmap (idx + 1) vs
Marks bitmap idx (some v ∷ vs) = (bit_at bitmap (idx + 2) ≡ 0) × Marks bitmap (idx + 1) vs

-- The test of a bit, within the bitmap.
pub is_marked-bit_at :
    (bitmap : Bytes) (idx : ℕ)
    → All IsByte bitmap
    → (idx + 2) / 8 < length bitmap
    → is_marked bitmap idx ≡ ok (not (bit_at bitmap (idx + 2) == 0))
unfolding is_marked
is_marked-bit_at bitmap idx all h =
    rw
      (
        is_marked,
        get_elem-byte_at bitmap ((idx + 2) / 8) h,
        bit_and-mask (byte_at bitmap ((idx + 2) / 8)) ((idx + 2) % 8)
            (byte_at-IsByte bitmap ((idx + 2) / 8) all) (omega arith),
      )
      refl

add-suc-zero : (n : ℕ) → n + 1 ≡ suc n
add-suc-zero n = omega arith

module _ (c : Crates) (d : Documented c) where
  -- The size of a value is read, and what stands before it is passed.
  read_size-lead_of :
      (size : Size) (v rest : Bytes)
      → Sized size v
      → read_size c size (lead_of size v ++ (v ++ rest)) ≡ ok (length v, v ++ rest)
  unfolding read_size put_bytes_lenenc
  read_size-lead_of length_encoded v rest s =
      rw (append_assoc (prefix v) v rest) at (size_first c d v rest s)
  read_size-lead_of (fixed n) v rest s = rw s refl
  read_size-lead_of temporal v rest (b, bs, e, l) =
      rw (e, l) (ap (λ n. ok (n, length bs ∷ (bs ++ rest))) (add-suc-zero (length bs)))
  read_size-lead_of unreachable v rest s = absurd s

  -- One value that is not NULL, its bit not set.
  value_step :
      (bitmap v rest : Bytes) (column : MySqlColumn) (columns : List MySqlColumn) (p idx total : ℕ)
      → is_marked bitmap idx ≡ ok false
      → Sized (sent_as column) v
      → total ≡ p + length (lead_of (sent_as column) v) + length (v ++ rest)
      → binary_values c bitmap total
          (column ∷ columns)
          idx
          (lead_of (sent_as column) v ++ (v ++ rest))
        ≡ push_range
            (some (
              p + length (lead_of (sent_as column) v),
              p + length (lead_of (sent_as column) v) + length v,
            ))
            (binary_values c bitmap total columns (idx + 1) rest)
  unfolding binary_values
  value_step bitmap v rest column columns p idx total m s e =
      let size = sent_as column in
      let off : total - length (v ++ rest) ≡ p + length (lead_of size v) = omega arith in
      rw
        (
          binary_values,
          m,
          size_of-form_of column.type_info.type,
          read_size-lead_of size v rest s,
          le→not_ltb (length (v ++ rest)) (length v) (omega (arith, length-append v rest)),
          off,
          drop-append (length v) v rest refl,
        )
        refl

  -- The loop finds the values at their places.
  binary_values-places :
      (bitmap : Bytes) (columns : List MySqlColumn) (vs : List (Option Bytes)) (p idx total : ℕ)
      → All IsByte bitmap
      → (idx + length columns + 9) / 8 ≤ length bitmap
      → AllSized columns vs
      → Marks bitmap idx vs
      → total ≡ p + length (encode_values columns vs)
      → binary_values c bitmap total columns idx (encode_values columns vs)
        ≡ ok (places p columns vs)
  unfolding encode_values places binary_values
  binary_values-places bitmap [] [] p idx total b h s m e = refl
  binary_values-places bitmap [] (v ∷ vs) p idx total b h s m e = absurd s
  binary_values-places bitmap (column ∷ columns) [] p idx total b h s m e = absurd s
  binary_values-places bitmap (column ∷ columns) (none ∷ vs) p idx total b h s (m, ms) e =
      rw (binary_values, is_marked-bit_at bitmap idx b (omega arith), m)
        (ap (push_range none)
          (binary_values-places bitmap columns vs p (idx + 1) total b (omega arith) s ms e))
  binary_values-places bitmap (column ∷ columns) (some v ∷ vs) p idx total b h (s, ss) (m, ms) e =
      let lead = lead_of (sent_as column) v in
      let rest = encode_values columns vs in
      value_step bitmap v rest column columns p idx total
        (is_marked-bit_at bitmap idx b (omega arith) ∙ (rw m refl)) s
        (omega (arith, length-append lead (v ++ rest)))
      ∙ ap (push_range (some (p + length lead, p + length lead + length v))) (
          binary_values-places bitmap columns vs (p + length lead + length v) (idx + 1) total b
            (omega arith) ss ms
            (omega (arith, length-append lead (v ++ rest), length-append v rest)))

places-Matching :
    (p : ℕ) (columns : List MySqlColumn) (vs : List (Option Bytes))
    → AllSized columns vs
    → Matching (places p columns vs) vs
unfolding places
places-Matching p [] [] s = tt
places-Matching p [] (v ∷ vs) s = absurd s
places-Matching p (column ∷ columns) [] s = absurd s
places-Matching p (column ∷ columns) (none ∷ vs) s = places-Matching p columns vs s
places-Matching p (column ∷ columns) (some v ∷ vs) s =
    places-Matching (p + length (lead_of (sent_as column) v) + length v) columns vs s.1

row_from-places :
    (pre : Bytes) (columns : List MySqlColumn) (vs : List (Option Bytes))
    → AllSized columns vs
    → row_from (places (length pre) columns vs) (pre ++ encode_values columns vs)
      ≡ ok (record { storage = vs; values = places (length pre) columns vs })
unfolding row_from places encode_values
row_from-places pre [] [] s = refl
row_from-places pre [] (v ∷ vs) s = absurd s
row_from-places pre (column ∷ columns) [] s = absurd s
row_from-places pre (column ∷ columns) (none ∷ vs) s =
    ground (arith, row_from-places pre columns vs s)
row_from-places pre (column ∷ columns) (some v ∷ vs) (s, ss) =
    let lead = lead_of (sent_as column) v in
    let rest = encode_values columns vs in
    ground (
      arith,
      rw (append_assoc pre lead (v ++ rest), length-append pre lead) at
          (slice-append (pre ++ lead) v rest),
      rw
          (
            append_assoc (pre ++ lead) v rest,
            append_assoc pre lead (v ++ rest),
            length-append (pre ++ lead) v,
            length-append pre lead,
          )
          at (row_from-places ((pre ++ lead) ++ v) columns vs ss),
    )

module _ (c : Crates) (d : Documented c) where
  -- A row of the binary protocol whose values are sized as their types are sent, behind a bitmap of the
  -- right length in which exactly the bits of the NULLs are set, is read as these values. No read of a
  -- value panics.
  pub decode_binary-encode_values :
      (columns : List MySqlColumn) (vs : List (Option Bytes)) (bitmap : Bytes) (i : ℕ)
      → AllSized columns vs
      → All IsByte bitmap
      → length bitmap ≡ (length columns + 9) / 8
      → Marks bitmap 0 vs
      → (row : Row) × (decode_binary c columns (0 ∷ (bitmap ++ encode_values columns vs)) ≡ ok row)
        × (row.storage ≡ vs)
        × (get row i ≡ ok (value_at vs i))
  unfolding decode_binary
  decode_binary-encode_values columns vs bitmap i s b h m =
      let storage = bitmap ++ encode_values columns vs in
      (
        record { storage = vs; values = places (length bitmap) columns vs },
        ground (
          arith,
          one_byte c d 0 storage (omega arith),
          length-append bitmap (encode_values columns vs),
          get_bytes-append c d ((length columns + 9) / 8) bitmap (encode_values columns vs) (sym h),
          binary_values-places c d bitmap columns vs (length bitmap) 0 (length storage) b
              (omega arith) s m (length-append bitmap (encode_values columns vs)),
          row_from-places bitmap columns vs s,
        ),
        refl,
        get-Matching (places (length bitmap) columns vs) vs i
            (places-Matching (length bitmap) columns vs s),
      )
