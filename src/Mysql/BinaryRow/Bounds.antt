-- ===== src/Mysql/BinaryRow/Bounds.antt =====
-- What bounds the reads of a row of the binary protocol, whatever the server sent.
use Prim.Native.Nat.{bit_and}
use rbdc.Base.{
  ℕ, ◌+◌, ◌-◌, ◌/◌, ◌%◌, ◌^◌, ◌≤◌, ◌<◌, ◌≡◌, refl, Bool, false, not, List, [], ◌∷◌, Option, none,
  some, ltb, ◌==◌, arith, Bytes, length, length-drop, length-take, drop, take, All, Error, protocol,
  Outcome, and_then, ok, err, panic, Bool-cases, le→leb, inl, inr, ◌⊎◌,
}
use rbdc.Base.Bits.{byte_at}
use rbdc.Mysql.Statement.Laws.{get_elem-byte_at}
use rbdc.Crates.{Crates, Documented, eq_reference}
use rbdc.Io.{get_bytes}
use rbdc.Mysql.BinaryRow.{
  MySqlColumn, Size, length_encoded, fixed, temporal, unreachable, size_of, is_marked, read_size,
  binary_values, binary_row, decode_binary,
}
use rbdc.Mysql.Lenenc.Laws.{one_byte}
use rbdc.Mysql.Row.{Row, Range, slice, row_from, push_range}

-- A range inside a buffer of a length.
abbrev pub Inside : ℕ → Option Range → Type 0
Inside total none = Unit
Inside total (some (start, end)) = start ≤ end × end ≤ total

-- There is no panic, and the ranges are inside the buffer.
abbrev pub RangesInside : ℕ → Outcome (List (Option Range)) → Type 0
RangesInside total (ok xs) = All (Inside total) xs
RangesInside total (err e) = Unit
RangesInside total panic = ⊥

abbrev pub NoPanic {ℓ} : {A : Type ℓ} → Outcome A → Type 0
NoPanic (ok a) = Unit
NoPanic (err e) = Unit
NoPanic panic = ⊥

-- A type whose values are not length-encoded, and not NULL.
abbrev pub IsPlain : Size → Type 0
IsPlain (fixed n) = Unit
IsPlain temporal = Unit
IsPlain _ = ⊥

abbrev pub HasPlain : MySqlColumn → Type 0
HasPlain column = IsPlain (size_of column.type_info.type)

push_range-RangesInside :
    (total : ℕ) (x : Option Range) (o : Outcome (List (Option Range)))
    → Inside total x
    → RangesInside total o
    → RangesInside total (push_range x o)
push_range-RangesInside total x (ok xs) h r = (h, r)
push_range-RangesInside total x (err e) h r = tt
push_range-RangesInside total x panic h r = absurd r

-- The bit of a column is inside the bitmap.
is_marked-inside :
    (bitmap : Bytes) (idx : ℕ)
    → (idx + 2) / 8 < length bitmap
    → (b : Bool) × (is_marked bitmap idx ≡ ok b)
unfolding is_marked
is_marked-inside bitmap idx h = (
  not (bit_and (byte_at bitmap ((idx + 2) / 8)) (2 ^ ((idx + 2) % 8)) == 0),
  rw (is_marked, get_elem-byte_at bitmap ((idx + 2) / 8) h) refl,
)

slice-inside :
    (bytes : Bytes) (start end : ℕ)
    → start ≤ end
    → end ≤ length bytes
    → (v : Bytes) × (slice bytes (start, end) ≡ ok v)
unfolding slice
slice-inside bytes start end h k = (
  take (end - start) (drop start bytes),
  rw (le→leb start end h, le→leb end (length bytes) k) refl,
)

row_from-NoPanic :
    (xs : List (Option Range)) (bytes : Bytes)
    → All (Inside (length bytes)) xs
    → (row : Row) × (row_from xs bytes ≡ ok row)
unfolding row_from
row_from-NoPanic [] bytes h = (record { storage = []; values = [] }, refl)
row_from-NoPanic (none ∷ xs) bytes (h, hs) =
    let (row, e) = row_from-NoPanic xs bytes hs in
    (record { storage = none ∷ row.storage; values = none ∷ row.values }, rw e refl)
row_from-NoPanic (some (start, end) ∷ xs) bytes ((h, k), hs) =
    let (row, e) = row_from-NoPanic xs bytes hs in
    let (v, s) = slice-inside bytes start end h k in
    (
      record { storage = some v ∷ row.storage; values = some (start, end) ∷ row.values },
      rw (row_from, e, s) refl,
    )

module _ (c : Crates) where
  -- The size of a plain value is read, or there is an error.
  read_plain :
      (size : Size) (buf : Bytes)
      → IsPlain size
      → ((n : ℕ) × (read_size c size buf ≡ ok (n, buf)))
        ⊎ ((e : Error) × (read_size c size buf ≡ err e))
  unfolding read_size
  read_plain length_encoded buf p = absurd p
  read_plain (fixed n) buf p = inl (n, refl)
  read_plain temporal [] p =
      inr (protocol "binary row: expected temporal length byte, found empty buffer" [], refl)
  read_plain temporal (b ∷ bs) p = inl (b + 1, refl)
  read_plain unreachable buf p = absurd p

  binary_values-RangesInside :
      (bitmap : Bytes) (columns : List MySqlColumn) (idx total : ℕ) (buf : Bytes)
      → All HasPlain columns
      → (idx + length columns + 9) / 8 ≤ length bitmap
      → length buf ≤ total
      → RangesInside total (binary_values c bitmap total columns idx buf)
  unfolding binary_values
  binary_values-RangesInside bitmap [] idx total buf p h le = tt
  binary_values-RangesInside bitmap (column ∷ columns) idx total buf (p, ps) h le =
      let (b, m) = is_marked-inside bitmap idx (omega arith) in
      elim (Bool-cases b) [
        | inl null ↦
            rw (binary_values, m, null)
              (push_range-RangesInside total none
                (binary_values c bitmap total columns (idx + 1) buf) tt
                (binary_values-RangesInside bitmap columns (idx + 1) total buf ps (omega arith) le))
        | inr value ↦ elim (read_plain (size_of column.type_info.type) buf p) [
          | inl (n, r) ↦ elim (Bool-cases (ltb (length buf) n)) [
            | inl long ↦ rw (binary_values, m, value, r, long) tt
            | inr fits ↦
                rw (binary_values, m, value, r, fits)
                  (push_range-RangesInside total (some (total - length buf, total - length buf + n))
                    (binary_values c bitmap total columns (idx + 1) (drop n buf))
                    (omega arith, ground (arith, fits))
                    (binary_values-RangesInside bitmap columns (idx + 1) total (drop n buf) ps
                      (omega arith) (omega (arith, length-drop n buf))))
          ]
          | inr (e, r) ↦ rw (binary_values, m, value, r) tt
        ]
      ]

  row_from_values :
      (values : Outcome (List (Option Range))) (storage : Bytes)
      → RangesInside (length storage) values
      → NoPanic (and_then values λ xs. row_from xs storage)
  row_from_values (ok xs) storage h = let (row, e) = row_from-NoPanic xs storage h in rw e tt
  row_from_values (err e) storage h = tt
  row_from_values panic storage h = absurd h

module _ (c : Crates) (d : Documented c) where
  get_bytes_enough :
      (n : ℕ) (bs : Bytes) → n ≤ length bs → get_bytes c n bs ≡ ok (take n bs, drop n bs)
  unfolding get_bytes
  get_bytes_enough n bs h = rw (eq_reference c d) (ground arith)

  prefix_full :
      (k : ℕ) (storage : Bytes)
      → ltb (length storage) ((k + 9) / 8) ≡ false
      → (0 + k + 9) / 8 ≤ length (take ((k + 9) / 8) storage)
  prefix_full k storage h =
      let enough : (k + 9) / 8 ≤ length storage = ground (arith, h) in
      omega (arith, length-take ((k + 9) / 8) storage)

  binary_row-NoPanic :
      (columns : List MySqlColumn) (storage : Bytes)
      → All HasPlain columns
      → NoPanic (binary_row c columns storage)
  unfolding binary_row
  binary_row-NoPanic columns storage p =
      let n = (length columns + 9) / 8 in
      elim (Bool-cases (ltb (length storage) n)) [
        | inl short ↦ rw (binary_row, short) tt
        | inr enough ↦
            rw (binary_row, enough, get_bytes_enough n storage (ground (arith, enough)))
              (row_from_values c
                (binary_values c (take n storage) (length storage) columns 0 (drop n storage))
                storage
                (binary_values-RangesInside c (take n storage) columns 0 (length storage)
                  (drop n storage) p (prefix_full (length columns) storage enough)
                  (omega (arith, length-drop n storage))))
      ]

  -- Whatever bytes a server sends, one at least, the decoder of a row of the binary protocol returns a
  -- row or an error and does not panic, where no column has a length-encoded type or the type of NULL.
  pub decode_binary-NoPanic :
      (columns : List MySqlColumn) (b : ℕ) (storage : Bytes)
      → b < 256
      → All HasPlain columns
      → NoPanic (decode_binary c columns (b ∷ storage))
  unfolding decode_binary
  decode_binary-NoPanic columns b storage lt p = elim (Bool-cases (b == 0)) [
    | inl row ↦
        rw (decode_binary, one_byte c d b storage lt, row) (binary_row-NoPanic columns storage p)
    | inr other ↦ rw (decode_binary, one_byte c d b storage lt, other) tt
  ]
