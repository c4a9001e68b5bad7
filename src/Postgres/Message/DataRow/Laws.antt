-- ===== src/Postgres/Message/DataRow/Laws.antt =====
-- A row of data is read as the values that the server sent.
use native.Mathlib.Nat.{mod-eq_of_lt}
use rbdc.Base.{
  ℕ, ◌+◌, ◌^◌, ◌<◌, ◌≡◌, refl, sym, List, [], ◌∷◌, ◌++◌, append_assoc, Option, none, some, arith,
  Bytes, length, length-append, drop-append, take-append, be_bytes, length-be_bytes,
  of_be_bytes-be_bytes, All, ok, lt→ltb,
}
use rbdc.Crates.{Crates, Documented, eq_reference}
use rbdc.Mysql.Row.{Range, row_from}
use rbdc.Mysql.Row.Laws.{value_at, Matching, get-Matching}
use rbdc.Mysql.Row.Ranges.{slice-append}
use rbdc.Postgres.Message.{read_at}
use rbdc.Postgres.Message.DataRow.{DataRow, get_data, data_values, decode_data_row}

-- A value as the server sends it: its length and its bytes, or a length of -1.
abbrev pub encode_value : Option Bytes → Bytes
encode_value none = be_bytes 4 0xffffffff
encode_value (some v) = be_bytes 4 (length v) ++ v

unfoldable pub encode_data : List (Option Bytes) → Bytes
encode_data [] = []
encode_data (v ∷ vs) = encode_value v ++ encode_data vs

abbrev pub ShortEnough : Option Bytes → Type 0
ShortEnough none = Unit
ShortEnough (some v) = length v < 2 ^ 31

-- Where the values stand, from a place on.
unfoldable pub spots : ℕ → List (Option Bytes) → List (Option Range)
spots p [] = []
spots p (none ∷ vs) = none ∷ spots (p + 4) vs
spots p (some v ∷ vs) = some (p + 4, p + 4 + length v) ∷ spots (p + 4 + length v) vs

spots-Matching : (p : ℕ) (vs : List (Option Bytes)) → Matching (spots p vs) vs
unfolding spots
spots-Matching p [] = tt
spots-Matching p (none ∷ vs) = spots-Matching (p + 4) vs
spots-Matching p (some v ∷ vs) = spots-Matching (p + 4 + length v) vs

row_from-spots :
    (pre : Bytes) (vs : List (Option Bytes))
    → row_from (spots (length pre) vs) (pre ++ encode_data vs)
      ≡ ok (record { storage = vs; values = spots (length pre) vs })
unfolding row_from spots encode_data
row_from-spots pre [] = refl
row_from-spots pre (none ∷ vs) =
    let head = be_bytes 4 0xffffffff in
    ground (
      arith,
      rw (append_assoc pre head (encode_data vs), length-append pre head) at
          (row_from-spots (pre ++ head) vs),
    )
row_from-spots pre (some v ∷ vs) =
    let head = be_bytes 4 (length v) in
    let rest = encode_data vs in
    ground (
      arith,
      rw (append_assoc pre head (v ++ rest), length-append pre head) at
          (slice-append (pre ++ head) v rest),
      rw
          (
            append_assoc (pre ++ head) v rest,
            append_assoc pre head (v ++ rest),
            length-append (pre ++ head) v,
            length-append pre head,
          )
          at (row_from-spots ((pre ++ head) ++ v) vs),
    )

module _ (c : Crates) (d : Documented c) where
  pub read_uint-be_bytes :
      (n v : ℕ) (rest : Bytes) → v < 256 ^ n → c.read_uint n (be_bytes n v ++ rest) ≡ ok v
  read_uint-be_bytes n v rest h = rw (eq_reference c d) (
      ground (
        arith,
        length-append (be_bytes n v) rest,
        length-be_bytes n v,
        take-append n (be_bytes n v) rest (sym (length-be_bytes n v)),
        of_be_bytes-be_bytes n v h,
      ))

  -- A number that stands behind other bytes is read there.
  pub read_at-be_bytes :
      (n v : ℕ) (pre rest : Bytes)
      → v < 256 ^ n
      → read_at c n (length pre) (pre ++ (be_bytes n v ++ rest)) ≡ ok v
  read_at-be_bytes n v pre rest h = ground (
    arith,
    length-append pre (be_bytes n v ++ rest),
    drop-append (length pre) pre (be_bytes n v ++ rest) refl,
    read_uint-be_bytes n v rest h,
  )

  data_values-spots :
      (vs : List (Option Bytes)) (pre : Bytes)
      → All ShortEnough vs
      → length (pre ++ encode_data vs) < 2 ^ 32
      → data_values c (length vs) (length pre) (pre ++ encode_data vs) ≡ ok (spots (length pre) vs)
  unfolding data_values spots encode_data
  data_values-spots [] pre s h = refl
  data_values-spots (none ∷ vs) pre (s, ss) h =
      let head = be_bytes 4 0xffffffff in
      let rest = encode_data vs in
      let fits : length pre + 4 < 2 ^ 32 = omega (arith, length-append pre (head ++ rest)) in
      ground (
        arith,
        read_at-be_bytes 4 0xffffffff pre rest (omega arith),
        mod-eq_of_lt fits,
        rw (append_assoc pre head rest, length-append pre head) at
            (data_values-spots vs (pre ++ head) ss (rw (append_assoc pre head rest) h)),
      )
  data_values-spots (some v ∷ vs) pre (s, ss) h =
      let head = be_bytes 4 (length v) in
      let rest = encode_data vs in
      let fits : length pre + 4 + length v < 2 ^ 32 =
        omega (arith, length-append pre ((head ++ v) ++ rest), length-append v rest) in
      let first : length pre + 4 < 2 ^ 32 = omega arith in
      ground (
        arith,
        rw (← append_assoc head v rest) at
            (read_at-be_bytes 4 (length v) pre (v ++ rest) (omega arith)),
        mod-eq_of_lt first,
        mod-eq_of_lt fits,
        lt→ltb (length v) (2 ^ 31) s,
        rw
            (
              append_assoc (pre ++ head) v rest,
              append_assoc pre head (v ++ rest),
              length-append (pre ++ head) v,
              length-append pre head,
            )
            at
            (data_values-spots vs ((pre ++ head) ++ v) ss
              (rw (append_assoc (pre ++ head) v rest, append_assoc pre head (v ++ rest)) h)),
      )

  -- A row of data of fewer than 2^16 values, each shorter than 2^31 bytes and all together shorter than
  -- 2^32, is read back, and behind the last value there is none. No read of a value panics.
  pub decode_data_row-encode_data :
      (vs : List (Option Bytes)) (i : ℕ)
      → length vs < 2 ^ 16
      → All ShortEnough vs
      → length (encode_data vs) + 2 < 2 ^ 32
      → (row : DataRow) × (decode_data_row c (be_bytes 2 (length vs) ++ encode_data vs) ≡ ok row)
        × (row.storage ≡ vs)
        × (get_data row i ≡ ok (value_at vs i))
  unfolding decode_data_row get_data
  decode_data_row-encode_data vs i h s l =
      let count = be_bytes 2 (length vs) in
      (
        record { storage = vs; values = spots 2 vs },
        ground (
          arith,
          read_uint-be_bytes 2 (length vs) (encode_data vs) h,
          data_values-spots vs count s (omega (arith, length-append count (encode_data vs))),
          row_from-spots count vs,
        ),
        refl,
        get-Matching (spots 2 vs) vs i (spots-Matching 2 vs),
      )
