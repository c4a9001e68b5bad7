-- ===== src/Mysql/Row/Ranges.antt =====
-- A row of the text protocol as the server sends it, and where its values stand in the buffer.
use native.Mathlib.Nat.{mod-eq_of_lt}
use rbdc.Base.{
  ℕ, ◌+◌, ◌-◌, ◌%◌, ◌^◌, ◌<◌, ◌≡◌, refl, ◌≢◌, List, [], ◌∷◌, ◌++◌, append_assoc, Option, none, some,
  ltb, arith, Bytes, le_bytes, length, length-append, take, take-append, drop-append, ok,
  Bool-cases, inl, inr, ltb→lt,
}
use rbdc.Crates.{Crates, Documented}
use rbdc.Mysql.Lenenc.{put_uint_lenenc, put_bytes_lenenc, get_uint_lenenc}
use rbdc.Mysql.Lenenc.Laws.{get_uint_lenenc-put_uint_lenenc}
use rbdc.Mysql.Row.{Range, slice, row_from}

-- A row as the server sends it: each value with its length, and 0xfb for NULL.
unfoldable pub encode_row : List (Option Bytes) → Bytes
encode_row [] = []
encode_row (none ∷ vs) = 0xfb ∷ encode_row vs
encode_row (some v ∷ vs) = put_bytes_lenenc [] v ++ encode_row vs

-- The length before a value.
abbrev pub prefix : Bytes → Bytes
prefix v = put_uint_lenenc [] (length v % 2 ^ 64)

-- Where the values stand, from a place on.
unfoldable pub ranges : ℕ → List (Option Bytes) → List (Option Range)
ranges p [] = []
ranges p (none ∷ vs) = none ∷ ranges (p + 1) vs
ranges p (some v ∷ vs) =
    some (p + length (prefix v), p + length (prefix v) + length v)
    ∷ ranges (p + length (put_bytes_lenenc [] v)) vs

abbrev pub Fits : Option Bytes → Type 0
Fits none = Unit
Fits (some v) = length v < 2 ^ 64

-- The length of a value never begins as NULL does.
pub lead : (n : ℕ) → (b : ℕ) × (bs : Bytes) × (put_uint_lenenc [] n ≡ b ∷ bs) × (b ≢ 0xfb)
unfolding put_uint_lenenc
lead n = elim (Bool-cases (ltb n 251)) [
  | inl small ↦ (
    n % 2 ^ 8,
    [],
    rw small refl,
    (λ (e : n % 2 ^ 8 ≡ 0xfb). omega (arith, ltb→lt n 251 small, e)),
  )
  | inr more ↦ elim (Bool-cases (ltb n 0x1_00_00)) [
    | inl two ↦ (
      0xfc,
      le_bytes 2 (n % 2 ^ 16),
      rw (more, two) refl,
      (λ (e : 0xfc ≡ 0xfb). ground (arith, e)),
    )
    | inr more2 ↦ elim (Bool-cases (ltb n 0x1_00_00_00)) [
      | inl three ↦ (
        0xfd,
        take 3 (le_bytes 4 (n % 2 ^ 32)),
        rw (more, more2, three) refl,
        (λ (e : 0xfd ≡ 0xfb). ground (arith, e)),
      )
      | inr eight ↦ (
        0xfe,
        le_bytes 8 n,
        rw (more, more2, eight) refl,
        (λ (e : 0xfe ≡ 0xfb). ground (arith, e)),
      )
    ]
  ]
]

pub slice-append :
    (pre v rest : Bytes) → slice (pre ++ (v ++ rest)) (length pre, length pre + length v) ≡ ok v
unfolding slice
slice-append pre v rest = ground (
  arith,
  length-append pre (v ++ rest),
  length-append v rest,
  drop-append (length pre) pre (v ++ rest) refl,
  take-append (length pre + length v - length pre) v rest (omega arith),
)

pub put_bytes-length : (v : Bytes) → length (put_bytes_lenenc [] v) ≡ length (prefix v) + length v
unfolding put_bytes_lenenc
put_bytes-length v = length-append (prefix v) v

slice-value :
    (pre v rest : Bytes)
    → slice
        (pre ++ (put_bytes_lenenc [] v ++ rest))
        (length pre + length (prefix v), length pre + length (prefix v) + length v)
      ≡ ok v
unfolding put_bytes_lenenc
slice-value pre v rest =
    rw
      (
        append_assoc (prefix v) v rest,
        ← append_assoc pre (prefix v) (v ++ rest),
        ← length-append pre (prefix v),
      )
      (slice-append (pre ++ prefix v) v rest)

-- The ranges are those of the values.
pub row_from-ranges :
    (vs : List (Option Bytes)) (pre : Bytes)
    → row_from (ranges (length pre) vs) (pre ++ encode_row vs)
      ≡ ok (record { storage = vs; values = ranges (length pre) vs })
unfolding row_from ranges encode_row
row_from-ranges [] pre = refl
row_from-ranges (none ∷ vs) pre = ground (
  arith,
  rw (append_assoc pre (0xfb ∷ []) (encode_row vs), length-append pre (0xfb ∷ [])) at
      (row_from-ranges vs (pre ++ 0xfb ∷ [])),
)
row_from-ranges (some v ∷ vs) pre = ground (
  arith,
  slice-value pre v (encode_row vs),
  rw
      (
        append_assoc pre (put_bytes_lenenc [] v) (encode_row vs),
        length-append pre (put_bytes_lenenc [] v),
      )
      at (row_from-ranges vs (pre ++ put_bytes_lenenc [] v)),
)

module _ (c : Crates) (d : Documented c) where
  pub size_first :
      (v rest : Bytes)
      → length v < 2 ^ 64
      → get_uint_lenenc c (put_bytes_lenenc [] v ++ rest) ≡ ok (length v, v ++ rest)
  unfolding put_bytes_lenenc
  size_first v rest h =
      rw (mod-eq_of_lt h, append_assoc (put_uint_lenenc [] (length v)) v rest)
        (get_uint_lenenc-put_uint_lenenc c d (length v) (v ++ rest) h)
