-- ===== src/Mysql/Lenenc/Laws.antt =====
-- Round trips of the length-encoded values.
use native.Mathlib.Nat.{mod-eq_of_lt}
use rbdc.Base.{
  ℕ, ◌%◌, ◌^◌, ◌<◌, ◌≡◌, refl, true, [], ◌∷◌, ◌++◌, append_assoc, arith, ltb, Bytes, length, take,
  le_bytes, ok, Bool-cases, ◌⊎◌, inl, inr, ltb→lt,
}
use rbdc.Base.Utf8.{is_utf8}
use rbdc.Crates.{Crates, Documented}
use rbdc.Io.Laws.{get_uint_le-le_bytes, get_str-append, split_to-append}
use rbdc.Mysql.Lenenc.{
  put_uint_lenenc, put_bytes_lenenc, put_str_lenenc, get_uint_lenenc, get_str_lenenc,
  get_bytes_lenenc,
}

-- What is written is appended.
pub put_uint_lenenc-append :
    (buf : Bytes) (v : ℕ) → put_uint_lenenc buf v ≡ buf ++ put_uint_lenenc [] v
unfolding put_uint_lenenc
put_uint_lenenc-append buf v = ground (
  arith,
  append_assoc buf (0xfc ∷ []) (le_bytes 2 (v % 2 ^ 16)),
  append_assoc buf (0xfd ∷ []) (take 3 (le_bytes 4 (v % 2 ^ 32))),
  append_assoc buf (0xfe ∷ []) (le_bytes 8 v),
)

below_u8 : (v : ℕ) → v < 251 → v < 2 ^ 8
below_u8 v h = omega arith

below_u32 : (v : ℕ) → ltb v 0x1_00_00_00 ≡ true → v < 2 ^ 32
below_u32 v h = omega (arith, ltb→lt v 0x1_00_00_00)

module _ (c : Crates) (d : Documented c) where
  pub one_byte : (v : ℕ) (rest : Bytes) → v < 256 → c.get_uint_le 1 (v ∷ rest) ≡ ok (v, rest)
  one_byte v rest h = rw (mod-eq_of_lt h) at (get_uint_le-le_bytes c d 1 v rest h)

  small_int : (v : ℕ) (rest : Bytes) → v < 251 → get_uint_lenenc c (v % 2 ^ 8 ∷ rest) ≡ ok (v, rest)
  unfolding get_uint_lenenc
  small_int v rest h =
      rw (mod-eq_of_lt (below_u8 v h)) (ground (arith, one_byte v rest (below_u8 v h)))

  -- After its marker an integer of `n` bytes is read back.
  marked :
      (m n v : ℕ) (rest : Bytes)
      → m < 256
      → v < 256 ^ n
      → (m ≡ 0xfc) × (n ≡ 2) ⊎ (m ≡ 0xfd) × (n ≡ 3) ⊎ (m ≡ 0xfe) × (n ≡ 8)
      → get_uint_lenenc c (m ∷ le_bytes n v ++ rest) ≡ ok (v, rest)
  unfolding get_uint_lenenc
  marked m n v rest hm h k =
      ground (arith, one_byte m (le_bytes n v ++ rest) hm, get_uint_le-le_bytes c d n v rest h)

  -- Every 64-bit integer that is written length-encoded is read back, whatever follows it.
  pub get_uint_lenenc-put_uint_lenenc :
      (v : ℕ) (rest : Bytes)
      → v < 2 ^ 64
      → get_uint_lenenc c (put_uint_lenenc [] v ++ rest) ≡ ok (v, rest)
  unfolding put_uint_lenenc take
  get_uint_lenenc-put_uint_lenenc v rest h = elim (Bool-cases (ltb v 251)) [
    | inl small ↦ rw small (small_int v rest (ltb→lt v 251 small))
    | inr more ↦ elim (Bool-cases (ltb v 0x1_00_00)) [
      | inl two ↦
          rw (more, two, mod-eq_of_lt (ltb→lt v 0x1_00_00 two))
            (marked 0xfc 2 v rest (omega arith) (ltb→lt v 0x1_00_00 two) (inl (refl, refl)))
      | inr more2 ↦ elim (Bool-cases (ltb v 0x1_00_00_00)) [
        | inl three ↦
            rw (more, more2, three, mod-eq_of_lt (below_u32 v three))
              (marked 0xfd 3 v rest (omega arith) (ltb→lt v 0x1_00_00_00 three)
                (inr (inl (refl, refl))))
        | inr eight ↦
            rw (more, more2, eight) (marked 0xfe 8 v rest (omega arith) h (inr (inr (refl, refl))))
      ]
    ]
  ]

  -- A byte sequence whose length fits 64 bits and that was written with its length is read back,
  -- whatever follows it.
  pub get_bytes_lenenc-put_bytes_lenenc :
      (s rest : Bytes)
      → length s < 2 ^ 64
      → get_bytes_lenenc c (put_bytes_lenenc [] s ++ rest) ≡ ok (s, rest)
  unfolding get_bytes_lenenc put_bytes_lenenc
  get_bytes_lenenc-put_bytes_lenenc s rest h =
      rw (mod-eq_of_lt h, append_assoc (put_uint_lenenc [] (length s)) s rest)
        (ground (
          arith,
          get_uint_lenenc-put_uint_lenenc (length s) (s ++ rest) h,
          split_to-append c d (length s) s rest refl,
        ))

  -- A text in UTF-8 whose length fits 64 bits and that was written with its length is read back,
  -- whatever follows it.
  pub get_str_lenenc-put_str_lenenc :
      (s rest : Bytes)
      → length s < 2 ^ 64
      → is_utf8 s ≡ true
      → get_str_lenenc c (put_str_lenenc [] s ++ rest) ≡ ok (s, rest)
  unfolding get_str_lenenc put_str_lenenc
  get_str_lenenc-put_str_lenenc s rest h u =
      rw (mod-eq_of_lt h, append_assoc (put_uint_lenenc [] (length s)) s rest)
        (ground (
          arith,
          get_uint_lenenc-put_uint_lenenc (length s) (s ++ rest) h,
          get_str-append c d (length s) s rest refl u,
        ))
