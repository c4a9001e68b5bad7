-- ===== src/Io/Laws.antt =====
-- What the reads of src/io/buf.rs return, on every input.
use rbdc.Base.{
  ℕ, zero, suc, ◌+◌, ◌≤◌, ◌<◌, ◌^◌, ◌≡◌, refl, ap, sym, ◌≢◌, ◌⊎◌, inl, inr, true, none, some, [],
  ◌∷◌, ◌++◌, append_assoc, arith, le→not_ltb, Bytes, length, length-append, drop, take-append,
  drop-append, le_bytes, be_bytes, length-le_bytes, length-be_bytes, of_le_bytes-le_bytes,
  of_be_bytes-be_bytes, All, protocol, ok, err,
}
use rbdc.Base.Utf8.{is_utf8}
use rbdc.Crates.{Crates, Documented, eq_reference, reference, first_index, checked}
use rbdc.Io.{get_bytes_nul, get_bytes, get_str_nul, get_str, put_str_nul, from_utf8}

abbrev pub NoNul : Bytes → Type 0
NoNul = All (λ b. b ≢ 0)

pub first_index-append :
    (xs rest : Bytes) → NoNul xs → first_index 0 (xs ++ 0 ∷ rest) ≡ some (length xs)
unfolding first_index
first_index-append [] rest h = refl
first_index-append (x ∷ xs) rest h = ground (arith, first_index-append xs rest h.1, h.0)

-- `checked` passes wherever enough bytes are there.
pub checked-append {ℓ} :
    {A : Type ℓ} (n : ℕ) (xs rest : Bytes) (a : A) → n ≤ length xs → checked n (xs ++ rest) a ≡ ok a
checked-append n xs rest a h =
    rw (le→not_ltb (length (xs ++ rest)) n (omega (arith, length-append xs rest)))

pub checked_exact {ℓ} :
    {A : Type ℓ} (n : ℕ) (bs : Bytes) (a : A) → n ≤ length bs → checked n bs a ≡ ok a
checked_exact n bs a h = rw (le→not_ltb (length bs) n h)

drop_past : (xs : Bytes) (b : ℕ) (rest : Bytes) → drop (length xs + 1) (xs ++ b ∷ rest) ≡ rest
drop_past xs b rest =
    rw (← append_assoc xs (b ∷ []) rest)
      (drop-append (length xs + 1) (xs ++ b ∷ []) rest (omega (arith, length-append xs (b ∷ []))))

get_bytes_nul_at :
    (xs rest : Bytes)
    → first_index 0 (xs ++ 0 ∷ rest) ≡ some (length xs)
    → get_bytes_nul reference (xs ++ 0 ∷ rest) ≡ ok (xs, rest)
unfolding get_bytes_nul
get_bytes_nul_at xs rest e = ground (
  arith,
  e,
  length-append xs (0 ∷ rest),
  take-append (length xs) xs (0 ∷ rest) refl,
  drop_past xs 0 rest,
)

-- The bytes up to the first NUL are returned, and the cursor stands behind it.
pub get_bytes_nul-append :
    (xs rest : Bytes) → NoNul xs → get_bytes_nul reference (xs ++ 0 ∷ rest) ≡ ok (xs, rest)
get_bytes_nul-append xs rest h = get_bytes_nul_at xs rest (first_index-append xs rest h)

first_index-none : (bs : Bytes) → NoNul bs → first_index 0 bs ≡ none
unfolding first_index
first_index-none [] h = refl
first_index-none (b ∷ bs) h = ground (arith, first_index-none bs h.1, h.0)

-- Either the bytes hold no NUL, or they split at the first one.
abbrev pub NulSplit : Bytes → Type 0
NulSplit bs = NoNul bs ⊎ ((xs : Bytes) × (rest : Bytes) × (bs ≡ xs ++ 0 ∷ rest) × NoNul xs)

pub nul_split : (bs : Bytes) → NulSplit bs
nul_split [] = inl tt
nul_split (zero ∷ bs) = inr ([], bs, refl, tt)
nul_split (suc b ∷ bs) = elim (nul_split bs) [
  | inl h ↦ inl ((λ (e : suc b ≡ 0). cc), h)
  | inr (xs, rest, e, h) ↦ inr (suc b ∷ xs, rest, ap (◌∷◌ (suc b)) e, ((λ (e : suc b ≡ 0). cc), h))
]

module _ (c : Crates) (d : Documented c) where
  -- Bytes without a NUL are refused with an error. Otherwise the bytes up to the first NUL are
  -- returned, and the cursor stands behind it. There is no panic.
  pub get_bytes_nul_lem :
      (bs : Bytes)
      → (NoNul bs × (get_bytes_nul c bs ≡ err (protocol "expected NUL in byte sequence" [])))
        ⊎ ((xs : Bytes) × (rest : Bytes) × (bs ≡ xs ++ 0 ∷ rest)
            × NoNul xs
            × (get_bytes_nul c bs ≡ ok (xs, rest)))
  unfolding get_bytes_nul
  get_bytes_nul_lem bs = elim (nul_split bs) [
    | inl h ↦ inl (h, rw (eq_reference c d) (ground (arith, first_index-none bs h)))
    | inr (xs, rest, e, h) ↦
        inr (xs, rest, e, h, rw (eq_reference c d, e) (get_bytes_nul-append xs rest h))
  ]

  -- A text in UTF-8 without a NUL that was written with a NUL behind it is read back, whatever
  -- follows it.
  pub get_str_nul-put_str_nul :
      (s rest : Bytes)
      → NoNul s
      → is_utf8 s ≡ true
      → get_str_nul c (put_str_nul [] s ++ rest) ≡ ok (s, rest)
  unfolding get_str_nul put_str_nul from_utf8
  get_str_nul-put_str_nul s rest h u =
      rw (eq_reference c d, append_assoc s (0 ∷ []) rest)
        (ground (arith, get_bytes_nul-append s rest h))

  pub get_str-append :
      (n : ℕ) (s rest : Bytes)
      → n ≡ length s
      → is_utf8 s ≡ true
      → get_str c n (s ++ rest) ≡ ok (s, rest)
  unfolding get_str from_utf8
  get_str-append n s rest e u =
      rw (eq_reference c d)
        (ground (arith, length-append s rest, take-append n s rest e, drop-append n s rest e))

  pub get_bytes-append :
      (n : ℕ) (s rest : Bytes) → n ≡ length s → get_bytes c n (s ++ rest) ≡ ok (s, rest)
  unfolding get_bytes
  get_bytes-append n s rest e =
      rw (eq_reference c d)
        (ground (arith, length-append s rest, take-append n s rest e, drop-append n s rest e))

  pub split_to-append :
      (n : ℕ) (s rest : Bytes) → n ≡ length s → c.split_to n (s ++ rest) ≡ ok (s, rest)
  split_to-append n s rest e =
      rw (eq_reference c d)
        (ground (arith, length-append s rest, take-append n s rest e, drop-append n s rest e))

  pub advance-append :
      (n : ℕ) (s rest : Bytes) → n ≡ length s → c.advance n (s ++ rest) ≡ ok (tt, rest)
  advance-append n s rest e =
      rw (eq_reference c d) (ground (arith, length-append s rest, drop-append n s rest e))

  -- An integer that was written in either byte order is read back.
  pub get_uint_le-le_bytes :
      (n v : ℕ) (rest : Bytes) → v < 256 ^ n → c.get_uint_le n (le_bytes n v ++ rest) ≡ ok (v, rest)
  get_uint_le-le_bytes n v rest h = rw (eq_reference c d) (
      ground (
        arith,
        length-append (le_bytes n v) rest,
        length-le_bytes n v,
        take-append n (le_bytes n v) rest (sym (length-le_bytes n v)),
        drop-append n (le_bytes n v) rest (sym (length-le_bytes n v)),
        of_le_bytes-le_bytes n v h,
      ))

  pub get_uint-be_bytes :
      (n v : ℕ) (rest : Bytes) → v < 256 ^ n → c.get_uint n (be_bytes n v ++ rest) ≡ ok (v, rest)
  get_uint-be_bytes n v rest h = rw (eq_reference c d) (
      ground (
        arith,
        length-append (be_bytes n v) rest,
        length-be_bytes n v,
        take-append n (be_bytes n v) rest (sym (length-be_bytes n v)),
        drop-append n (be_bytes n v) rest (sym (length-be_bytes n v)),
        of_be_bytes-be_bytes n v h,
      ))
