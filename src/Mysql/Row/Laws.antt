-- ===== src/Mysql/Row/Laws.antt =====
-- A row of the text protocol is read as the values that the server sent.
use rbdc.Base.{
  ℕ, zero, suc, ◌+◌, ◌-◌, ◌%◌, ◌^◌, ◌≤◌, ◌<◌, ◌≡◌, refl, ap, ◌∙◌, ◌≢◌, List, [], ◌∷◌, ◌++◌,
  append_assoc, Option, none, some, arith, Bytes, length, length-append, drop, drop-append,
  get_elem?, All, le→not_ltb, ok, panic,
}
use rbdc.Crates.{Crates, Documented}
use rbdc.Mysql.Lenenc.{put_bytes_lenenc, get_uint_lenenc}
use rbdc.Mysql.Row.{Row, Range, get, get_loop, stored, text_values, decode_text, push_range}
use rbdc.Mysql.Row.Ranges.{
  encode_row, prefix, ranges, Fits, lead, put_bytes-length, row_from-ranges, size_first,
}

-- The value of a column, and none behind the last.
unfoldable pub value_at : List (Option Bytes) → ℕ → Option Bytes
value_at [] i = none
value_at (v ∷ vs) zero = v
value_at (v ∷ vs) (suc i) = value_at vs i

get_elem-append :
    {B : Type 0} (before : List B) (x : B) (behind : List B)
    → get_elem? (before ++ x ∷ behind) (length before) ≡ some x
get_elem-append [] x behind = refl
get_elem-append (b ∷ before) x behind = get_elem-append before x behind

get_here :
    (x : Option Range) (xs : List (Option Range)) (storage : List (Option Bytes)) (idx : ℕ)
    → get_loop (x ∷ xs) storage idx idx ≡ stored x (get_elem? storage idx)
unfolding get_loop
get_here x xs storage idx = ground arith

get_later :
    (x : Option Range) (xs : List (Option Range)) (storage : List (Option Bytes)) (idx i : ℕ)
    → get_loop (x ∷ xs) storage (idx + suc i) idx ≡ get_loop xs storage ((idx + 1) + i) (idx + 1)
unfolding get_loop
get_later x xs storage idx i =
    let next : idx + suc i ≡ (idx + 1) + i = omega arith in rw (← next) (ground arith)

first_value :
    (x : Option Range) (v : Option Bytes) (xs : List (Option Range))
    (before vs : List (Option Bytes))
    → stored x (some v) ≡ ok v
    → get_loop (x ∷ xs) (before ++ v ∷ vs) (length before + 0) (length before) ≡ ok v
first_value x v xs before vs e =
    let here : length before + 0 ≡ length before = omega arith in
    rw here (
      get_here x xs (before ++ v ∷ vs) (length before)
      ∙ ap (stored x) (get_elem-append before v vs)
      ∙ e)

-- A range for each value, and none where there is no value.
abbrev pub Matching : List (Option Range) → List (Option Bytes) → Type 0
Matching [] [] = Unit
Matching (none ∷ xs) (none ∷ vs) = Matching xs vs
Matching (some x ∷ xs) (some v ∷ vs) = Matching xs vs
Matching _ _ = ⊥

get_loop-Matching :
    (xs : List (Option Range)) (vs before : List (Option Bytes)) (i : ℕ)
    → Matching xs vs
    → get_loop xs (before ++ vs) (length before + i) (length before) ≡ ok (value_at vs i)
unfolding value_at get_loop
get_loop-Matching [] [] before i m = refl
get_loop-Matching [] (v ∷ vs) before i m = absurd m
get_loop-Matching (none ∷ xs) [] before i m = absurd m
get_loop-Matching (some x ∷ xs) [] before i m = absurd m
get_loop-Matching (none ∷ xs) (some v ∷ vs) before i m = absurd m
get_loop-Matching (some x ∷ xs) (none ∷ vs) before i m = absurd m
get_loop-Matching (none ∷ xs) (none ∷ vs) before zero m = first_value none none xs before vs refl
get_loop-Matching (some x ∷ xs) (some v ∷ vs) before zero m =
    first_value (some x) (some v) xs before vs refl
get_loop-Matching (none ∷ xs) (none ∷ vs) before (suc i) m =
    get_later none xs (before ++ none ∷ vs) (length before) i
    ∙ (rw (append_assoc before (none ∷ []) vs, length-append before (none ∷ [])) at
        (get_loop-Matching xs vs (before ++ none ∷ []) i m))
get_loop-Matching (some x ∷ xs) (some v ∷ vs) before (suc i) m =
    get_later (some x) xs (before ++ some v ∷ vs) (length before) i
    ∙ (rw (append_assoc before (some v ∷ []) vs, length-append before (some v ∷ [])) at
        (get_loop-Matching xs vs (before ++ some v ∷ []) i m))

pub get-Matching :
    (xs : List (Option Range)) (vs : List (Option Bytes)) (i : ℕ)
    → Matching xs vs
    → get (record { storage = vs; values = xs }) i ≡ ok (value_at vs i)
unfolding get
get-Matching xs vs i m =
    let start : i ≡ 0 + i = omega arith in
    ap (λ k. get_loop xs vs k 0) start ∙ get_loop-Matching xs vs [] i m

ranges-Matching : (p : ℕ) (vs : List (Option Bytes)) → Matching (ranges p vs) vs
unfolding ranges
ranges-Matching p [] = tt
ranges-Matching p (none ∷ vs) = ranges-Matching (p + 1) vs
ranges-Matching p (some v ∷ vs) = ranges-Matching (p + length (put_bytes_lenenc [] v)) vs

module _ (c : Crates) (d : Documented c) {A : Type 0} where
  text_step :
      (a : A) (columns : List A) (storage buf more : Bytes) (b size : ℕ) (bs : Bytes)
      → buf ≡ b ∷ bs
      → b ≢ 0xfb
      → get_uint_lenenc c buf ≡ ok (size, more)
      → size ≤ length more
      → text_values c (a ∷ columns) storage buf
        ≡ push_range
            (some (length storage - length more, length storage - length more + size))
            (text_values c columns storage (drop size more))
  unfolding text_values
  text_step a columns storage buf more b size bs e ne r le =
      rw e (ground (arith, rw e at r, le→not_ltb (length more) size le))

  value_step :
      (a : A) (columns : List A) (pre v rest : Bytes)
      → length v < 2 ^ 64
      → text_values c
          (a ∷ columns)
          (pre ++ (put_bytes_lenenc [] v ++ rest))
          (put_bytes_lenenc [] v ++ rest)
        ≡ push_range
            (some (length pre + length (prefix v), length pre + length (prefix v) + length v))
            (text_values c columns (pre ++ (put_bytes_lenenc [] v ++ rest)) rest)
  unfolding put_bytes_lenenc
  value_step a columns pre v rest h =
      let buf = put_bytes_lenenc [] v ++ rest in
      let (b, bs, e, ne) = lead (length v % 2 ^ 64) in
      let first : buf ≡ b ∷ ((bs ++ v) ++ rest) = ap (λ x. (x ++ v) ++ rest) e in
      let off : length (pre ++ buf) - length (v ++ rest) ≡ length pre + length (prefix v) = omega (
        arith,
        length-append pre buf,
        length-append (put_bytes_lenenc [] v) rest,
        put_bytes-length v,
        length-append v rest,
      ) in
      text_step a columns (pre ++ buf) buf (v ++ rest) b (length v) ((bs ++ v) ++ rest) first ne
        (size_first c d v rest h) (omega (arith, length-append v rest))
      ∙ ap
          (λ o.
            push_range (some (o, o + length v))
              (text_values c columns (pre ++ buf) (drop (length v) (v ++ rest))))
          off
      ∙ ap
          (λ x.
            push_range
              (some (length pre + length (prefix v), length pre + length (prefix v) + length v))
              (text_values c columns (pre ++ buf) x))
          (drop-append (length v) v rest refl)

  text_values-ranges :
      (columns : List A) (vs : List (Option Bytes)) (pre : Bytes)
      → length columns ≡ length vs
      → All Fits vs
      → text_values c columns (pre ++ encode_row vs) (encode_row vs) ≡ ok (ranges (length pre) vs)
  unfolding text_values ranges encode_row
  text_values-ranges [] [] pre e f = refl
  text_values-ranges [] (v ∷ vs) pre e f = absurd (omega arith)
  text_values-ranges (a ∷ columns) [] pre e f = absurd (omega arith)
  text_values-ranges (a ∷ columns) (none ∷ vs) pre e (f, fs) = ground (
    arith,
    rw (append_assoc pre (0xfb ∷ []) (encode_row vs), length-append pre (0xfb ∷ [])) at
        (text_values-ranges columns vs (pre ++ 0xfb ∷ []) (omega arith) fs),
  )
  text_values-ranges (a ∷ columns) (some v ∷ vs) pre e (f, fs) =
      value_step a columns pre v (encode_row vs) f
      ∙ ap
          (push_range
            (some (length pre + length (prefix v), length pre + length (prefix v) + length v)))
          (rw
            (
              append_assoc pre (put_bytes_lenenc [] v) (encode_row vs),
              length-append pre (put_bytes_lenenc [] v),
            )
            at (text_values-ranges columns vs (pre ++ put_bytes_lenenc [] v) (omega arith) fs))

  -- The values of a row of the text protocol, each shorter than 2^64 bytes, are read back under their
  -- columns, if there is a column for each, and behind the last column there is no value. No read
  -- panics.
  pub decode_text-encode_row :
      (columns : List A) (vs : List (Option Bytes)) (i : ℕ)
      → length columns ≡ length vs
      → All Fits vs
      → (row : Row) × (decode_text c columns (encode_row vs) ≡ ok row)
        × (row.storage ≡ vs)
        × (get row i ≡ ok (value_at vs i))
  unfolding decode_text
  decode_text-encode_row columns vs i e f = (
    record { storage = vs; values = ranges 0 vs },
    rw (decode_text, text_values-ranges columns vs [] e f) (row_from-ranges vs []),
    refl,
    get-Matching (ranges 0 vs) vs i (ranges-Matching 0 vs),
  )

  text_values-short :
      (columns : List A) (vs : List (Option Bytes)) (pre : Bytes)
      → length vs < length columns
      → All Fits vs
      → text_values c columns (pre ++ encode_row vs) (encode_row vs) ≡ panic
  unfolding text_values encode_row
  text_values-short [] vs pre e f = absurd (omega arith)
  text_values-short (a ∷ columns) [] pre e f = refl
  text_values-short (a ∷ columns) (none ∷ vs) pre e (f, fs) = ground (
    arith,
    rw (append_assoc pre (0xfb ∷ []) (encode_row vs)) at
        (text_values-short columns vs (pre ++ 0xfb ∷ []) (omega arith) fs),
  )
  text_values-short (a ∷ columns) (some v ∷ vs) pre e (f, fs) =
      value_step a columns pre v (encode_row vs) f
      ∙ ap
          (push_range
            (some (length pre + length (prefix v), length pre + length (prefix v) + length v)))
          (rw (append_assoc pre (put_bytes_lenenc [] v) (encode_row vs)) at
            (text_values-short columns vs (pre ++ put_bytes_lenenc [] v) (omega arith) fs))

  -- A row of the text protocol with fewer values than there are columns makes the decoder panic, where
  -- each value is shorter than 2^64 bytes.
  pub decode_text-short :
      (columns : List A) (vs : List (Option Bytes))
      → length vs < length columns
      → All Fits vs
      → decode_text c columns (encode_row vs) ≡ panic
  unfolding decode_text
  decode_text-short columns vs e f = rw (decode_text, text_values-short columns vs [] e f) refl
