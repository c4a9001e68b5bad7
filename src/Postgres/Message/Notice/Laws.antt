-- ===== src/Postgres/Message/Notice/Laws.antt =====
-- The fields of a notice are read as the server sent them.
use native.Mathlib.Nat.{mod-eq_of_lt}
use rbdc.Base.{
  ℕ, suc, ◌+◌, ◌-◌, ◌^◌, ◌<◌, ◌≡◌, refl, ap, sym, ◌∙◌, ◌≢◌, Bool, true, false, not, ◌&&◌, ◌==◌, [],
  ◌∷◌, ◌++◌, append_assoc, some, arith, Bytes, length, length-append, drop, drop-append, get_elem?,
  ok, and_then, le→not_ltb, Bool-cases, Option-cases, inl, inr,
}
use rbdc.Base.Utf8.{is_utf8}
use rbdc.Crates.{Crates, Documented, eq_reference}
use rbdc.Io.Laws.{NoNul, first_index-append}
use rbdc.Mysql.Row.{slice}
use rbdc.Mysql.Row.Ranges.{slice-append}
use rbdc.Postgres.Message.Notice.{
  severity_or_default, PgSeverity, Notice, Found, nothing, try_from, note_field, next, notice_loop,
  decode_notice,
}

-- A field as the server sends it.
abbrev pub field : ℕ → Bytes → Bytes
field ty text = ty ∷ (text ++ 0 ∷ [])

get_at : (pre : Bytes) (b : ℕ) (rest : Bytes) → get_elem? (pre ++ b ∷ rest) (length pre) ≡ some b
get_at [] b rest = refl
get_at (x ∷ pre) b rest = get_at pre b rest

module _ (c : Crates) (d : Documented c) where
  memchr-append :
      (text rest : Bytes) → NoNul text → c.memchr 0 (text ++ 0 ∷ rest) ≡ some (length text)
  memchr-append text rest h = rw (eq_reference c d) (first_index-append text rest h)

  next-field :
      (pre text rest : Bytes) (ty : ℕ)
      → ty ≢ 0
      → NoNul text
      → length pre + length text + 2 < 2 ^ 16
      → next c (pre ++ (ty ∷ (text ++ 0 ∷ rest))) (length pre)
        ≡ ok (
            some (ty, (length pre + 1, length pre + length text + 1), length pre + length text + 2))
  unfolding next
  next-field pre text rest ty ne h lt =
      let storage = pre ++ (ty ∷ (text ++ 0 ∷ rest)) in
      let start : length pre + 1 < 2 ^ 16 = omega arith in
      let nul : length text < 2 ^ 16 = omega arith in
      let stop : length pre + length text + 1 < 2 ^ 16 = omega arith in
      let behind : drop (length pre + 1) storage ≡ text ++ 0 ∷ rest =
        rw (← append_assoc pre (ty ∷ []) (text ++ 0 ∷ rest)) (
          drop-append (length pre + 1) (pre ++ ty ∷ []) (text ++ 0 ∷ rest)
            (omega (arith, length-append pre (ty ∷ [])))) in
      ground (
        arith,
        get_at pre ty (text ++ 0 ∷ rest),
        mod-eq_of_lt start,
        behind,
        length-append pre (ty ∷ (text ++ 0 ∷ rest)),
        memchr-append text rest h,
        mod-eq_of_lt nul,
        mod-eq_of_lt stop,
        mod-eq_of_lt lt,
      )

slice-field :
    (pre text rest : Bytes) (ty : ℕ)
    → slice (pre ++ (field ty text ++ rest)) (length pre + 1, length pre + length text + 1)
      ≡ ok text
slice-field pre text rest ty =
    let start : length (pre ++ ty ∷ []) ≡ length pre + 1 = length-append pre (ty ∷ []) in
    let end : length pre + 1 + length text ≡ length pre + length text + 1 = omega arith in
    rw (append_assoc text (0 ∷ []) rest) (
      rw (append_assoc pre (ty ∷ []) (text ++ (0 ∷ rest)), start, end) at
        (slice-append (pre ++ ty ∷ []) text (0 ∷ rest)))

abbrev pub is_complete : Found → Bool
is_complete found = not (found.message.0 == 0) && not (found.code.0 == 0)

-- What is found in the four fields.
abbrev read_fields : Bytes → Bytes → Bytes → Bytes → PgSeverity → Found
read_fields s v code message severity =
    let p2 = field b'S' s ++ field b'V' v in
    let p3 = p2 ++ field b'C' code in
    record {
      severity_v = some severity;
      severity_s = try_from s;
      message = (length p3 + 1, length p3 + length message + 1);
      code = (length p2 + 1, length p2 + length code + 1);
    }

module _ (c : Crates) (d : Documented c) where
  step :
      (n p more ty : ℕ) (storage : Bytes) (v : ℕ × ℕ) (found noted : Found)
      → next c storage p ≡ ok (some (ty, v, more))
      → is_complete found ≡ false
      → note_field storage ty v found ≡ ok noted
      → notice_loop c (suc n) storage p found ≡ notice_loop c n storage more noted
  unfolding notice_loop
  step n p more ty storage v found noted e i f = rw (notice_loop, e, i, f) refl

  -- One field, with the fields before it.
  step_field :
      (pre text rest : Bytes) (n ty : ℕ) (found noted : Found)
      → ty ≢ 0
      → NoNul text
      → length pre + length text + 2 < 2 ^ 16
      → is_complete found ≡ false
      → note_field
          (pre ++ (field ty text ++ rest))
          ty
          (length pre + 1, length pre + length text + 1)
          found
        ≡ ok noted
      → notice_loop c (suc n) (pre ++ (field ty text ++ rest)) (length pre) found
        ≡ notice_loop c n ((pre ++ field ty text) ++ rest) (length (pre ++ field ty text)) noted
  step_field pre text rest n ty found noted ne h lt i f =
      let storage = pre ++ (field ty text ++ rest) in
      let v : ℕ × ℕ = (length pre + 1, length pre + length text + 1) in
      let more : length pre + length text + 2 ≡ length (pre ++ field ty text) =
        omega (arith, length-append pre (field ty text), length-append text (0 ∷ [])) in
      step n (length pre) (length pre + length text + 2) ty storage v found noted
        (rw (← append_assoc text (0 ∷ []) rest) at (next-field c d pre text rest ty ne h lt)) i f
      ∙ ap (λ p. notice_loop c n storage p noted) more
      ∙ ap (λ x. notice_loop c n x (length (pre ++ field ty text)) noted)
          (sym (append_assoc pre (field ty text) rest))

  -- With all found, the next field or the end of the fields ends the loop.
  stops :
      (pre rest : Bytes) (b n : ℕ) (found : Found)
      → is_complete found ≡ true
      → length pre + 1 < 2 ^ 16
      → notice_loop c (suc n) (pre ++ b ∷ rest) (length pre) found ≡ ok found
  unfolding notice_loop next
  stops pre rest b n found i lt =
      let storage = pre ++ b ∷ rest in
      let fits =
        le→not_ltb (length storage) (length pre + 1)
          (omega (arith, length-append pre (b ∷ rest))) in
      elim (Bool-cases (b == 0)) [
        | inl last ↦ rw (notice_loop, next, get_at pre b rest, last) refl
        | inr other ↦ elim (Option-cases (c.memchr 0 (drop (length pre + 1) storage))) [
          | inl missing ↦
              rw (notice_loop, next, get_at pre b rest, other, mod-eq_of_lt lt, fits, missing) refl
          | inr (at, found_at) ↦
              rw (notice_loop, next, get_at pre b rest, other, mod-eq_of_lt lt, fits, found_at, i)
                refl
        ]
      ]

  note_localized :
      (pre text rest : Bytes) (found : Found)
      → is_utf8 text ≡ true
      → note_field
          (pre ++ (field b'S' text ++ rest))
          b'S'
          (length pre + 1, length pre + length text + 1)
          found
        ≡ ok (record found { severity_s = try_from text })
  unfolding note_field
  note_localized pre text rest found u = rw (slice-field pre text rest b'S', u) refl

  note_unlocalized :
      (pre text rest : Bytes) (found : Found) (severity : PgSeverity)
      → is_utf8 text ≡ true
      → try_from text ≡ some severity
      → note_field
          (pre ++ (field b'V' text ++ rest))
          b'V'
          (length pre + 1, length pre + length text + 1)
          found
        ≡ ok (record found { severity_v = some severity })
  unfolding note_field
  note_unlocalized pre text rest found severity u e = rw (slice-field pre text rest b'V', u, e) refl

  -- The four fields, one after the other.
  four_fields :
      (s v code message rest : Bytes) (b n : ℕ) (severity : PgSeverity)
      → NoNul s × NoNul v × NoNul code × NoNul message
      → is_utf8 s ≡ true
      → is_utf8 v ≡ true
      → try_from v ≡ some severity
      → length s + length v + length code + length message + 9 < 2 ^ 16
      → notice_loop c
          (suc (suc (suc (suc (suc n)))))
          (field b'S' s ++ (field b'V' v ++ (field b'C' code ++ (field b'M' message ++ b ∷ rest))))
          0
          nothing
        ≡ ok (read_fields s v code message severity)
  unfolding note_field
  four_fields s v code message rest b n severity (hs, hv, hc, hm) us uv e lt =
      let p1 = field b'S' s in
      let p2 = p1 ++ field b'V' v in
      let p3 = p2 ++ field b'C' code in
      let p4 = p3 ++ field b'M' message in
      let r3 = field b'M' message ++ b ∷ rest in
      let r2 = field b'C' code ++ r3 in
      let r1 = field b'V' v ++ r2 in
      let l1 = length-append s (0 ∷ []) in
      let l2 = length-append p1 (field b'V' v) in
      let v2 = length-append v (0 ∷ []) in
      let l3 = length-append p2 (field b'C' code) in
      let v3 = length-append code (0 ∷ []) in
      let l4 = length-append p3 (field b'M' message) in
      let v4 = length-append message (0 ∷ []) in
      let f1 : Found = record nothing { severity_s = try_from s } in
      let f2 : Found = record f1 { severity_v = some severity } in
      let f3 : Found = record f2 { code = (length p2 + 1, length p2 + length code + 1) } in
      let f4 : Found = read_fields s v code message severity in
      step_field [] s r1 (suc (suc (suc (suc n)))) b'S' nothing f1
        (λ (e : b'S' ≡ 0). ground (arith, e)) hs (omega arith) refl
        (note_localized [] s r1 nothing us)
      ∙ step_field p1 v r2 (suc (suc (suc n))) b'V' f1 f2 (λ (e : b'V' ≡ 0). ground (arith, e)) hv
          (omega (arith, l1)) refl (note_unlocalized p1 v r2 f1 severity uv e)
      ∙ step_field p2 code r3 (suc (suc n)) b'C' f2 f3 (λ (e : b'C' ≡ 0). ground (arith, e)) hc
          (omega (arith, l1, l2, v2)) refl refl
      ∙ step_field p3 message (b ∷ rest) (suc n) b'M' f3 f4 (λ (e : b'M' ≡ 0). ground (arith, e)) hm
          (omega (arith, l1, l2, v2, l3, v3)) refl refl
      ∙ stops p4 rest b n f4 (ground arith) (omega (arith, l1, l2, v2, l3, v3, l4, v4))

  -- A response whose first fields are the severities, the code and the message, each without a NUL and
  -- the severities in UTF-8, and which are shorter than 2^16 - 1 bytes together, is read as these: the
  -- severity is the unlocalized one, and the ranges of the code and of the message hold their texts.
  pub decode_notice-field :
      (s v code message rest : Bytes) (b : ℕ) (severity : PgSeverity)
      → NoNul s × NoNul v × NoNul code × NoNul message
      → is_utf8 s ≡ true
      → is_utf8 v ≡ true
      → try_from v ≡ some severity
      → length s + length v + length code + length message + 9 < 2 ^ 16
      → (notice : Notice) × (decode_notice c (
            field b'S' s ++ (field b'V' v ++ (field b'C' code ++ (field b'M' message ++ b ∷ rest))))
          ≡ ok notice)
        × (notice.severity ≡ severity)
        × (slice notice.storage notice.code ≡ ok code)
        × (slice notice.storage notice.message ≡ ok message)
  unfolding decode_notice
  decode_notice-field s v code message rest b severity h us uv e lt =
      let p1 = field b'S' s in
      let p2 = p1 ++ field b'V' v in
      let p3 = p2 ++ field b'C' code in
      let r3 = field b'M' message ++ b ∷ rest in
      let r2 = field b'C' code ++ r3 in
      let storage = p1 ++ (field b'V' v ++ r2) in
      let at2 : storage ≡ p2 ++ r2 = sym (append_assoc p1 (field b'V' v) r2) in
      let at3 : storage ≡ p3 ++ r3 = at2 ∙ sym (append_assoc p2 (field b'C' code) r3) in
      let fuel : length storage ≡ suc (suc (suc (suc (suc (length storage - 5))))) = omega (
        arith,
        length-append s (0 ∷ []),
        length-append p1 (field b'V' v ++ r2),
        length-append (field b'V' v) r2,
        length-append v (0 ∷ []),
        length-append (field b'C' code) r3,
      ) in
      let found = read_fields s v code message severity in
      let loop : notice_loop c (length storage) storage 0 nothing ≡ ok found =
        ap (λ n. notice_loop c n storage 0 nothing) fuel
        ∙ four_fields s v code message rest b (length storage - 5) severity h us uv e lt in
      (
        record {
          storage = storage;
          severity = severity;
          message = found.message;
          code = found.code;
        },
        ap
            (λ o. and_then o (λ f. ok (record {
              storage = storage;
              severity = severity_or_default f;
              message = f.message;
              code = f.code;
            })))
            loop,
        refl,
        ap (λ x. slice x found.code) at2 ∙ slice-field p2 code r3 b'C',
        ap (λ x. slice x found.message) at3 ∙ slice-field p3 message (b ∷ rest) b'M',
      )
