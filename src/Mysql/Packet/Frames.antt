-- ===== src/Mysql/Packet/Frames.antt =====
-- The packets that a payload is sent as, described without the buffer, and that the code writes them.
use rbdc.Base.{
  ℕ, zero, suc, ◌+◌, ◌-◌, ◌*◌, ◌/◌, ◌%◌, ◌^◌, ◌≤◌, ◌<◌, ◌≡◌, refl, ap, sym, ◌∙◌, false, inl, inr,
  [], ◌∷◌, ◌++◌, append_assoc, arith, leb, Bool-cases, leb→le, Bytes, length, take, drop, overwrite,
  replicate, length-append, length-take, length-drop, take-append, drop-append, drop_behind,
  take_behind,
}
use mathlib.Core.Path.{ap₂}
use native.Mathlib.Nat.{mod-eq_of_lt, min-eq_right, min-eq_left}
use rbdc.Mysql.Packet.{max_chunk, next_header, write_chunks, encode_with}

-- The header of a packet: three bytes of its length, the least significant first, and its number.
abbrev pub header : ℕ → ℕ → Bytes
header len seq = len % 256 ∷ len / 256 % 256 ∷ len / 256 / 256 % 256 ∷ seq ∷ []

-- The payload in packets: `k` full ones, and one with the remainder, which may be empty.
unfoldable pub frames : ℕ → ℕ → Bytes → Bytes
frames zero seq p = header (length p) seq ++ p
frames (suc k) seq p =
    (header max_chunk seq ++ take max_chunk p) ++ frames k ((seq + 1) % 256) (drop max_chunk p)

unfoldable pub next_seq : ℕ → ℕ → ℕ
next_seq zero seq = (seq + 1) % 256
next_seq (suc k) seq = next_seq k ((seq + 1) % 256)

next_header-header : (len seq : ℕ) → next_header len seq ≡ (header len seq, (seq + 1) % 256)
unfolding next_header
next_header-header len seq = refl

div-eq_zero : (n : ℕ) → n < max_chunk → n / max_chunk ≡ 0
div-eq_zero n h = omega arith

short_lt : (n : ℕ) → leb max_chunk n ≡ false → n < max_chunk
short_lt n h = ground arith

short_le : (n : ℕ) → leb max_chunk n ≡ false → n ≤ max_chunk
short_le n h = omega (arith, short_lt n h)

in_u32 : (n : ℕ) → n < max_chunk → n < 2 ^ 32
in_u32 n h = omega arith

-- One full chunk, with its length computed.
write_chunks-suc :
    (k : ℕ) (rest buf : Bytes) (seq : ℕ)
    → max_chunk ≤ length rest
    → write_chunks (suc k) rest buf seq
      ≡ write_chunks k
          (drop max_chunk rest)
          ((buf ++ header max_chunk seq) ++ take max_chunk rest)
          ((seq + 1) % 256)
unfolding write_chunks
write_chunks-suc k rest buf seq h =
    let full : length (take max_chunk rest) ≡ max_chunk =
      omega (arith, length-take max_chunk rest) in
    rw full

write_chunks-zero :
    (rest buf : Bytes) (seq : ℕ)
    → length rest < max_chunk
    → write_chunks 0 rest buf seq ≡ ((buf ++ header (length rest) seq) ++ rest, (seq + 1) % 256)
unfolding write_chunks
write_chunks-zero rest buf seq h = rw (mod-eq_of_lt (in_u32 (length rest) h))

regroup : (buf h t f : Bytes) → ((buf ++ h) ++ t) ++ f ≡ buf ++ ((h ++ t) ++ f)
regroup buf h t f = simp append_assoc

write_chunks-frames :
    (k : ℕ) (rest buf : Bytes) (seq : ℕ)
    → k * max_chunk ≤ length rest
    → length rest < (k + 1) * max_chunk
    → write_chunks k rest buf seq ≡ (buf ++ frames k seq rest, next_seq k seq)
unfolding frames next_seq
write_chunks-frames zero rest buf seq lo hi =
    write_chunks-zero rest buf seq hi ∙ rw (append_assoc buf (header (length rest) seq) rest)
write_chunks-frames (suc k) rest buf seq lo hi =
    write_chunks-suc k rest buf seq (omega arith)
    ∙ write_chunks-frames k (drop max_chunk rest)
        ((buf ++ header max_chunk seq) ++ take max_chunk rest) ((seq + 1) % 256)
        (omega (arith, length-drop max_chunk rest)) (omega (arith, length-drop max_chunk rest))
    ∙ rw (
        regroup buf (header max_chunk seq) (take max_chunk rest)
          (frames k ((seq + 1) % 256) (drop max_chunk rest)))

-- The parts of the buffer after the header was written into the reserved space.
header_written :
    (buf p h : Bytes)
    → length h ≡ 4
    → overwrite (length buf) h ((buf ++ replicate 4 0) ++ p) ≡ (buf ++ h) ++ p
unfolding overwrite
header_written buf p h e = rw (
  e,
  append_assoc buf (replicate 4 0) p,
  take-append (length buf) buf (replicate 4 0 ++ p) refl,
  drop_behind 4 buf (replicate 4 0 ++ p),
  drop-append 4 (replicate {A = ℕ} 4 0) p refl,
)

reserved_length : (buf p : Bytes) → length ((buf ++ replicate 4 0) ++ p) - length buf - 4 ≡ length p
reserved_length buf p =
    omega (arith, length-append (buf ++ replicate 4 0) p, length-append buf (replicate {A = ℕ} 4 0))

module _ (buf p : Bytes) (seq : ℕ) where
  -- The cut behind the first full chunk.
  cut_take :
      take (length buf + 4 + max_chunk) ((buf ++ header max_chunk seq) ++ p)
      ≡ (buf ++ header max_chunk seq) ++ take max_chunk p
  cut_take =
      ap (λ n. take (n + max_chunk) ((buf ++ header max_chunk seq) ++ p))
        (sym (length-append buf (header max_chunk seq)))
      ∙ take_behind max_chunk (buf ++ header max_chunk seq) p

  cut_drop :
      drop (length buf + 4 + max_chunk) ((buf ++ header max_chunk seq) ++ p) ≡ drop max_chunk p
  cut_drop =
      ap (λ n. drop (n + max_chunk) ((buf ++ header max_chunk seq) ++ p))
        (sym (length-append buf (header max_chunk seq)))
      ∙ drop_behind max_chunk (buf ++ header max_chunk seq) p

  one_frame :
      length p < max_chunk
      → (buf ++ header (length p) seq) ++ p ≡ buf ++ frames (length p / max_chunk) seq p
  unfolding frames
  one_frame h = rw (div-eq_zero (length p) h, append_assoc buf (header (length p) seq) p)

  one_next : length p < max_chunk → (seq + 1) % 256 ≡ next_seq (length p / max_chunk) seq
  unfolding next_seq
  one_next h = rw (div-eq_zero (length p) h)

  more_frames :
      max_chunk ≤ length p
      → write_chunks
          (length (drop max_chunk p) / max_chunk)
          (drop max_chunk p)
          ((buf ++ header max_chunk seq) ++ take max_chunk p)
          ((seq + 1) % 256)
        ≡ (buf ++ frames (length p / max_chunk) seq p, next_seq (length p / max_chunk) seq)
  more_frames h =
      let k : length p / max_chunk ≡ suc (length (drop max_chunk p) / max_chunk) =
        omega (arith, length-drop max_chunk p) in
      sym (write_chunks-suc (length (drop max_chunk p) / max_chunk) p buf seq h)
      ∙ write_chunks-frames (suc (length (drop max_chunk p) / max_chunk)) p buf seq
          (omega (arith, length-drop max_chunk p)) (omega (arith, length-drop max_chunk p))
      ∙ ap (λ n. (buf ++ frames n seq p, next_seq n seq)) (sym k)

-- For a payload `p`, which is encoded at the end of the buffer, the code writes behind the buffer
-- its packets, full ones and one that is not full, which may be empty, and comes to the sequence
-- number behind theirs.
pub encode_with-frames :
    (payload : Bytes → Bytes) (p buf : Bytes) (seq : ℕ)
    → ((b : Bytes) → payload b ≡ b ++ p)
    → encode_with payload buf seq
      ≡ (buf ++ frames (length p / max_chunk) seq p, next_seq (length p / max_chunk) seq)
unfolding encode_with
encode_with-frames payload p buf seq h =
    rw (h (buf ++ replicate 4 0), reserved_length buf p)
      (elim (Bool-cases (leb max_chunk (length p))) [
        | inl long ↦
            rw
              (
                long,
                min-eq_right (leb→le _ _ long),
                header_written buf p (header max_chunk seq) refl,
                cut_drop buf p seq,
                cut_take buf p seq,
              )
              (more_frames buf p seq (leb→le _ _ long))
        | inr short ↦
            rw
              (
                short,
                min-eq_left (short_le _ short),
                header_written buf p (header (length p) seq) refl,
              )
              (ap₂ (λ x y. (x, y)) (one_frame buf p seq (short_lt _ short))
                (one_next buf p seq (short_lt _ short)))
      ])
