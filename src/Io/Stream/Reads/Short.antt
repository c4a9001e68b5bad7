-- ===== src/Io/Stream/Reads/Short.antt =====
-- `read_raw` of src/io/buf_stream.rs where fewer bytes come than it asks for.
use rbdc.Base.{
  ℕ, ◌+◌, ◌-◌, ◌<◌, ◌≡◌, ap, ◌∙◌, List, [], ◌∷◌, ◌++◌, append_assoc, append-nil, arith, Bytes,
  length, length-append, Error, io, String, err,
}
use native.Mathlib.Nat.{sub-zero}
use rbdc.Io.Stream.{Delivery, arrives, breaks, BufStream, read_loop, read_raw, aborted}
use rbdc.Io.Stream.Reads.{
  Delivers, partial, is_full-pos, loop_takes, read_raw-eq, truncated-partial,
}

abbrev Starves : Bytes → ℕ → Bytes → List Delivery → Type 0
Starves got k bytes socket =
    (e : Error) × (left : List Delivery) × (read_loop (partial got k) socket
      ≡ (err e, partial (got ++ bytes) (k - length bytes), left))

pub starves_at_end :
    (got : Bytes) (k : ℕ) → 0 < k → read_loop (partial got k) [] ≡ (err aborted, partial got k, [])
unfolding read_loop
starves_at_end got k h = rw (is_full-pos got k h)

pub starves_at_break :
    (got : Bytes) (k : ℕ) (m : String) (socket : List Delivery)
    → 0 < k
    → read_loop (partial got k) (breaks m ∷ socket) ≡ (err (io m), partial got k, socket)
unfolding read_loop
starves_at_break got k m socket h = rw (is_full-pos got k h)

nothing_more :
    (got bytes : Bytes) (k : ℕ)
    → bytes ≡ []
    → partial got k ≡ partial (got ++ bytes) (k - length bytes)
nothing_more got bytes k e = rw (e, append-nil, sub-zero)

sub-sub : (k a b : ℕ) → k - a - b ≡ k - (a + b)
sub-sub k a b = omega arith

loop-Starves :
    (got bytes : Bytes) (k : ℕ) (socket : List Delivery)
    → Delivers bytes socket
    → length bytes < k
    → Starves got k bytes socket
loop-Starves got bytes k [] del h = (
  aborted,
  [],
  starves_at_end got k (omega arith)
      ∙ ap (λ b. (err aborted, b, [])) (nothing_more got bytes k del),
)
loop-Starves got bytes k (breaks m ∷ socket) del h = (
  io m,
  socket,
  starves_at_break got k m socket (omega arith)
      ∙ ap (λ b. (err (io m), b, socket)) (nothing_more got bytes k del),
)
loop-Starves got bytes k (arrives bs ∷ socket) (more, e, ne, del) h =
    let len : length bytes ≡ length bs + length more = ap length e ∙ length-append bs more in
    let (x, left, ih) = loop-Starves (got ++ bs) more (k - length bs) socket del (omega arith) in
    (
      x,
      left,
      loop_takes got bs k socket ne (omega arith)
          ∙ ih
          ∙ rw (
            e,
            append_assoc got bs more,
            length-append bs more,
            sub-sub k (length bs) (length more),
          ),
    )

-- If fewer bytes come, the read fails, and what came stays in the read buffer, behind what was
-- there. It fails also where the buffer alone holds `cnt` bytes.
pub read_raw_short :
    (cnt : ℕ) (bytes : Bytes) (s : BufStream)
    → Delivers bytes s.socket
    → length bytes < cnt
    → (e : Error) × (left : List Delivery) × (read_raw cnt s
        ≡ (err e, record s { socket = left; rbuf = s.rbuf ++ bytes }))
read_raw_short cnt bytes s del h =
    let (x, left, e) = loop-Starves s.rbuf bytes cnt s.socket del h in
    (x, left, rw (read_raw-eq cnt s, e, truncated-partial (s.rbuf ++ bytes) (cnt - length bytes)))
