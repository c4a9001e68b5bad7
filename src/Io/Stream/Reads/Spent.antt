-- ===== src/Io/Stream/Reads/Spent.antt =====
-- How many bytes a read of src/io/buf_stream.rs takes from the socket.
use rbdc.Base.{
  ap, length-append, ℕ, zero, suc, ◌+◌, ◌-◌, ◌≤◌, ◌≡◌, List, [], ◌∷◌, ◌++◌, Bytes, length,
  length-drop, arith, ltb, Bool-cases, inl, inr, ltb→lt, subst, Outcome, ok, err, panic,
}
use rbdc.Io.Stream.{
  Delivery, arrives, breaks, BufStream, read_loop, read_raw, arriving, Read, split, done, aborted,
}
use rbdc.Io.Stream.Reads.Short.{starves_at_end, starves_at_break}
use rbdc.Io.Stream.Reads.{
  Delivers, partial, loop_stops, loop_takes, loop_cuts, read_raw-eq, is_full-pos,
}

abbrev Spent : ℕ → ℕ → Read → Type 0
Spent total k (ok u, b, left) = arriving left + k ≡ total
Spent total k (err e, b, left) = Unit
Spent total k (panic, b, left) = Unit

Spent-add : (n total k : ℕ) (r : Read) → Spent total k r → Spent (n + total) (n + k) r
Spent-add n total k (ok u, b, left) h = omega arith
Spent-add n total k (err e, b, left) h = tt
Spent-add n total k (panic, b, left) h = tt

loop_at_empty :
    (got : Bytes) (k : ℕ) (socket : List Delivery)
    → read_loop (partial got (suc k)) (arrives [] ∷ socket)
      ≡ (err aborted, partial got (suc k), socket)
unfolding read_loop
loop_at_empty got k socket = rw (is_full-pos got (suc k) (omega arith))

-- The loop behind a delivery that fits.
abbrev behind : List Delivery → Bytes → ℕ → Bytes → ℕ → Read
behind socket got b bs k = read_loop (partial (got ++ b ∷ bs) (suc k - length (b ∷ bs))) socket

-- A loop that fills the buffer takes as many bytes as were free.
loop-Spent :
    (socket : List Delivery) (got : Bytes) (k : ℕ)
    → Spent (arriving socket) k (read_loop (partial got k) socket)
loop-Spent socket got zero = rw (loop_stops got socket) (omega arith)
loop-Spent [] got (suc k) = rw (starves_at_end got (suc k) (omega arith)) tt
loop-Spent (breaks m ∷ socket) got (suc k) =
    rw (starves_at_break got (suc k) m socket (omega arith)) tt
loop-Spent (arrives [] ∷ socket) got (suc k) = rw (loop_at_empty got k socket) tt
loop-Spent (arrives (b ∷ bs) ∷ socket) got (suc k) =
    elim (Bool-cases (ltb (suc k) (length (b ∷ bs)))) [
      | inl long ↦
          rw (loop_cuts got (b ∷ bs) (suc k) socket (omega arith) (ltb→lt _ _ long))
            (omega (arith, length-drop (suc k) (b ∷ bs), ltb→lt _ _ long))
      | inr short ↦
          let le : length (b ∷ bs) ≤ suc k = ground arith in
          let whole : length (b ∷ bs) + (suc k - length (b ∷ bs)) ≡ suc k = omega arith in
          rw (loop_takes got (b ∷ bs) (suc k) socket (λ (e : b ∷ bs ≡ []). cc) le) (
            subst (λ n. Spent (arriving (arrives (b ∷ bs) ∷ socket)) n (behind socket got b bs k))
              whole
              (Spent-add (length (b ∷ bs)) (arriving socket) (suc k - length (b ∷ bs))
                (behind socket got b bs k)
                (loop-Spent socket (got ++ b ∷ bs) (suc k - length (b ∷ bs)))))
    ]

abbrev pub Took : ℕ → ℕ → Outcome Bytes × BufStream → Type 0
Took total cnt (ok bs, s) = arriving s.socket + cnt ≡ total
Took total cnt (err e, s) = Unit
Took total cnt (panic, s) = Unit

split-Took :
    (cnt total : ℕ) (s : BufStream) (r : Read)
    → Spent total cnt r
    → Took total cnt (split cnt (done s r))
split-Took cnt total s (ok u, b, left) h = h
split-Took cnt total s (err e, b, left) h = tt
split-Took cnt total s (panic, b, left) h = tt

-- A read that succeeds takes `cnt` bytes from the socket.
pub read_raw-Took : (cnt : ℕ) (s : BufStream) → Took (arriving s.socket) cnt (read_raw cnt s)
read_raw-Took cnt s = rw (read_raw-eq cnt s) (
    split-Took cnt (arriving s.socket) s (read_loop (partial s.rbuf cnt) s.socket)
      (loop-Spent s.socket s.rbuf cnt))

-- What the socket delivers it can deliver.
pub arriving-Delivers :
    (bytes : Bytes) (socket : List Delivery)
    → Delivers bytes socket
    → length bytes ≤ arriving socket
arriving-Delivers bytes [] h = omega (arith, ap length h)
arriving-Delivers bytes (breaks m ∷ socket) h = omega (arith, ap length h)
arriving-Delivers bytes (arrives bs ∷ socket) (more, e, ne, h) =
    omega (arith, ap length e, length-append bs more, arriving-Delivers more socket h)
