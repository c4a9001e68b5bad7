-- ===== src/Io/Stream.antt =====
-- src/io/buf_stream.rs and src/io/write_and_flush.rs: a stream with a write buffer and a read buffer.
-- The socket is outside the program: what it delivers and accepts is a list of events.
pub mod Reads
pub mod Writes
use rbdc.Base.{
  ℕ, ◌+◌, ◌-◌, Bool, List, [], ◌∷◌, ◌++◌, ltb, leb, ◌==◌, if◌then◌else◌, Bytes, length, take, drop,
  overwrite, replicate, String, Error, io, Outcome, ok, err, panic,
}

-- One `read` of the socket: the bytes that are there (none at the end of the stream), or an error.
-- A future that is dropped while it waits leaves the same buffers as an error.
pub data Delivery : Type 0 where
  arrives : Bytes → Delivery
  breaks : String → Delivery

-- One `poll_write` and the last `poll_flush`: the number of bytes taken, or an error.
pub data Acceptance : Type 0 where
  takes : ℕ → Acceptance
  refuses : String → Acceptance

-- The bytes that the socket can still deliver, which bound the packets that can come.
abbrev pub arriving : List Delivery → ℕ
arriving [] = 0
arriving (breaks m ∷ socket) = arriving socket
arriving (arrives bs ∷ socket) = length bs + arriving socket

pub record BufStream : Type 0 where
  -- what the socket will deliver, what it will accept, and the bytes that went out
  pub socket : List Delivery
  pub sink : List Acceptance
  pub sent : Bytes
  pub wbuf : Bytes
  pub rbuf : Bytes

pub record BufTruncator : Type 0 where
  pub buf : Bytes
  pub filled_len : ℕ

abbrev truncator : Bytes → BufTruncator
truncator buf = record { buf = buf; filled_len = length buf }

reserve : ℕ → BufTruncator → BufTruncator
reserve space b = record b { buf = take b.filled_len b.buf ++ replicate space 0 }

is_full : BufTruncator → Bool
is_full b = leb (length b.buf) b.filled_len

abbrev space_of : BufTruncator → ℕ
space_of b = length b.buf - b.filled_len

-- The socket writes `n` bytes into the free part.
filled : ℕ → Bytes → BufTruncator → BufTruncator
filled n bs b = record {
  buf = overwrite b.filled_len (take n bs) b.buf;
  filled_len = b.filled_len + n;
}

-- `Drop`
truncated : BufTruncator → Bytes
truncated b = take b.filled_len b.buf

abbrev pub aborted : Error
aborted = io "ConnectionAborted"

abbrev pub Read : Type 0
Read = Outcome (Unit {0}) × BufTruncator × List Delivery

-- `while !buf.is_full() { … }`. A delivery that is longer than the free space fills the buffer, so
-- that the next test of the loop ends it; what was not taken stays in the socket.
pub read_loop : BufTruncator → List Delivery → Read
read_loop b [] = if is_full b then (ok tt, b, []) else (err aborted, b, [])
read_loop b (breaks m ∷ socket) =
    if is_full b then (ok tt, b, breaks m ∷ socket) else (err (io m), b, socket)
read_loop b (arrives bs ∷ socket) =
    let rest = read_loop (filled (length bs) bs b) socket in
    if is_full b
    then (ok tt, b, arrives bs ∷ socket)
    else if length bs == 0
    then (err aborted, b, socket)
    else if ltb (space_of b) (length bs)
    then (ok tt, filled (space_of b) bs b, arrives (drop (space_of b) bs) ∷ socket)
    else rest

abbrev done : BufStream → Read → Outcome (Unit {0}) × BufStream
done s (r, b, socket) = (r, record s { socket = socket; rbuf = truncated b })

read_raw_into : ℕ → BufStream → Outcome (Unit {0}) × BufStream
unfolding read_loop reserve truncated is_full filled
read_raw_into cnt s = done s (read_loop (reserve cnt (truncator s.rbuf)) s.socket)

abbrev split : ℕ → Outcome (Unit {0}) × BufStream → Outcome Bytes × BufStream
split cnt (ok u, s) = (ok (take cnt s.rbuf), record s { rbuf = drop cnt s.rbuf })
split cnt (err e, s) = (err e, s)
split cnt (panic, s) = (panic, s)

-- `read_raw`, which `read` and `read_with` call before they decode
unfoldable pub read_raw : ℕ → BufStream → Outcome Bytes × BufStream
unfolding read_raw_into
read_raw cnt s = split cnt (read_raw_into cnt s)

-- `write_with`: the value is encoded at the end of the write buffer.
unfoldable pub write_with : (Bytes → Bytes) → BufStream → BufStream
write_with encode s = record s { wbuf = encode s.wbuf }

abbrev Written : Type 0
Written = Outcome (Unit {0}) × Bytes × List Acceptance

abbrev finish : Bytes → List Acceptance → Written
finish sent [] = (ok tt, sent, [])
finish sent (takes n ∷ sink) = (ok tt, sent, sink)
finish sent (refuses m ∷ sink) = (err (io m), sent, sink)

-- The loop of `poll`, then `poll_flush`: the bytes are handed over until none is left. A socket
-- whose list has ended refuses bytes.
write_loop : Bytes → Bytes → List Acceptance → Written
write_loop sent [] sink = finish sent sink
write_loop sent (b ∷ bs) [] = (err (io "BrokenPipe"), sent, [])
write_loop sent (b ∷ bs) (refuses m ∷ sink) = (err (io m), sent, sink)
write_loop sent (b ∷ bs) (takes n ∷ sink) =
    write_loop (sent ++ take n (b ∷ bs)) (drop n (b ∷ bs)) sink

-- `Drop` clears the buffer on every path.
abbrev flushed : BufStream → Written → Outcome (Unit {0}) × BufStream
flushed s (r, sent, sink) = (r, record s { sent = sent; sink = sink; wbuf = [] })

unfoldable pub flush : BufStream → Outcome (Unit {0}) × BufStream
unfolding write_loop
flush s = flushed s (write_loop s.sent s.wbuf s.sink)
