-- ===== src/Mysql/Connection/Laws.antt =====
-- The closing of the cached statements of rbdc-mysql/src/connection/mod.rs.
use mathlib.Core.List.{reverse, reverse-cons}
use rbdc.Base.{
  ℕ, zero, suc, ◌<◌, ◌≡◌, refl, ap, sym, ◌∙◌, List, [], ◌∷◌, ◌++◌, Option, none, some, append_assoc,
  le_bytes, Bytes, arith, length, Outcome, ok, err, panic,
}
use rbdc.Cache.{LruCrate, Documented, StatementCache, value, len, remove_lru}
use rbdc.Cache.Entries.{Entry, last, but_last, length-but_last}
use rbdc.Cache.Laws.{statements}
use rbdc.Mysql.Connection.{
  Cached, MySqlConnection, send_close, then_again, close_lru, clear_loop, clear_cached_statements,
}
use rbdc.Io.Stream.{BufStream, flush, write_with}
use rbdc.Mysql.Packet.{encode_with}
use rbdc.Mysql.Packet.Frames.{frames, next_seq, encode_with-frames}
use rbdc.Mysql.Statement.{encode_stmt_close}
use rbdc.Mysql.Stream.{MySqlStream, send_packet}

-- The packet that closes a statement: five bytes, as the first packet of a command.
abbrev pub close_packet : ℕ → Bytes
close_packet id = 5 ∷ 0 ∷ 0 ∷ 0 ∷ 0x19 ∷ le_bytes 4 id

abbrev pub reopened :
    MySqlStream → Outcome (Unit {0}) × BufStream → Outcome (Unit {0}) × Option MySqlStream
reopened s (r, stream) = (r, some (record s { stream = stream; sequence_id = 1 }))

-- The sending of that packet, which panics on a closed connection.
unfoldable pub send_bytes : ℕ → Option MySqlStream → Outcome (Unit {0}) × Option MySqlStream
send_bytes id none = (panic, none)
send_bytes id (some s) =
    reopened s (flush (record s.stream { wbuf = s.stream.wbuf ++ close_packet id }))

close_framed :
    (id : ℕ) (buf : Bytes) → encode_with (encode_stmt_close id) buf 0 ≡ (buf ++ close_packet id, 1)
unfolding frames next_seq encode_stmt_close
close_framed id buf =
    encode_with-frames (encode_stmt_close id) (0x19 ∷ le_bytes 4 id) buf 0
      (λ b. append_assoc b (0x19 ∷ []) (le_bytes 4 id))

send_close-send_bytes : (id : ℕ) (s : Option MySqlStream) → send_close id s ≡ send_bytes id s
unfolding send_close send_bytes send_packet write_with
send_close-send_bytes id none = refl
send_close-send_bytes id (some s) =
    ap
      (λ (w : Bytes × ℕ).
        let r = flush (record s.stream { wbuf = w.0 }) in
        let after : Outcome (Unit {0}) × Option MySqlStream =
          (r.0, some (record s { stream = r.1; sequence_id = w.1 })) in
        after)
      (close_framed id s.stream.wbuf)

-- What is left of statements to close after the first was sent, with the outcome and the stream.
abbrev pub Closed : Type 0 → Type 0
Closed M = Outcome (Unit {0}) × List (Cached M) × Option MySqlStream

module _ {M : Type 0} where
  -- The closing of statements, one after the other, up to the first that cannot be sent.
  abbrev pub and_close :
      (Option MySqlStream → Closed M)
      → List (Cached M)
      → Outcome (Unit {0}) × Option MySqlStream
      → Closed M
  and_close more left (ok u, s) = more s
  and_close more left (err e, s) = (err e, left, s)
  and_close more left (panic, s) = (panic, left, s)

  unfoldable pub close_all : List (Cached M) → Option MySqlStream → Closed M
  close_all [] s = (ok tt, [], s)
  close_all (v ∷ vs) s = and_close (close_all vs) vs (send_bytes v.0 s)

module _ {M : Type 0} (l : LruCrate (Cached M)) where
  -- The statements of a cache, the least recently used first.
  abbrev pub by_disuse : List (Entry (Cached M)) → List (Cached M)
  by_disuse es = reverse (statements l es)

  last-by_disuse :
      (e : Entry (Cached M)) (es : List (Entry (Cached M)))
      → (v : Cached M) × (value l (last (e ∷ es)) ≡ some v)
        × (by_disuse (e ∷ es) ≡ v ∷ by_disuse (but_last (e ∷ es)))
  unfolding last but_last
  last-by_disuse e [] = (e.1, refl, refl)
  last-by_disuse e (f ∷ es) =
      let (v, same, order) = last-by_disuse f es in
      (
        v,
        same,
        reverse-cons e.1 (statements l (f ∷ es))
            ∙ ap (λ vs. vs ++ e.1 ∷ []) order
            ∙ ap (λ vs. v ∷ vs) (sym (reverse-cons e.1 (statements l (but_last (f ∷ es))))),
      )

module _ {M : Type 0} (l : LruCrate (Cached M)) (d : Documented l) where
  abbrev pub entries_of : MySqlConnection l → List (Entry (Cached M))
  entries_of self = d.entries self.cache_statement.inner

  -- The outcome, what the cache holds, and the stream.
  record Agrees (r : Outcome (Unit {0}) × MySqlConnection l) (q : Closed M) : Type 0 where
    pub outcome : r.0 ≡ q.0
    pub left : by_disuse l (entries_of r.1) ≡ q.1
    pub stream : r.1.stream ≡ q.2

  -- What a removal finds in a cache.
  removed :
      (c : StatementCache l)
      → ((remove_lru l c).0 ≡ value l (last (d.entries c.inner)))
        × (d.entries (remove_lru l c).1.inner ≡ but_last (d.entries c.inner))
  unfolding remove_lru
  removed c = (ap (value l) (d.pop_lru_lem c.inner), d.pop_lru_entries c.inner)

  then_again-Agrees :
      (again : MySqlConnection l → Outcome (Unit {0}) × MySqlConnection l)
      (cache : StatementCache l) (vs : List (Cached M))
      (r : Outcome (Unit {0}) × Option MySqlStream)
      → by_disuse l (d.entries cache.inner) ≡ vs
      → ((s : Option MySqlStream)
          → Agrees (again (record { stream = s; cache_statement = cache })) (close_all vs s))
      → Agrees (then_again l again cache r) (and_close (close_all vs) vs r)
  then_again-Agrees again cache vs (ok u, s) e h = h s
  then_again-Agrees again cache vs (err x, s) e h = record {
    outcome = refl;
    left = e;
    stream = refl;
  }
  then_again-Agrees again cache vs (panic, s) e h = record {
    outcome = refl;
    left = e;
    stream = refl;
  }

  -- The loop, by what is removed and the entries.
  turn-Agrees :
      (fuel : ℕ) (es : List (Entry (Cached M))) (s : Option MySqlStream)
      (r : Option (Cached M) × StatementCache l)
      → r.0 ≡ value l (last es)
      → d.entries r.1.inner ≡ but_last es
      → length es < suc fuel
      → ((t : MySqlConnection l)
          → length (entries_of t) < fuel
          → Agrees (clear_loop l fuel t) (close_all (by_disuse l (entries_of t)) t.stream))
      → Agrees (close_lru l (clear_loop l fuel) s r) (close_all (by_disuse l es) s)
  unfolding close_all last but_last
  turn-Agrees fuel [] s (none, cache) item rest lt h = record {
    outcome = refl;
    left = ap (by_disuse l) rest;
    stream = refl;
  }
  turn-Agrees fuel [] s (some v, cache) item rest lt h = cc
  turn-Agrees fuel (e ∷ es) s (none, cache) item rest lt h = cc (last-by_disuse l e es).1
  turn-Agrees fuel (e ∷ es) s (some w, cache) item rest lt h =
      let (v, same, order) = last-by_disuse l e es in
      let this : w ≡ v = cc in
      let vs = by_disuse l (but_last (e ∷ es)) in
      rw (order, this, ← send_close-send_bytes v.0 s)
        (then_again-Agrees (clear_loop l fuel) cache vs (send_close v.0 s) (ap (by_disuse l) rest)
          (λ t. rw (ap (by_disuse l) rest) at (
            h (record { stream = t; cache_statement = cache })
              (rw rest (omega (arith, length-but_last (e ∷ es)))))))

  clear_loop-Agrees :
      (fuel : ℕ) (self : MySqlConnection l)
      → length (entries_of self) < fuel
      → Agrees (clear_loop l fuel self) (close_all (by_disuse l (entries_of self)) self.stream)
  unfolding clear_loop
  clear_loop-Agrees zero self lt = absurd (omega arith)
  clear_loop-Agrees (suc fuel) self lt =
      let (item, rest) = removed self.cache_statement in
      turn-Agrees fuel (entries_of self) self.stream (remove_lru l self.cache_statement) item rest
        lt (clear_loop-Agrees fuel)

  -- The clearing of the cache comes to an end, and closes the cached statements, the least recently
  -- used first, each by the packet with its number, up to the first that cannot be sent: its outcome and stream are those of these sends,
  -- and the cache is left with the statements behind the last one tried, so that it is empty if all
  -- were sent. On a closed connection it panics unless the cache is empty.
  pub clear_cached_statements-close_all :
      (self : MySqlConnection l)
      → ((clear_cached_statements l self).0
          ≡ (close_all (by_disuse l (entries_of self)) self.stream).0)
        × (by_disuse l (entries_of (clear_cached_statements l self).1)
            ≡ (close_all (by_disuse l (entries_of self)) self.stream).1)
        × ((clear_cached_statements l self).1.stream
            ≡ (close_all (by_disuse l (entries_of self)) self.stream).2)
  unfolding clear_cached_statements
  clear_cached_statements-close_all self =
      let size = d.len_lem self.cache_statement.inner in
      let h = clear_loop-Agrees (suc (len l self.cache_statement)) self (omega arith) in
      (h.outcome, h.left, h.stream)
