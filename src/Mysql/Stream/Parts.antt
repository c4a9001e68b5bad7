-- ===== src/Mysql/Stream/Parts.antt =====
-- `recv_packet_part` and `recv_packet` of rbdc-mysql/src/connection/stream.rs: the loop over the parts of a
-- long packet.
use rbdc.Base.{
  ℕ, zero, suc, ◌≤◌, ◌<◌, ◌≡◌, ◌≢◌, refl, ◌++◌, if◌then◌else◌, ltb, ◌==◌, ==_iff, Bool-cases, inl,
  inr, arith, Bytes, length, Error, Outcome, ok, err, panic,
}
use rbdc.Crates.{Crates}
use rbdc.Io.Stream.{arriving}
use rbdc.Mysql.Packet.{max_chunk}
use rbdc.Mysql.Stream.{MySqlStream, pure, continue, recv_part, recv_more, recv_payload}
use rbdc.Mysql.Stream.Spends.{Spent, recv_part-Spends}

module _ (c : Crates) where
  -- Parts that come to an end, behind a payload: the last is one that is not full.
  pub data Joins : Bytes → MySqlStream → Outcome Bytes × MySqlStream → Type 0 where
    last :
        (payload part : Bytes) (s t : MySqlStream)
        → recv_part c s ≡ (ok part, t)
        → length part ≢ max_chunk
        → Joins payload s (ok (payload ++ part), t)
    more :
        (payload part : Bytes) (s t : MySqlStream) (r : Outcome Bytes × MySqlStream)
        → recv_part c s ≡ (ok part, t)
        → length part ≡ max_chunk
        → Joins (payload ++ part) t r
        → Joins payload s r
    broken :
        (payload : Bytes) (e : Error) (s t : MySqlStream)
        → recv_part c s ≡ (err e, t)
        → Joins payload s (err e, t)
    panicked :
        (payload : Bytes) (s t : MySqlStream)
        → recv_part c s ≡ (panic, t)
        → Joins payload s (panic, t)

  -- The same from the first part on, which is alone if it is shorter than a full one.
  pub data Receives (s : MySqlStream) : Outcome Bytes × MySqlStream → Type 0 where
    alone :
        (part : Bytes) (t : MySqlStream)
        → recv_part c s ≡ (ok part, t)
        → length part < max_chunk
        → Receives s (ok part, t)
    joined :
        {r : Outcome Bytes × MySqlStream} (part : Bytes) (t : MySqlStream)
        → recv_part c s ≡ (ok part, t)
        → max_chunk ≤ length part
        → Joins part t r
        → Receives s r
    fails : (e : Error) (t : MySqlStream) → recv_part c s ≡ (err e, t) → Receives s (err e, t)
    panics : (t : MySqlStream) → recv_part c s ≡ (panic, t) → Receives s (panic, t)

  no_more :
      (n last_read : ℕ) (payload : Bytes) (s : MySqlStream)
      → last_read ≢ max_chunk
      → recv_more c (suc n) last_read payload s ≡ (ok payload, s)
  unfolding recv_more
  no_more n last_read payload s h = elim (Bool-cases (last_read == max_chunk)) [
    | inl full ↦ absurd (h ((==_iff last_read max_chunk).0 full))
    | inr short ↦ rw short refl
  ]

  -- One part and those behind it.
  part-Joins :
      (n : ℕ) (payload : Bytes) (s : MySqlStream) (r : Outcome Bytes × MySqlStream)
      → recv_part c s ≡ r
      → Spent 4 (arriving s.stream.socket) r
      → arriving s.stream.socket < suc n
      → ((more : Bytes) (t : MySqlStream)
          → arriving t.stream.socket < n
          → Joins more t (recv_more c (suc n) max_chunk more t))
      → Joins payload s
          (continue r.0 (λ part. recv_more c (suc n) (length part) (payload ++ part)) r.1)
  part-Joins n payload s (ok part, t) e h lt later = elim (Bool-cases (length part == max_chunk)) [
    | inl full ↦
        let same : length part ≡ max_chunk = (==_iff (length part) max_chunk).0 full in
        more payload part s t _ e same (rw same (later (payload ++ part) t (omega arith)))
    | inr short ↦
        let other : length part ≢ max_chunk =
          λ (q : length part ≡ max_chunk). ground (arith, short, q) in
        rw (no_more n (length part) (payload ++ part) t other) (last payload part s t e other)
  ]
  part-Joins n payload s (err x, t) e h lt later = broken payload x s t e
  part-Joins n payload s (panic, t) e h lt later = panicked payload s t e

  recv_more-Joins :
      (n : ℕ) (payload : Bytes) (s : MySqlStream)
      → arriving s.stream.socket < n
      → Joins payload s (recv_more c (suc n) max_chunk payload s)
  unfolding recv_more
  recv_more-Joins zero payload s lt = absurd (omega arith)
  recv_more-Joins (suc n) payload s lt =
      part-Joins n payload s (recv_part c s) refl (recv_part-Spends c s) lt (recv_more-Joins n)

  first-Receives :
      (s : MySqlStream) (r : Outcome Bytes × MySqlStream)
      → recv_part c s ≡ r
      → Receives s (
          continue r.0
            (λ payload. if ltb (length payload) max_chunk then pure payload else λ t.
              recv_more c (suc (suc (arriving t.stream.socket))) max_chunk payload t)
            r.1)
  first-Receives s (ok part, t) e = elim (Bool-cases (ltb (length part) max_chunk)) [
    | inl short ↦ rw short (alone part t e (ground (arith, short)))
    | inr full ↦ rw full (
        joined part t e (ground (arith, full))
          (recv_more-Joins (suc (arriving t.stream.socket)) part t (omega arith)))
  ]
  first-Receives s (err x, t) e = fails x t e
  first-Receives s (panic, t) e = panics t e

  -- The parts of a packet come to an end, whatever the socket delivers: they are joined up to the first
  -- that is not full, or the outcome is that of the first part that cannot be read. The fuel never
  -- decides the outcome.
  pub recv_payload-Receives : (s : MySqlStream) → Receives s (recv_payload c s)
  unfolding recv_payload
  recv_payload-Receives s = first-Receives s (recv_part c s) refl
