-- ===== src/Io/Stream/Writes.antt =====
-- `flush` of src/io/write_and_flush.rs.
use rbdc.Base.{
  ℕ, ◌≡◌, refl, ap, sym, ◌∙◌, ◌⊎◌, inl, inr, List, [], ◌∷◌, ◌++◌, append_assoc, append-nil, Bytes,
  take, drop, take-append-drop, Error, ok, err, io,
}
use rbdc.Io.Stream.{BufStream, Acceptance, takes, refuses, write_loop, flush, Written, finish}

-- What a write comes to: success with all bytes out, or an error with some first part out.
abbrev Outgoing : Bytes → Bytes → Written → Type 0
Outgoing sent bytes (r, out, sink) =
    ((r ≡ ok tt) × (out ≡ sent ++ bytes))
    ⊎ ((e : Error) × (gone : Bytes) × (left : Bytes) × (r ≡ err e)
        × (bytes ≡ gone ++ left)
        × (out ≡ sent ++ gone))

finish-Outgoing : (sent : Bytes) (sink : List Acceptance) → Outgoing sent [] (finish sent sink)
finish-Outgoing sent [] = inl (refl, sym (append-nil sent))
finish-Outgoing sent (takes n ∷ sink) = inl (refl, sym (append-nil sent))
finish-Outgoing sent (refuses m ∷ sink) = inr (io m, [], [], refl, refl, sym (append-nil sent))

Outgoing-step :
    (sent bytes : Bytes) (n : ℕ) (w : Written)
    → Outgoing (sent ++ take n bytes) (drop n bytes) w
    → Outgoing sent bytes w
Outgoing-step sent bytes n (r, out, sink) (inl (e, o)) =
    inl (e, o ∙ rw (append_assoc sent (take n bytes) (drop n bytes), take-append-drop n bytes))
Outgoing-step sent bytes n (r, out, sink) (inr (x, gone, left, e, b, o)) = inr (
  x,
  take n bytes ++ gone,
  left,
  e,
  sym (take-append-drop n bytes)
      ∙ ap (◌++◌ (take n bytes)) b
      ∙ sym (append_assoc (take n bytes) gone left),
  o ∙ append_assoc sent (take n bytes) gone,
)

write_loop-Outgoing :
    (sent bytes : Bytes) (sink : List Acceptance) → Outgoing sent bytes (write_loop sent bytes sink)
unfolding write_loop
write_loop-Outgoing sent [] sink = finish-Outgoing sent sink
write_loop-Outgoing sent (b ∷ bs) [] =
    inr (io "BrokenPipe", [], b ∷ bs, refl, refl, sym (append-nil sent))
write_loop-Outgoing sent (b ∷ bs) (refuses m ∷ sink) =
    inr (io m, [], b ∷ bs, refl, refl, sym (append-nil sent))
write_loop-Outgoing sent (b ∷ bs) (takes n ∷ sink) =
    Outgoing-step sent (b ∷ bs) n (write_loop (sent ++ take n (b ∷ bs)) (drop n (b ∷ bs)) sink)
      (write_loop-Outgoing (sent ++ take n (b ∷ bs)) (drop n (b ∷ bs)) sink)

-- After a flush the write buffer is empty, also if it failed. A flush that succeeds has sent the
-- whole buffer once and in order behind what was sent before. One that fails has sent a first part
-- of it. The read side is not touched.
pub flush_lem :
    (s : BufStream)
    → let (r, s') = flush s in
      (s'.wbuf ≡ [])
      × (s'.rbuf ≡ s.rbuf)
      × (s'.socket ≡ s.socket)
      × (((r ≡ ok tt) × (s'.sent ≡ s.sent ++ s.wbuf))
          ⊎ ((e : Error) × (gone : Bytes) × (left : Bytes) × (r ≡ err e)
              × (s.wbuf ≡ gone ++ left)
              × (s'.sent ≡ s.sent ++ gone)))
unfolding flush
flush_lem s = (refl, refl, refl, write_loop-Outgoing s.sent s.wbuf s.sink)
