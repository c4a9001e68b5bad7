-- ===== src/Io/Tests.antt =====
-- The buffers of src/io on concrete inputs.
use rbdc.Base.{
  ◌≡◌, refl, ◌⊎◌, true, List, [], ◌∷◌, ◌++◌, arith, Bytes, take, drop, Error, protocol, ok, err,
}
use rbdc.Base.Utf8.{is_utf8}
use rbdc.Crates.{reference, reference-Documented}
use rbdc.Io.{get_bytes_nul}
use rbdc.Io.Laws.{NoNul, get_bytes_nul_lem}
use rbdc.Io.Stream.{BufStream, Delivery, arrives, breaks, takes, refuses, read_raw, flush}
use rbdc.Io.Stream.Reads.Short.{read_raw_short}
use rbdc.Io.Stream.Reads.{Delivers, Holds, after_read, read_raw_lem}
use rbdc.Io.Stream.Writes.{flush_lem}

abbrev pieces : BufStream
pieces = record {
  socket = arrives (1 ∷ 2 ∷ 3 ∷ []) ∷ arrives (4 ∷ 5 ∷ []) ∷ breaks "reset" ∷ [];
  sink = takes 2 ∷ refuses "closed" ∷ [];
  sent = [];
  wbuf = 7 ∷ 8 ∷ 9 ∷ [];
  rbuf = [];
}

abbrev five : Bytes
five = 1 ∷ 2 ∷ 3 ∷ 4 ∷ 5 ∷ []

pieces-Delivers : Delivers five pieces.socket
pieces-Delivers = (
  4 ∷ 5 ∷ [],
  refl,
  (λ (e : 1 ∷ 2 ∷ 3 ∷ [] ≡ []). cc),
  ([], refl, (λ (e : 4 ∷ 5 ∷ [] ≡ []). cc), refl),
)

pieces-Holds : Holds five pieces
pieces-Holds = record { clean = refl; delivers = pieces-Delivers }

read_raw_lem_example :
    (left : List Delivery) × (read_raw 4 pieces ≡ (ok (take 4 five), after_read pieces left))
    × Holds (drop 4 five) (after_read pieces left)
read_raw_lem_example = read_raw_lem 4 five pieces pieces-Holds (omega arith)

read_raw_short_example :
    (e : Error) × (left : List Delivery) × (read_raw 6 pieces
      ≡ (err e, record pieces { socket = left; rbuf = [] ++ five }))
read_raw_short_example = read_raw_short 6 five pieces pieces-Delivers (omega arith)

flush_lem_example :
    let (r, s') = flush pieces in
    (s'.wbuf ≡ [])
    × (s'.rbuf ≡ pieces.rbuf)
    × (s'.socket ≡ pieces.socket)
    × (((r ≡ ok tt) × (s'.sent ≡ pieces.sent ++ pieces.wbuf))
        ⊎ ((e : Error) × (gone : Bytes) × (left : Bytes) × (r ≡ err e)
            × (pieces.wbuf ≡ gone ++ left)
            × (s'.sent ≡ pieces.sent ++ gone)))
flush_lem_example = flush_lem pieces

abbrev hi : Bytes
hi = b'h' ∷ b'i' ∷ []

hi-NoNul : NoNul hi
hi-NoNul = ((λ (e : b'h' ≡ 0). ground (arith, e)), ((λ (e : b'i' ≡ 0). ground (arith, e)), tt))

hi_utf8 : is_utf8 hi ≡ true
unfolding is_utf8
hi_utf8 = refl

get_bytes_nul_lem_example :
    (NoNul (hi ++ 0 ∷ 5 ∷ [])
      × (get_bytes_nul reference (hi ++ 0 ∷ 5 ∷ [])
          ≡ err (protocol "expected NUL in byte sequence" [])))
    ⊎ ((xs : Bytes) × (rest : Bytes) × (hi ++ 0 ∷ 5 ∷ [] ≡ xs ++ 0 ∷ rest)
        × NoNul xs
        × (get_bytes_nul reference (hi ++ 0 ∷ 5 ∷ []) ≡ ok (xs, rest)))
get_bytes_nul_lem_example = get_bytes_nul_lem reference reference-Documented (hi ++ 0 ∷ 5 ∷ [])
