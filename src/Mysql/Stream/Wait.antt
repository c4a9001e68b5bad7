-- ===== src/Mysql/Stream/Wait.antt =====
-- `wait_until_ready` of rbdc-mysql/src/connection/stream.rs: its rounds, and what it leaves.
use rbdc.Base.{
  ℕ, zero, suc, ◌<◌, ◌≡◌, ◌≢◌, refl, Bytes, Error, List, [], ◌∷◌, if◌then◌else◌, arith, Outcome, ok,
  err, panic,
}
use rbdc.Crates.{Crates}
use rbdc.Io.Stream.{arriving, flush}
use rbdc.Mysql.Stream.{
  MySqlStream, Waiting, row, result, Exec, pure, continue, on_stream, row_round, result_round,
  wait_round, wait_loop, wait_until_ready, is_empty,
}
use rbdc.Mysql.Stream.Spends.{Spent, row_round-Spends, result_round-Spends}

module _ (c : Crates) where
  -- The rounds that are left, with either fuel.
  round_alike :
      {A : Type 0} (n total : ℕ) (r : Outcome A × MySqlStream) (f g : Exec (Unit {0}))
      → Spent 4 total r
      → total < suc n
      → ((s : MySqlStream) → arriving s.stream.socket < n → f s ≡ g s)
      → continue r.0 (λ _. f) r.1 ≡ continue r.0 (λ _. g) r.1
  round_alike n total (ok a, s) f g h lt e = e s (omega arith)
  round_alike n total (err x, s) f g h lt e = refl
  round_alike n total (panic, s) f g h lt e = refl

  wait_round_alike :
      (n : ℕ) (ws : List Waiting) (f g : Exec (Unit {0})) (s : MySqlStream)
      → arriving s.stream.socket < suc n
      → ((s : MySqlStream) → arriving s.stream.socket < n → f s ≡ g s)
      → wait_round c ws f s ≡ wait_round c ws g s
  unfolding wait_round
  wait_round_alike n [] f g s lt e = refl
  wait_round_alike n (row ∷ ws) f g s lt e =
      round_alike n (arriving s.stream.socket) (row_round c s) f g (row_round-Spends c s) lt e
  wait_round_alike n (result ∷ ws) f g s lt e =
      round_alike n (arriving s.stream.socket) (result_round c s) f g (result_round-Spends c s) lt e

  -- From one more than the bytes that the socket can still deliver, more fuel changes neither the
  -- outcome of the rounds of a wait nor the state that they leave.
  pub wait_loop_steady :
      (n m : ℕ) (s : MySqlStream)
      → arriving s.stream.socket < n
      → arriving s.stream.socket < m
      → wait_loop c n s ≡ wait_loop c m s
  unfolding wait_loop
  wait_loop_steady zero m s h k = absurd (omega arith)
  wait_loop_steady (suc n) zero s h k = absurd (omega arith)
  wait_loop_steady (suc n) (suc m) s h k =
      wait_round_alike (arriving s.stream.socket) s.waiting (wait_loop c n) (wait_loop c m) s
        (omega arith) (λ t lt. wait_loop_steady n m t (omega arith) (omega arith))

  -- The round that the front of the queue asks for.
  abbrev pub round_of : Waiting → Exec (Unit {0})
  round_of row = row_round c
  round_of result = result_round c

  -- Rounds that come to an end: with nothing left to wait for, or by an error or a panic of one round.
  pub data Runs : MySqlStream → Outcome (Unit {0}) × MySqlStream → Type 0 where
    ready : (s : MySqlStream) → s.waiting ≡ [] → Runs s (ok tt, s)
    fails :
        (s t : MySqlStream) (w : Waiting) (ws : List Waiting) (e : Error)
        → s.waiting ≡ w ∷ ws
        → round_of w s ≡ (err e, t)
        → Runs s (err e, t)
    panics :
        (s t : MySqlStream) (w : Waiting) (ws : List Waiting)
        → s.waiting ≡ w ∷ ws
        → round_of w s ≡ (panic, t)
        → Runs s (panic, t)
    goes_on :
        (s t : MySqlStream) (w : Waiting) (ws : List Waiting) (r : Outcome (Unit {0}) × MySqlStream)
        → s.waiting ≡ w ∷ ws
        → round_of w s ≡ (ok tt, t)
        → Runs t r
        → Runs s r

  -- One round and those behind it, whose fuel is enough for what the socket still delivers.
  round-Runs :
      (n : ℕ) (s : MySqlStream) (w : Waiting) (ws : List Waiting)
      (r : Outcome (Unit {0}) × MySqlStream)
      → s.waiting ≡ w ∷ ws
      → round_of w s ≡ r
      → Spent 4 (arriving s.stream.socket) r
      → arriving s.stream.socket < suc n
      → ((t : MySqlStream) → arriving t.stream.socket < n → Runs t (wait_loop c n t))
      → Runs s (continue r.0 (λ _. wait_loop c n) r.1)
  round-Runs n s w ws (ok u, t) front e h lt later =
      goes_on s t w ws (wait_loop c n t) front e (later t (omega arith))
  round-Runs n s w ws (err x, t) front e h lt later = fails s t w ws x front e
  round-Runs n s w ws (panic, t) front e h lt later = panics s t w ws front e

  rounds-Runs :
      (n : ℕ) (s : MySqlStream) (ws : List Waiting)
      → s.waiting ≡ ws
      → arriving s.stream.socket < suc n
      → ((t : MySqlStream) → arriving t.stream.socket < n → Runs t (wait_loop c n t))
      → Runs s (wait_round c ws (wait_loop c n) s)
  unfolding wait_round
  rounds-Runs n s [] front lt later = ready s front
  rounds-Runs n s (row ∷ ws) front lt later =
      round-Runs n s row ws (row_round c s) front refl (row_round-Spends c s) lt later
  rounds-Runs n s (result ∷ ws) front lt later =
      round-Runs n s result ws (result_round c s) front refl (result_round-Spends c s) lt later

  wait_loop-Runs :
      (n : ℕ) (s : MySqlStream) → arriving s.stream.socket < n → Runs s (wait_loop c n s)
  unfolding wait_loop
  wait_loop-Runs zero s lt = absurd (omega arith)
  wait_loop-Runs (suc n) s lt = rounds-Runs n s s.waiting refl lt (wait_loop-Runs n)

  -- A wait that comes to an end: what is unsent is sent first, and the rounds follow.
  pub data Finishes (s : MySqlStream) : Outcome (Unit {0}) × MySqlStream → Type 0 where
    idle : {r : Outcome (Unit {0}) × MySqlStream} → s.stream.wbuf ≡ [] → Runs s r → Finishes s r
    flushed :
        {r : Outcome (Unit {0}) × MySqlStream} (t : MySqlStream)
        → s.stream.wbuf ≢ []
        → on_stream flush s ≡ (ok tt, t)
        → Runs t r
        → Finishes s r
    unsent :
        (e : Error) (t : MySqlStream)
        → s.stream.wbuf ≢ []
        → on_stream flush s ≡ (err e, t)
        → Finishes s (err e, t)
    unsendable :
        (t : MySqlStream)
        → s.stream.wbuf ≢ []
        → on_stream flush s ≡ (panic, t)
        → Finishes s (panic, t)

  abbrev rounds : MySqlStream → Outcome (Unit {0}) × MySqlStream
  rounds t = wait_loop c (suc (arriving t.stream.socket)) t

  rounds_lem : (t : MySqlStream) → Runs t (rounds t)
  rounds_lem t = wait_loop-Runs (suc (arriving t.stream.socket)) t (omega arith)

  after_flush :
      (s : MySqlStream) (r : Outcome (Unit {0}) × MySqlStream)
      → s.stream.wbuf ≢ []
      → on_stream flush s ≡ r
      → Finishes s (continue r.0 (λ _. rounds) r.1)
  after_flush s (ok u, t) n e = flushed t n e (rounds_lem t)
  after_flush s (err x, t) n e = unsent x t n e
  after_flush s (panic, t) n e = unsendable t n e

  by_buffer :
      (s : MySqlStream) (wbuf : Bytes)
      → s.stream.wbuf ≡ wbuf
      → Finishes s (
          continue
            ((if is_empty c wbuf then pure tt else on_stream flush) s).0
            (λ _. rounds)
            ((if is_empty c wbuf then pure tt else on_stream flush) s).1)
  unfolding is_empty
  by_buffer s [] e = idle e (rounds_lem s)
  by_buffer s (b ∷ bs) e = after_flush s (on_stream flush s) (λ (n : s.stream.wbuf ≡ []). cc) refl

  -- A wait comes to an end, whatever the socket delivers: what is unsent is sent, and then rounds run,
  -- each as the front of the queue asks, until nothing is left to wait for, or a round or the sending
  -- fails. The fuel never decides the outcome.
  pub wait_until_ready-Finishes : (s : MySqlStream) → Finishes s (wait_until_ready c s)
  unfolding wait_until_ready
  wait_until_ready-Finishes s = by_buffer s s.stream.wbuf refl
