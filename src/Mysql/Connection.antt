-- ===== src/Mysql/Connection.antt =====
-- rbdc-mysql/src/connection/mod.rs: the connection with its cache of prepared statements, and the closing of
-- these.
pub mod Laws
use rbdc.Base.{
  ℕ, zero, suc, Bool, not, Option, none, some, Bytes, length, Outcome, ok, err, panic, io, [], ◌∷◌,
}
use rbdc.Cache.{LruCrate, StatementCache, len, remove_lru}
use rbdc.Mysql.Statement.{encode_stmt_close}
use rbdc.Mysql.Stream.{MySqlStream, send_packet}

-- The metadata of a statement, which its closing does not read, is a parameter.
abbrev pub Cached : Type 0 → Type 0
Cached M = ℕ × M

-- `DropBox<MySqlStream>` is none once the connection is closed. The options, which the operations here do
-- not read, are left out.
module _ {M : Type 0} (l : LruCrate (Cached M)) where
  pub record MySqlConnection : Type 0 where
    pub stream : Option MySqlStream
    pub cache_statement : StatementCache l

-- `self.stream.send_packet(StmtClose { statement })`
unfoldable pub send_close : ℕ → Option MySqlStream → Outcome (Unit {0}) × Option MySqlStream
send_close statement none = (panic, none)
send_close statement (some s) =
    let (r, t) = send_packet (encode_stmt_close statement) s in (r, some t)

module _ {M : Type 0} (l : LruCrate (Cached M)) where
  pub cached_statements_size : MySqlConnection l → ℕ
  cached_statements_size self = len l self.cache_statement

  abbrev pub Turn : Type 0
  Turn = MySqlConnection l → Outcome (Unit {0}) × MySqlConnection l

  -- `?`, and the next turn of the loop.
  abbrev pub then_again :
      Turn
      → StatementCache l
      → Outcome (Unit {0}) × Option MySqlStream
      → Outcome (Unit {0}) × MySqlConnection l
  then_again again cache (ok u, s) = again (record { stream = s; cache_statement = cache })
  then_again again cache (err e, s) = (err e, record { stream = s; cache_statement = cache })
  then_again again cache (panic, s) = (panic, record { stream = s; cache_statement = cache })

  -- One turn, with what was removed from the cache.
  abbrev pub close_lru :
      Turn
      → Option MySqlStream
      → Option (Cached M) × StatementCache l
      → Outcome (Unit {0}) × MySqlConnection l
  close_lru again s (none, cache) = (ok tt, record { stream = s; cache_statement = cache })
  close_lru again s (some (statement_id, _), cache) =
      then_again again cache (send_close statement_id s)

  -- `while let Some((statement_id, _)) = self.cache_statement.remove_lru()`
  unfoldable pub clear_loop : ℕ → Turn
  clear_loop zero self = (err (io "fuel"), self)
  clear_loop (suc fuel) self =
      close_lru (clear_loop fuel) self.stream (remove_lru l self.cache_statement)

  unfoldable pub clear_cached_statements : Turn
  unfolding clear_loop
  clear_cached_statements self = clear_loop (suc (len l self.cache_statement)) self
