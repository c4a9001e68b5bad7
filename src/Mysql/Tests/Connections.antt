-- ===== src/Mysql/Tests/Connections.antt =====
-- The cached statements of a connection on a concrete input.
use rbdc.Base.{ℕ, ◌≡◌, List, [], ◌∷◌, some}
use rbdc.Cache.Reference.{list_lru, list_lru-Documented}
use rbdc.Io.Stream.{Acceptance, takes, refuses}
use rbdc.Mysql.Connection.{Cached, MySqlConnection, clear_cached_statements}
use rbdc.Mysql.Connection.Laws.{close_all, by_disuse, entries_of, clear_cached_statements-close_all}
use rbdc.Mysql.Tests.{connection}

-- A socket that accepts the close of one statement.
abbrev sink : List Acceptance
sink = takes 9 ∷ takes 0 ∷ refuses "closed" ∷ []

-- A connection with two cached statements.
abbrev prepared : MySqlConnection (list_lru {T = Cached ℕ})
prepared = record {
  stream = some (record connection { stream = record connection.stream { sink = sink } });
  cache_statement = record { inner = (4, (b'a' ∷ [], (1, 0)) ∷ (b'b' ∷ [], (2, 0)) ∷ []) };
}

abbrev cached : List (Cached ℕ)
cached = (2, 0) ∷ (1, 0) ∷ []

clear_cached_statements-close_all_example :
    ((clear_cached_statements list_lru prepared).0 ≡ (close_all cached prepared.stream).0)
    × (by_disuse list_lru
          (entries_of list_lru list_lru-Documented (clear_cached_statements list_lru prepared).1)
        ≡ (close_all cached prepared.stream).1)
    × ((clear_cached_statements list_lru prepared).1.stream ≡ (close_all cached prepared.stream).2)
unfolding list_lru-Documented
clear_cached_statements-close_all_example =
    clear_cached_statements-close_all list_lru list_lru-Documented prepared
