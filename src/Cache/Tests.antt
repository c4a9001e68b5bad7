-- ===== src/Cache/Tests.antt =====
-- The cache of prepared statements over a list.
use mathlib.Core.List.{Perm}
use rbdc.Base.{ℕ, ◌≡◌, refl, [], ◌∷◌, ◌++◌, arith, Bytes}
use rbdc.Cache.{StatementCache, capacity, insert}
use rbdc.Cache.Entries.{has, Distinct}
use rbdc.Cache.Reference.{list_lru, list_lru-Documented}
use rbdc.Cache.Laws.{inserted, IsCache, entries_of, insert_all, held, insert-inserted, insert_kept}

abbrev first_sql : Bytes
first_sql = b'a' ∷ []

abbrev second_sql : Bytes
second_sql = b'b' ∷ []

-- A cache for one statement, which it holds.
abbrev full_cache : StatementCache (list_lru {T = ℕ})
full_cache = record { inner = (1, (first_sql, 10) ∷ []) }

full_cache-IsCache : IsCache list_lru list_lru-Documented full_cache
unfolding Distinct has list_lru-Documented
full_cache-IsCache = record { distinct = (refl, tt); bound = omega arith; positive = omega arith }

insert-inserted_example :
    ((insert list_lru second_sql 20 full_cache).0
      ≡ (inserted list_lru second_sql 20 (capacity list_lru full_cache) ((first_sql, 10) ∷ [])).0)
    × (entries_of list_lru list_lru-Documented (insert list_lru second_sql 20 full_cache).1
        ≡ (inserted list_lru second_sql 20 (capacity list_lru full_cache) ((first_sql, 10) ∷ [])).1)
    × (capacity list_lru (insert list_lru second_sql 20 full_cache).1
        ≡ capacity list_lru full_cache)
unfolding list_lru-Documented
insert-inserted_example =
    insert-inserted list_lru list_lru-Documented second_sql 20 full_cache full_cache-IsCache

insert_kept_example :
    Perm
      ((insert_all list_lru ((second_sql, 20) ∷ (second_sql, 30) ∷ []) full_cache).0
        ++ held list_lru list_lru-Documented
            (insert_all list_lru ((second_sql, 20) ∷ (second_sql, 30) ∷ []) full_cache).1)
      (20 ∷ 30 ∷ 10 ∷ [])
    × IsCache list_lru list_lru-Documented
        (insert_all list_lru ((second_sql, 20) ∷ (second_sql, 30) ∷ []) full_cache).1
unfolding list_lru-Documented
insert_kept_example =
    insert_kept list_lru list_lru-Documented ((second_sql, 20) ∷ (second_sql, 30) ∷ []) full_cache
      full_cache-IsCache
