-- ===== src/Cache.antt =====
-- src/common/statement_cache.rs: the cache of prepared statements over the crate lru, whose operations
-- are a parameter. `Documented` is what its documentation says of them: a cache has its entries in the
-- order of their use, the most recent first.
pub mod Entries
pub mod Laws
pub mod Reference
mod Tests
use rbdc.Base.{
  ℕ, Bool, true, false, ◌&&◌, not, List, [], ◌∷◌, Option, none, some, ◌==◌, ltb, if◌then◌else◌,
  Bytes, length, ◌≡◌, refl, eq_bytes,
}
use rbdc.Cache.Entries.{Entry, has, find, erase, last, but_last}
use mathlib.Core.Option

-- `lru::LruCache<String, T>`
pub record LruCrate (T : Type 0) : Type 1 where
  pub Lru : Type 0
  -- the value, and the cache with its entry moved to the front
  pub get_mut : Bytes → Lru → Option T × Lru
  pub pop_entry : Bytes → Lru → Option (Entry T) × Lru
  pub pop_lru : Lru → Option (Entry T) × Lru
  pub put : Bytes → T → Lru → Lru
  pub contains : Bytes → Lru → Bool
  pub len : Lru → ℕ
  pub cap : Lru → ℕ
  pub clear : Lru → Lru

module _ {T : Type 0} where
  -- The entries after a `put`: those of the same key are replaced, and a full cache loses the last.
  abbrev pub put_entries : Bytes → T → ℕ → List (Entry T) → List (Entry T)
  put_entries k v cap es =
      if has k es
      then (k, v) ∷ erase k es
      else if cap == length es
      then (k, v) ∷ but_last es
      else (k, v) ∷ es

  abbrev pub touched : Bytes → List (Entry T) → Option T → List (Entry T)
  touched k es none = es
  touched k es (some v) = (k, v) ∷ erase k es

  abbrev pub entry_of : Bytes → Option T → Option (Entry T)
  entry_of k none = none
  entry_of k (some v) = some (k, v)

module _ {T : Type 0} (l : LruCrate T) where
  pub record Documented : Type 0 where
    pub entries : l.Lru → List (Entry T)
    pub len_lem : (c : l.Lru) → l.len c ≡ length (entries c)
    pub contains_lem : (k : Bytes) (c : l.Lru) → l.contains k c ≡ has k (entries c)
    pub get_mut_lem : (k : Bytes) (c : l.Lru) → (l.get_mut k c).0 ≡ find k (entries c)
    pub get_mut_entries :
        (k : Bytes) (c : l.Lru)
        → entries (l.get_mut k c).1 ≡ touched k (entries c) (find k (entries c))
    pub get_mut_cap : (k : Bytes) (c : l.Lru) → l.cap (l.get_mut k c).1 ≡ l.cap c
    pub pop_entry_lem :
        (k : Bytes) (c : l.Lru) → (l.pop_entry k c).0 ≡ entry_of k (find k (entries c))
    pub pop_entry_entries :
        (k : Bytes) (c : l.Lru) → entries (l.pop_entry k c).1 ≡ erase k (entries c)
    pub pop_entry_cap : (k : Bytes) (c : l.Lru) → l.cap (l.pop_entry k c).1 ≡ l.cap c
    pub pop_lru_lem : (c : l.Lru) → (l.pop_lru c).0 ≡ last (entries c)
    pub pop_lru_entries : (c : l.Lru) → entries (l.pop_lru c).1 ≡ but_last (entries c)
    pub pop_lru_cap : (c : l.Lru) → l.cap (l.pop_lru c).1 ≡ l.cap c
    pub put_entries_lem :
        (k : Bytes) (v : T) (c : l.Lru)
        → entries (l.put k v c) ≡ put_entries k v (l.cap c) (entries c)
    pub put_cap : (k : Bytes) (v : T) (c : l.Lru) → l.cap (l.put k v c) ≡ l.cap c
    pub clear_entries : (c : l.Lru) → entries (l.clear c) ≡ []
    pub clear_cap : (c : l.Lru) → l.cap (l.clear c) ≡ l.cap c

  pub record StatementCache : Type 0 where
    pub inner : l.Lru

module _ {T : Type 0} (l : LruCrate T) where
  open l use {Lru}

  abbrev pub value : Option (Entry T) → Option T
  value none = none
  value (some (k, v)) = some v

  abbrev pub cache_of : Lru → StatementCache l
  cache_of c = record { inner = c }

  abbrev pub len : StatementCache l → ℕ
  len self = l.len self.inner

  abbrev pub capacity : StatementCache l → ℕ
  capacity self = l.cap self.inner

  abbrev pub contains_key : Bytes → StatementCache l → Bool
  contains_key k self = l.contains k self.inner

  pub is_enabled : StatementCache l → Bool
  is_enabled self = ltb 0 (capacity self)

  unfoldable pub get_mut : Bytes → StatementCache l → Option T × StatementCache l
  get_mut k self = let (v, c) = l.get_mut k self.inner in (v, cache_of c)

  unfoldable pub remove_lru : StatementCache l → Option T × StatementCache l
  remove_lru self = let (entry, c) = l.pop_lru self.inner in (value entry, cache_of c)

  unfoldable pub clear : StatementCache l → StatementCache l
  clear self = cache_of (l.clear self.inner)

  -- The item that makes room, or that is replaced, and the cache without it.
  abbrev pub room_for : Bytes → StatementCache l → Option T × StatementCache l
  room_for k self =
      if capacity self == len self && not (contains_key k self)
      then remove_lru self
      else if contains_key k self
      then (let (entry, c) = l.pop_entry k self.inner in (value entry, cache_of c))
      else (none, self)

  unfoldable pub insert : Bytes → T → StatementCache l → Option T × StatementCache l
  unfolding remove_lru
  insert k v self =
      let (lru_item, room) = room_for k self in (lru_item, cache_of (l.put k v room.inner))
