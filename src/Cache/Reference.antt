-- ===== src/Cache/Reference.antt =====
-- A cache over a list, which meets the documentation of the crate.
use rbdc.Base.{ℕ, refl, List, [], length}
use rbdc.Cache.{LruCrate, Documented, put_entries, touched, entry_of}
use rbdc.Cache.Entries.{Entry, has, find, erase, last, but_last}

-- A cache as its capacity and its entries.
module _ {T : Type 0} where
  abbrev pub list_lru : LruCrate T
  list_lru = record {
    Lru = ℕ × List (Entry T);
    get_mut = λ k c. (find k c.1, (c.0, touched k c.1 (find k c.1)));
    pop_entry = λ k c. (entry_of k (find k c.1), (c.0, erase k c.1));
    pop_lru = λ c. (last c.1, (c.0, but_last c.1));
    put = λ k v c. (c.0, put_entries k v c.0 c.1);
    contains = λ k c. has k c.1;
    len = λ c. length c.1;
    cap = λ c. c.0;
    clear = λ c. (c.0, []);
  }

  unfoldable pub list_lru-Documented : Documented list_lru
  list_lru-Documented = record {
    entries = λ c. c.1;
    len_lem = λ c. refl;
    contains_lem = λ k c. refl;
    get_mut_lem = λ k c. refl;
    get_mut_entries = λ k c. refl;
    get_mut_cap = λ k c. refl;
    pop_entry_lem = λ k c. refl;
    pop_entry_entries = λ k c. refl;
    pop_entry_cap = λ k c. refl;
    pop_lru_lem = λ c. refl;
    pop_lru_entries = λ c. refl;
    pop_lru_cap = λ c. refl;
    put_entries_lem = λ k v c. refl;
    put_cap = λ k v c. refl;
    clear_entries = λ c. refl;
    clear_cap = λ c. refl;
  }
