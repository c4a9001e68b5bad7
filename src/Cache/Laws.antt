-- ===== src/Cache/Laws.antt =====
-- The cache of prepared statements keeps its bound, and gives back every statement that it drops.
use mathlib.Core.List.{Perm, perm_middle, perm_append_comm}
use mathlib.Core.List.Perm
use rbdc.Base.{
  ℕ, eq_bytes, ◌≤◌, ◌<◌, ◌≡◌, refl, ap, ◌∙◌, true, false, List, [], ◌∷◌, ◌++◌, map, append_assoc,
  Option, none, some, arith, ◌==◌, if◌then◌else◌, Bytes, length, Bool-cases, inl, inr, ==_iff,
}
use rbdc.Cache.{
  LruCrate, Documented, StatementCache, entry_of, value, len, capacity, contains_key, remove_lru,
  room_for, insert,
}
use rbdc.Cache.Entries.{
  Entry, has, find, erase, last, but_last, Distinct, length-but_last, length-erase, has-erase,
  has-but_last, erase-Distinct, but_last-Distinct,
}

module _ {T : Type 0} (l : LruCrate T) where
  -- What an insertion gives back, and the entries after it.
  abbrev pub inserted : Bytes → T → ℕ → List (Entry T) → Option T × List (Entry T)
  inserted k v cap es =
      if has k es
      then (find k es, (k, v) ∷ erase k es)
      else if cap == length es
      then (value l (last es), (k, v) ∷ but_last es)
      else (none, (k, v) ∷ es)

  value-entry_of : (k : Bytes) (o : Option T) → value l (entry_of k o) ≡ o
  value-entry_of k none = refl
  value-entry_of k (some v) = refl

module _ {T : Type 0} (l : LruCrate T) (d : Documented l) where
  abbrev pub entries_of : StatementCache l → List (Entry T)
  entries_of self = d.entries self.inner

  -- No key stands twice, and the entries are no more than the capacity, which is not 0.
  pub record IsCache (self : StatementCache l) : Type 0 where
    pub distinct : Distinct (entries_of self)
    pub bound : length (entries_of self) ≤ capacity l self
    pub positive : 0 < capacity l self

  -- A new key, where there is room for it.
  after_put :
      (k : Bytes) (v : T) (c : l.Lru) (es : List (Entry T))
      → d.entries c ≡ es
      → has k es ≡ false
      → (l.cap c == length es) ≡ false
      → d.entries (l.put k v c) ≡ (k, v) ∷ es
  after_put k v c es e h r = d.put_entries_lem k v c ∙ rw (e, h, r) refl

  -- What the first half of an insertion does.
  record Room (k : Bytes) (self : StatementCache l) (item : Option T) (es : List (Entry T))
      : Type 0 where
    pub given : (room_for l k self).0 ≡ item
    pub entries : entries_of (room_for l k self).1 ≡ es
    pub cap : capacity l (room_for l k self).1 ≡ capacity l self

  replaced :
      (k : Bytes) (self : StatementCache l)
      → has k (entries_of self) ≡ true
      → Room k self (find k (entries_of self)) (erase k (entries_of self))
  replaced k self h =
      let c : contains_key l k self ≡ true = d.contains_lem k self.inner ∙ h in
      elim (Bool-cases (capacity l self == len l self)) [
        | inl full ↦ record {
          given =
              rw (full, c)
                (ap (value l) (d.pop_entry_lem k self.inner)
                  ∙ value-entry_of l k (find k (entries_of self)));
          entries = rw (full, c) (d.pop_entry_entries k self.inner);
          cap = rw (full, c) (d.pop_entry_cap k self.inner);
        }
        | inr free ↦ record {
          given =
              rw (free, c)
                (ap (value l) (d.pop_entry_lem k self.inner)
                  ∙ value-entry_of l k (find k (entries_of self)));
          entries = rw (free, c) (d.pop_entry_entries k self.inner);
          cap = rw (free, c) (d.pop_entry_cap k self.inner);
        }
      ]

  dropped :
      (k : Bytes) (self : StatementCache l)
      → has k (entries_of self) ≡ false
      → (capacity l self == length (entries_of self)) ≡ true
      → Room k self (value l (last (entries_of self))) (but_last (entries_of self))
  unfolding remove_lru
  dropped k self h full =
      let c : contains_key l k self ≡ false = d.contains_lem k self.inner ∙ h in
      let f : (capacity l self == len l self) ≡ true =
        ap (λ n. capacity l self == n) (d.len_lem self.inner) ∙ full in
      record {
        given = rw (f, c) (ap (value l) (d.pop_lru_lem self.inner));
        entries = rw (f, c) (d.pop_lru_entries self.inner);
        cap = rw (f, c) (d.pop_lru_cap self.inner);
      }

  with_space :
      (k : Bytes) (self : StatementCache l)
      → has k (entries_of self) ≡ false
      → (capacity l self == length (entries_of self)) ≡ false
      → Room k self none (entries_of self)
  with_space k self h free =
      let c : contains_key l k self ≡ false = d.contains_lem k self.inner ∙ h in
      let f : (capacity l self == len l self) ≡ false =
        ap (λ n. capacity l self == n) (d.len_lem self.inner) ∙ free in
      record { given = rw (f, c) refl; entries = rw (f, c) refl; cap = rw (f, c) refl }

  -- The second half.
  put_in :
      (k : Bytes) (v : T) (self : StatementCache l) (item : Option T) (es : List (Entry T))
      → Room k self item es
      → has k es ≡ false
      → (capacity l self == length es) ≡ false
      → ((insert l k v self).0 ≡ item)
        × (entries_of (insert l k v self).1 ≡ (k, v) ∷ es)
        × (capacity l (insert l k v self).1 ≡ capacity l self)
  unfolding insert
  put_in k v self item es room new free = (
    room.given,
    after_put k v (room_for l k self).1.inner es room.entries new
        (ap (λ n. n == length es) room.cap ∙ free),
    d.put_cap k v (room_for l k self).1.inner ∙ room.cap,
  )

  -- An insertion into a cache gives back the replaced statement of the same key, or else the least
  -- recently used one if the cache is full, or else none, and leaves the new entry in front of the others.
  pub insert-inserted :
      (k : Bytes) (v : T) (self : StatementCache l)
      → IsCache self
      → ((insert l k v self).0 ≡ (inserted l k v (capacity l self) (entries_of self)).0)
        × (entries_of (insert l k v self).1
            ≡ (inserted l k v (capacity l self) (entries_of self)).1)
        × (capacity l (insert l k v self).1 ≡ capacity l self)
  insert-inserted k v self h = elim (Bool-cases (has k (entries_of self))) [
    | inl old ↦ rw old (
        put_in k v self _ _ (replaced k self old) (has-erase k (entries_of self) h.distinct)
          (ground (arith, length-erase k (entries_of self) old, h.bound)))
    | inr new ↦ elim (Bool-cases (capacity l self == length (entries_of self))) [
      | inl full ↦
          rw (new, full)
            (put_in k v self _ _ (dropped k self new full) (has-but_last k (entries_of self) new)
              (ground (arith, length-but_last (entries_of self), h.positive, full)))
      | inr free ↦ rw (new, free) (put_in k v self _ _ (with_space k self new free) new free)
    ]
  ]

-- The entries after an insertion: their keys and their number.
record Sound {T : Type 0} (cap : ℕ) (after : List (Entry T)) : Type 0 where
  pub distinct : Distinct after
  pub bound : length after ≤ cap

module _ {T : Type 0} (l : LruCrate T) where
  inserted-Sound :
      (k : Bytes) (v : T) (cap : ℕ) (es : List (Entry T))
      → Distinct es
      → length es ≤ cap
      → 0 < cap
      → Sound cap (inserted l k v cap es).1
  unfolding Distinct
  inserted-Sound k v cap es distinct bound positive = elim (Bool-cases (has k es)) [
    | inl old ↦ rw old (record {
      distinct = (has-erase k es distinct, erase-Distinct k es distinct);
      bound = omega (arith, length-erase k es old);
    })
    | inr new ↦ elim (Bool-cases (cap == length es)) [
      | inl full ↦
          let same : cap ≡ length es = (==_iff cap (length es)).0 full in
          rw (new, full)
            (record {
              distinct = (has-but_last k es new, but_last-Distinct es distinct);
              bound = omega (arith, length-but_last es);
            })
      | inr free ↦
          rw (new, free) (record { distinct = (new, distinct); bound = ground (arith, free) })
    ]
  ]

  -- A statement that is given back, if there is one.
  abbrev pub given : Option T → List T
  given none = []
  given (some v) = v ∷ []

  abbrev pub statements : List (Entry T) → List T
  statements es = map (λ e. e.1) es

  find-erase :
      (k : Bytes) (es : List (Entry T))
      → Perm (given (find k es) ++ statements (erase k es)) (statements es)
  unfolding find erase
  find-erase k [] = Perm.refl []
  find-erase k ((x, v) ∷ es) = elim (Bool-cases (eq_bytes x k)) [
    | inl here ↦ rw here (Perm.refl (v ∷ statements es))
    | inr later ↦ rw later (
        Perm.trans (perm_middle (given (find k es)) (statements (erase k es)))
          (Perm.cons v (find-erase k es)))
  ]

  last-but_last :
      (es : List (Entry T))
      → Perm (given (value l (last es)) ++ statements (but_last es)) (statements es)
  unfolding last but_last
  last-but_last [] = Perm.refl []
  last-but_last (e ∷ []) = Perm.refl (e.1 ∷ [])
  last-but_last (e ∷ f ∷ es) =
      Perm.trans (perm_middle (given (value l (last (f ∷ es)))) (statements (but_last (f ∷ es))))
        (Perm.cons e.1 (last-but_last (f ∷ es)))

  inserted_kept :
      (k : Bytes) (v : T) (cap : ℕ) (es : List (Entry T))
      → Perm
          (given (inserted l k v cap es).0 ++ statements (inserted l k v cap es).1)
          (v ∷ statements es)
  inserted_kept k v cap es = elim (Bool-cases (has k es)) [
    | inl old ↦ rw old (
        Perm.trans (perm_middle (given (find k es)) (statements (erase k es)))
          (Perm.cons v (find-erase k es)))
    | inr new ↦ elim (Bool-cases (cap == length es)) [
      | inl full ↦
          rw (new, full)
            (Perm.trans (perm_middle (given (value l (last es))) (statements (but_last es)))
              (Perm.cons v (last-but_last es)))
      | inr free ↦ rw (new, free) (Perm.refl (v ∷ statements es))
    ]
  ]

  -- Several insertions, and the statements that they give back.
  unfoldable pub insert_all : List (Entry T) → StatementCache l → List T × StatementCache l
  insert_all [] self = ([], self)
  insert_all ((k, v) ∷ new) self =
      let (item, next) = insert l k v self in
      let (items, after) = insert_all new next in (given item ++ items, after)

module _ {T : Type 0} (l : LruCrate T) (d : Documented l) where
  abbrev pub held : StatementCache l → List T
  held self = statements l (entries_of l d self)

  -- One insertion into a well-formed cache.
  insert-IsCache :
      (k : Bytes) (v : T) (self : StatementCache l)
      → IsCache l d self
      → IsCache l d (insert l k v self).1
  insert-IsCache k v self h =
      let (item, entries, cap) = insert-inserted l d k v self h in
      let sound =
        inserted-Sound l k v (capacity l self) (entries_of l d self) h.distinct h.bound
          h.positive in
      record {
        distinct = rw entries sound.distinct;
        bound = rw (entries, cap) sound.bound;
        positive = rw cap h.positive;
      }

  insert_one :
      (k : Bytes) (v : T) (self : StatementCache l)
      → IsCache l d self
      → Perm (given l (insert l k v self).0 ++ held (insert l k v self).1) (v ∷ held self)
  insert_one k v self h =
      let (item, entries, cap) = insert-inserted l d k v self h in
      rw (item, entries) (inserted_kept l k v (capacity l self) (entries_of l d self))

  -- However many statements are inserted into a well-formed cache, it stays well-formed, and the
  -- statements that the insertions give back are, with those that the cache then holds, just the
  -- inserted ones and those that it held before, each as often.
  pub insert_kept :
      (new : List (Entry T)) (self : StatementCache l)
      → IsCache l d self
      → Perm
          ((insert_all l new self).0 ++ held (insert_all l new self).1)
          (statements l new ++ held self)
        × IsCache l d (insert_all l new self).1
  unfolding insert_all
  insert_kept [] self h = (Perm.refl (held self), h)
  insert_kept ((k, v) ∷ new) self h =
      let item = given l (insert l k v self).0 in
      let next = (insert l k v self).1 in
      let items = (insert_all l new next).0 in
      let after = held (insert_all l new next).1 in
      let (kept, well) = insert_kept new next (insert-IsCache k v self h) in
      (
        rw (append_assoc item items after) (
            Perm.trans (Perm.append_left item kept) (
              rw (← append_assoc item (statements l new) (held next)) (
                Perm.trans
                  (Perm.append_right (held next) (perm_append_comm item (statements l new)))
                  (rw (append_assoc (statements l new) item (held next)) (
                    Perm.trans (Perm.append_left (statements l new) (insert_one k v self h))
                      (perm_middle (statements l new) (held self))))))),
        well,
      )
