-- ===== src/Postgres/Pgpass/Fields.antt =====
-- `find_next_field` against a description of the fields of a line.
use rbdc.Base.{
  ℕ, ◌+◌, ◌≤◌, ◌≡◌, refl, ap, sym, ◌∙◌, Bool, true, false, not, ◌||◌, [], ◌∷◌, ◌++◌, append_assoc,
  append-nil, Option, none, some, arith, ◌==◌, if◌then◌else◌, length, length-append, take, drop,
  take-append, drop-append, drop_all, ==_iff, Bool-cases, inl, inr, drop_inside,
}
use rbdc.Postgres.Pgpass.{Text, find_loop, find_next_field, or_empty, field_at}

abbrev prepend : Text → Option (Text × Text) → Option (Text × Text)
prepend s none = none
prepend s (some (field, rest)) = some (s ++ field, rest)

-- The fields of a line end at a colon; a backslash takes the next character as it is.
unfoldable pub field_of : Bool → Text → Option (Text × Text)
field_of escaping [] = none
field_of true (c ∷ cs) = prepend (c ∷ []) (field_of false cs)
field_of false (c ∷ cs) =
    let skip = field_of true cs in
    let keep = prepend (c ∷ []) (field_of false cs) in
    if c == b':' then some ([], cs) else if c == b'\\' then skip else keep

prepend-append :
    (a b : Text) (o : Option (Text × Text)) → prepend (a ++ b) o ≡ prepend a (prepend b o)
prepend-append a b none = refl
prepend-append a b (some (field, rest)) = rw (append_assoc a b field)

prepend-nil : (o : Option (Text × Text)) → prepend [] o ≡ o
prepend-nil none = refl
prepend-nil (some (field, rest)) = refl

-- What the loop has collected of the field: the unescaped text, and what follows the last escape.
abbrev collected : Text → Option Text → ℕ → Text
collected pre escaped last = or_empty escaped ++ drop last pre

-- Where the loop stands: behind `pre`, before `cs`.
record At (line pre cs : Text) (idx : ℕ) (escaping : Bool) (escaped : Option Text) (last : ℕ)
    : Type 0 where
  whole : line ≡ pre ++ cs
  index : idx ≡ length pre
  behind : last ≤ length pre
  fresh : escaped ≡ none → last ≡ 0
  just : escaping ≡ true → last ≡ length pre

field_at_lem :
    (line pre cs : Text) (idx : ℕ) (escaped : Option Text) (last : ℕ)
    → take idx line ≡ pre
    → drop 1 (drop idx line) ≡ cs
    → (escaped ≡ none → last ≡ 0)
    → field_at line idx escaped last ≡ (collected pre escaped last, cs)
unfolding drop
field_at_lem line pre cs idx none last b a h = rw (b, a, h refl)
field_at_lem line pre cs idx (some s) last b a h = rw (b, a)

module _ {line pre cs : Text} {idx : ℕ} {escaping : Bool} {escaped : Option Text} {last : ℕ} {c : ℕ}
    (h : At line pre (c ∷ cs) idx escaping escaped last) where
  next_whole : line ≡ (pre ++ c ∷ []) ++ cs
  next_whole = h.whole ∙ sym (append_assoc pre (c ∷ []) cs)

  next_index : idx + 1 ≡ length (pre ++ c ∷ [])
  next_index = omega (arith, h.index, length-append pre (c ∷ []))

  -- Behind a character that is kept.
  kept : At line (pre ++ c ∷ []) cs (idx + 1) false escaped last
  kept = record {
    whole = next_whole;
    index = next_index;
    behind = omega (arith, h.behind, length-append pre (c ∷ []));
    fresh = h.fresh;
    just = λ e. cc;
  }

  kept-collected : collected (pre ++ c ∷ []) escaped last ≡ collected pre escaped last ++ c ∷ []
  kept-collected =
      rw (drop_inside last pre (c ∷ []) h.behind)
        (sym (append_assoc (or_empty escaped) (drop last pre) (c ∷ [])))

  -- Behind a backslash.
  skipped : (s : Text) → At line (pre ++ c ∷ []) cs (idx + 1) (not escaping) (some s) (idx + 1)
  skipped s = record {
    whole = next_whole;
    index = next_index;
    behind = omega (arith, next_index);
    fresh = λ e. cc;
    just = λ e. next_index;
  }

  skipped-collected : (s : Text) → collected (pre ++ c ∷ []) (some s) (idx + 1) ≡ s
  skipped-collected s =
      rw (drop_all (idx + 1) (pre ++ c ∷ []) (omega (arith, next_index))) (append-nil s)

  before : take idx line ≡ pre
  before = rw h.whole (take-append idx pre (c ∷ cs) h.index)

  after : drop 1 (drop idx line) ≡ cs
  unfolding drop
  after = rw (h.whole, drop-append idx pre (c ∷ cs) h.index)

  -- Behind an escaped backslash nothing is open: the collected text ends with it.
  doubled-collected :
      escaping ≡ true
      → c ≡ b'\\'
      → or_empty escaped ++ b'\\' ∷ [] ≡ collected pre escaped last ++ c ∷ []
  doubled-collected e k =
      rw (k, drop_all last pre (omega (arith, h.just e)), append-nil (or_empty escaped))

  opened-collected : or_empty escaped ++ drop last (take idx line) ≡ collected pre escaped last
  opened-collected = rw before

  colon_case : field_at line idx escaped last ≡ (collected pre escaped last, cs)
  colon_case = field_at_lem line pre cs idx escaped last before after h.fresh

-- The loop, from any point of it, finds the field that is described.
find_loop_lem :
    (cs line pre : Text) (idx : ℕ) (escaping : Bool) (escaped : Option Text) (last : ℕ)
    → At line pre cs idx escaping escaped last
    → find_loop line cs idx escaping escaped last
      ≡ prepend (collected pre escaped last) (field_of escaping cs)
unfolding find_loop field_of
find_loop_lem [] line pre idx true escaped last h = refl
find_loop_lem [] line pre idx false escaped last h = refl
find_loop_lem (c ∷ cs) line pre idx true escaped last h =
    let keep = find_loop_lem cs line (pre ++ c ∷ []) (idx + 1) false escaped last (kept h) in
    let step =
      keep
      ∙ ap (λ x. prepend x (field_of false cs)) (kept-collected h)
      ∙ prepend-append (collected pre escaped last) (c ∷ []) (field_of false cs) in
    elim (Bool-cases (c == b'\\')) [
      | inl hit ↦
          let s = or_empty escaped ++ b'\\' ∷ [] in
          let skip =
            find_loop_lem cs line (pre ++ c ∷ []) (idx + 1) false (some s) (idx + 1)
              (skipped h s) in
          let doubled =
            skip
            ∙ ap (λ x. prepend x (field_of false cs))
                (skipped-collected h s ∙ doubled-collected h refl ((==_iff c b'\\').0 hit))
            ∙ prepend-append (collected pre escaped last) (c ∷ []) (field_of false cs) in
          ground (arith, doubled)
      | inr miss ↦ ground (arith, step)
    ]
find_loop_lem (c ∷ cs) line pre idx false escaped last h =
    let keep = find_loop_lem cs line (pre ++ c ∷ []) (idx + 1) false escaped last (kept h) in
    let step =
      keep
      ∙ ap (λ x. prepend x (field_of false cs)) (kept-collected h)
      ∙ prepend-append (collected pre escaped last) (c ∷ []) (field_of false cs) in
    let s = or_empty escaped ++ drop last (take idx line) in
    let skip =
      find_loop_lem cs line (pre ++ c ∷ []) (idx + 1) true (some s) (idx + 1) (skipped h s) in
    let opened =
      skip ∙ ap (λ x. prepend x (field_of true cs)) (skipped-collected h s ∙ opened-collected h) in
    ground (arith, step, opened, colon_case h, append-nil (collected pre escaped last))

-- The loop with its byte offsets finds the field and the rest of the line that a reader of one
-- character after the other finds.
pub find_next_field-field_of : (line : Text) → find_next_field line ≡ field_of false line
unfolding find_next_field drop
find_next_field-field_of line =
    find_loop_lem line line [] 0 false none 0 record {
      whole = refl;
      index = refl;
      behind = ground arith;
      fresh = λ e. refl;
      just = λ e. refl;
    }
    ∙ prepend-nil (field_of false line)

-- A field as libpq's documentation writes it: a backslash before each colon and each backslash.
unfoldable pub escape : Text → Text
escape [] = []
escape (c ∷ cs) =
    let rest = escape cs in if c == b':' || c == b'\\' then b'\\' ∷ c ∷ rest else c ∷ rest

field_of-escape :
    (field rest : Text) → field_of false (escape field ++ b':' ∷ rest) ≡ some (field, rest)
unfolding field_of escape
field_of-escape [] rest = refl
field_of-escape (c ∷ cs) rest = ground (arith, field_of-escape cs rest)

-- A field that was escaped and has a colon behind it is found as it was, and what follows the colon
-- is left.
pub find_next_field-escape :
    (field rest : Text) → find_next_field (escape field ++ b':' ∷ rest) ≡ some (field, rest)
find_next_field-escape field rest =
    find_next_field-field_of (escape field ++ b':' ∷ rest) ∙ field_of-escape field rest
