-- ===== src/Postgres/TypeInfo/Compare.antt =====
-- `impl PartialEq for PgType` of rbdc-pg/src/type_info.rs.
use Prim.Native.Char.{code}
use rbdc.Base.{
  ℕ, ◌+◌, String, ◌≡◌, refl, ap, ◌∙◌, Bool, true, false, ◌&&◌, ◌||◌, List, [], ◌∷◌, Option, none,
  some, arith, leb, ◌==◌, if◌then◌else◌, ==_iff,
}
use mathlib.Core.Option
use rbdc.Postgres.TypeInfo.{PgType, IsBuiltin}
use rbdc.Postgres.TypeInfo.Names.{name}
use rbdc.Postgres.TypeInfo.Oids.{try_oid, try_from_oid, try_from_oid-try_oid}

-- The code points of a text.
abbrev codes : String → List ℕ
codes String.[] = []
codes (String.◌∷◌ c s) = code c ∷ codes s

lower : ℕ → ℕ
lower c = if leb b'A' c && leb c b'Z' then c + 32 else c

same : List ℕ → List ℕ → Bool
same [] [] = true
same (c ∷ cs) (d ∷ ds) = lower c == lower d && same cs ds
same _ _ = false

-- `str::eq_ignore_ascii_case`
unfoldable pub eq_ignore_ascii_case : String → String → Bool
unfolding lower same
eq_ignore_ascii_case s t = same (codes s) (codes t)

is_declare_with_name : PgType → Bool
is_declare_with_name (PgType.declare_with_name n) = true
is_declare_with_name _ = false

is_declare_with_oid : PgType → Bool
is_declare_with_oid (PgType.declare_with_oid o) = true
is_declare_with_oid _ = false

-- One of the two is declared by its name and the other by its oid.
mixed : PgType → PgType → Bool
unfolding is_declare_with_name is_declare_with_oid
mixed a b =
    (is_declare_with_name a && is_declare_with_oid b)
    || (is_declare_with_oid a && is_declare_with_name b)

by_name : PgType → PgType → Bool
unfolding mixed
by_name a b = if mixed a b then true else eq_ignore_ascii_case (name a) (name b)

by_oid : Option ℕ → Option ℕ → Bool → Bool
by_oid (some a) (some b) otherwise = a == b
by_oid _ _ otherwise = otherwise

unfoldable pub eq : PgType → PgType → Bool
unfolding by_oid by_name
eq a b = by_oid (try_oid a) (try_oid b) (by_name a b)

same_refl : (cs : List ℕ) → same cs cs ≡ true
unfolding same
same_refl [] = refl
same_refl (c ∷ cs) = ground (arith, same_refl cs)

same_symm : (cs ds : List ℕ) → same cs ds ≡ same ds cs
unfolding same
same_symm [] [] = refl
same_symm [] (d ∷ ds) = refl
same_symm (c ∷ cs) [] = refl
same_symm (c ∷ cs) (d ∷ ds) = ground (arith, same_symm cs ds)

-- The comparison is reflexive.
pub eq_refl : (a : PgType) → eq a a ≡ true
unfolding eq eq_ignore_ascii_case
eq_refl a = ground (arith, same_refl (codes (name a)))

mixed_symm : (a b : PgType) → mixed a b ≡ mixed b a
unfolding mixed
mixed_symm a b =
    flip (is_declare_with_name a) (is_declare_with_oid a) (is_declare_with_name b)
      (is_declare_with_oid b)
  where
    flip : (n o m p : Bool) → ((n && p) || (o && m)) ≡ ((m && o) || (p && n))
    flip n o m p = ground arith

by_name_symm : (a b : PgType) → by_name a b ≡ by_name b a
unfolding eq_ignore_ascii_case by_name mixed
by_name_symm a b =
    ap (λ x. if x then true else same (codes (name a)) (codes (name b))) (mixed_symm a b)
    ∙ ap (λ x. if mixed b a then true else x) (same_symm (codes (name a)) (codes (name b)))

by_oid_symm : (x y : Option ℕ) (b : Bool) → by_oid x y b ≡ by_oid y x b
unfolding by_oid
by_oid_symm none none b = refl
by_oid_symm none (some y) b = refl
by_oid_symm (some x) none b = refl
by_oid_symm (some x) (some y) b = ground arith

-- The comparison of any two types does not depend on their order.
pub eq_symm : (a b : PgType) → eq a b ≡ eq b a
unfolding eq
eq_symm a b =
    by_oid_symm (try_oid a) (try_oid b) (by_name a b)
    ∙ ap (by_oid (try_oid b) (try_oid a)) (by_name_symm a b)

-- Types that are found again by their oids are the same if the oids are.
same_oid :
    (x y : Option ℕ) (a b : PgType) (c : Bool)
    → Option.bind x try_from_oid ≡ some a
    → Option.bind y try_from_oid ≡ some b
    → by_oid x y c ≡ true
    → a ≡ b
unfolding Option.bind by_oid
same_oid none y a b c p q e = cc
same_oid (some x) none a b c p q e = cc
same_oid (some x) (some y) a b c p q e =
    let hit : try_from_oid x ≡ try_from_oid y = ap try_from_oid ((==_iff x y).0 e) in cc

-- Two built-in types compare equal only if they are the same type.
pub eq-builtin : (a b : PgType) → IsBuiltin a → IsBuiltin b → eq a b ≡ true → a ≡ b
unfolding eq
eq-builtin a b ha hb e =
    same_oid (try_oid a) (try_oid b) a b (by_name a b) (try_from_oid-try_oid a ha)
      (try_from_oid-try_oid b hb) e

-- The comparison is not transitive: for two names that differ, a type that is declared by an oid
-- equals the types that are declared by either name, which are not equal.
pub eq_not_transitive :
    (n m : String) (o : ℕ)
    → eq_ignore_ascii_case n m ≡ false
    → (eq (PgType.declare_with_name n) (PgType.declare_with_oid o) ≡ true)
      × (eq (PgType.declare_with_oid o) (PgType.declare_with_name m) ≡ true)
      × (eq (PgType.declare_with_name n) (PgType.declare_with_name m) ≡ false)
unfolding eq try_oid name
eq_not_transitive n m o h = (refl, refl, h)
