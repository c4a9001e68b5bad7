-- ===== src/Mysql/Collation/Laws.antt =====
-- The names of character sets and collations are read back, and only they are read.
use rbdc.Base.{
  ℕ, ◌<◌, String, ◌≡◌, refl, ap, Bool, true, ◌&&◌, List, [], ◌∷◌, Option, none, some, if◌then◌else◌,
  Error, general, ok, arith,
}
use text.Mathlib.Text.{◌==◌, starts_with}
use rbdc.Base.{◌==◌ as nat_eq}
use text.Mathlib.TextEquality.{eq_iff}
use rbdc.Mysql.Collation.{CharSet, Collation}
use rbdc.Mysql.Collation.Ids.{collation_id}
use rbdc.Mysql.Collation.Names.{char_set_as_str, default_collation, as_str}
use rbdc.Mysql.Collation.Parse.{
  match_text, or_fail, char_set_arms, collation_arms, char_set_from_str, from_str,
}

-- Every collation is read back from its name.
pub from_str-as_str : (x : Collation) → from_str (as_str x) ≡ ok x
unfolding from_str as_str
from_str-as_str Collation.armscii8_bin = refl
from_str-as_str _ = refl

-- Every character set is read back from its name.
pub char_set_from_str-as_str : (x : CharSet) → char_set_from_str (char_set_as_str x) ≡ ok x
unfolding char_set_from_str char_set_as_str
char_set_from_str-as_str CharSet.armscii8 = refl
char_set_from_str-as_str _ = refl

-- The arms of a `match` on texts are for the names of what they give.
module _ {A : Type 0} (print : A → String) where
  arms_agree : List (String × A) → Bool
  arms_agree [] = true
  arms_agree ((k, a) ∷ arms) = print a == k && arms_agree arms

  match_text-arms :
      (s : String) (arms : List (String × A)) (a : A)
      → arms_agree arms ≡ true
      → match_text s arms ≡ some a
      → s ≡ print a
  unfolding arms_agree match_text
  match_text-arms s [] a h e = cc
  match_text-arms s ((k, b) ∷ arms) a h e =
      ground (arith, eq_iff (print b) k, eq_iff s k, match_text-arms s arms a)

or_fail-eq_ok {ℓ} :
    {A : Type ℓ} (o : Option A) (x : Error) (a : A) → or_fail o x ≡ ok a → o ≡ some a
or_fail-eq_ok none x a e = cc
or_fail-eq_ok (some b) x a e = cc

-- A text is read as a collation only if it is the name of that collation.
pub as_str-from_str : (s : String) (x : Collation) → from_str s ≡ ok x → s ≡ as_str x
unfolding from_str arms_agree as_str
as_str-from_str s x e =
    match_text-arms as_str s collation_arms x refl (
      or_fail-eq_ok (match_text s collation_arms) (general "unsupported MySQL collation: {}" []) x
        e)

-- A text is read as a character set only if it is the name of that character set.
pub char_set_as_str-from_str :
    (s : String) (x : CharSet) → char_set_from_str s ≡ ok x → s ≡ char_set_as_str x
unfolding char_set_from_str arms_agree char_set_as_str
char_set_as_str-from_str s x e =
    match_text-arms char_set_as_str s char_set_arms x refl
      (or_fail-eq_ok (match_text s char_set_arms) (general "unsupported MySQL charset: {}" []) x e)

-- The collation with a number, found among the arms.
of_id : ℕ → List (String × Collation) → Option Collation
of_id n [] = none
of_id n ((k, x) ∷ arms) = if nat_eq n (collation_id x) then some x else of_id n arms

of_id-collation_id : (x : Collation) → of_id (collation_id x) collation_arms ≡ some x
unfolding of_id collation_id
of_id-collation_id Collation.armscii8_bin = refl
of_id-collation_id _ = refl

-- The number of a collation fits the one byte that the handshake has for it.
pub collation_id_lt : (x : Collation) → (0 < collation_id x) × (collation_id x < 256)
unfolding collation_id
collation_id_lt Collation.armscii8_bin = omega arith
collation_id_lt _ = omega arith

-- Collations with the same number are the same collation.
pub collation_id_injective : (x y : Collation) → collation_id x ≡ collation_id y → x ≡ y
collation_id_injective x y e =
    let same : of_id (collation_id x) collation_arms ≡ of_id (collation_id y) collation_arms =
      ap (λ n. of_id n collation_arms) e in
    cc (of_id-collation_id x, of_id-collation_id y)

-- The name of the default collation of a character set starts with the name of the character set.
pub default_collation_lem :
    (x : CharSet) → starts_with (as_str (default_collation x)) (char_set_as_str x) ≡ true
unfolding as_str default_collation char_set_as_str
default_collation_lem CharSet.armscii8 = refl
default_collation_lem _ = refl
