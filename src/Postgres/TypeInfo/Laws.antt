-- ===== src/Postgres/TypeInfo/Laws.antt =====
-- The array types of rbdc-pg/src/type_info.rs, and the comparison of types.
use Prim.Native.String.{◌++◌}
use rbdc.Base.{◌≡◌, refl, subst, Option, none, some, Outcome, ok}
use rbdc.Postgres.TypeInfo.{PgType, PgTypeInfo, type_info, IsBuiltin}
use rbdc.Postgres.TypeInfo.ArrayTypes.{to_array_type}
use rbdc.Postgres.TypeInfo.Arrays.{try_array_element, to_array_element}
use rbdc.Postgres.TypeInfo.Names.{display_name, name}

abbrev ArrayFacts : PgType → Option PgTypeInfo → Type 0
ArrayFacts t none = Unit
ArrayFacts t (some (type_info a)) =
    (try_array_element a ≡ ok (some (type_info t)))
    × (name a ≡ "_" ++ name t)
    × (display_name a ≡ display_name t ++ "[]")

array_facts : (t : PgType) → ArrayFacts t (to_array_type t)
unfolding try_array_element to_array_type name display_name
array_facts PgType.bool = (refl, refl, refl)
array_facts _ = assumption (refl, tt)

-- Where a type has an array type, that is an array with this type as its element, and its names are
-- made from the names of the type: `_name` in the catalogue and `NAME[]` on the screen.
pub to_array_type_lem :
    (t a : PgType)
    → to_array_type t ≡ some (type_info a)
    → (try_array_element a ≡ ok (some (type_info t)))
      × (name a ≡ "_" ++ name t)
      × (display_name a ≡ display_name t ++ "[]")
to_array_type_lem t a e = subst (ArrayFacts t) e (array_facts t)

abbrev ElementFacts : PgType → Outcome (Option PgTypeInfo) → Type 0
ElementFacts a (ok (some (type_info t))) =
    (to_array_type t ≡ some (type_info a)) × (to_array_element a ≡ none) × IsBuiltin t
ElementFacts a _ = Unit

element_facts : (a : PgType) → IsBuiltin a → ElementFacts a (try_array_element a)
unfolding try_array_element to_array_type to_array_element
element_facts PgType.bool b = tt
element_facts (PgType.custom t) b = absurd b
element_facts (PgType.declare_with_name n) b = absurd b
element_facts (PgType.declare_with_oid o) b = absurd b
element_facts _ b = assumption (refl, tt)

-- The element of a built-in array is a built-in type whose array type it is. `to_array_element`
-- returns nothing for such an array, although its comment promises the element.
pub try_array_element_lem :
    (a t : PgType)
    → IsBuiltin a
    → try_array_element a ≡ ok (some (type_info t))
    → (to_array_type t ≡ some (type_info a)) × (to_array_element a ≡ none) × IsBuiltin t
try_array_element_lem a t b e = subst (ElementFacts a) e (element_facts a b)
