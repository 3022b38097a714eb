-- ===== src/Proto/Dict.antt =====
-- Maps of fields: the operations of Go maps, and their laws.
use embyr.Base.{
  String, List, [], ◌∷◌, Option, none, some, ◌≡◌, refl, ap, arith, str_eq, eq_iff, if◌then◌else◌,
}
use embyr.Proto.{Value, Values, nil, cons, Fields, end, field, map}

unfoldable pub lookup : String → Fields → Option Value
lookup key end = none
lookup key (field k v m) = if str_eq k key then some v else lookup key m

unfoldable pub insert : String → Value → Fields → Fields
insert key v end = field key v end
insert key v (field k w m) = if str_eq k key then field key v m else field k w (insert key v m)

-- `delete(m, key)`, which drops every entry of the key.
unfoldable pub delete : String → Fields → Fields
delete key end = end
delete key (field k v m) = let rest = delete key m in if str_eq k key then rest else field k v rest

pub lookup-insert :
    (key other : String) (v : Value) (m : Fields)
    → lookup other (insert key v m) ≡ (if str_eq key other then some v else lookup other m)
unfolding lookup insert
lookup-insert key other v end = refl
lookup-insert key other v (field k w m) =
    ground (arith, eq_iff key other, eq_iff k key, eq_iff k other, lookup-insert key other v m)

pub lookup-delete :
    (key other : String) (m : Fields)
    → lookup other (delete key m) ≡ (if str_eq key other then none else lookup other m)
unfolding lookup delete
lookup-delete key other end = ground arith
lookup-delete key other (field k w m) =
    ground (arith, eq_iff key other, eq_iff k key, eq_iff k other, lookup-delete key other m)

-- The elements of an array value.
unfoldable pub elements : Values → List Value
elements nil = []
elements (cons v vs) = v ∷ elements vs

unfoldable pub array_of : List Value → Values
array_of [] = nil
array_of (v ∷ vs) = cons v (array_of vs)

pub elements-array_of : (vs : List Value) → elements (array_of vs) ≡ vs
unfolding elements array_of
elements-array_of [] = refl
elements-array_of (v ∷ vs) = ap (λ l. v ∷ l) (elements-array_of vs)

-- `getNestedFields`: the map under a key, empty where there is none.
unfoldable pub fields_of : Option Value → Fields
fields_of (some (map m)) = m
fields_of _ = end

unfoldable pub get_nested_fields : String → Fields → Fields
unfolding lookup fields_of
get_nested_fields top m = fields_of (lookup top m)
