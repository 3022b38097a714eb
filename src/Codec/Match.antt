-- ===== src/Codec/Match.antt =====
-- Deciding in memory whether a document satisfies a filter (internal/codec/query.go).
pub mod Laws
use Prim.Native.Char.{code}
use embyr.Base.{
  ℕ, String, Bool, true, false, not, ◌&&◌, ◌||◌, List, [], ◌∷◌, Option, none, some, ◌==◌, ltb, any,
  all, str_eq, if◌then◌else◌,
}
use embyr.Base.Int.{ℤ, pos, negsuc, ltb_ℤ, eqb_ℤ}
use mathlib.Core.Bool.{xor}
use embyr.Text.{str_lt, split_on, dot}
use embyr.Proto.{Value, Fields, map, Float64, Protobuf}
use embyr.Proto.Dict.{lookup, fields_of}
use embyr.Store.{FilterValue, FilterValues, FilterOp, FieldFilter, CompositeFilter}
use embyr.Codec.Values.{filter_value_from_proto, array_vals}

-- The path as the list of its segments: the last is looked up, each one before it must be a map.
unfoldable pub lookup_segments : List String → Fields → Option Value
unfolding lookup
lookup_segments [] fields = none
lookup_segments (s ∷ []) fields = lookup s fields
lookup_segments (s ∷ t ∷ ts) fields = elim (lookup s fields) [
  | some (map m) ↦ lookup_segments (t ∷ ts) m
  | _ ↦ none
]

unfoldable pub lookup_nested_field : Fields → String → Option Value
unfolding lookup_segments split_on
lookup_nested_field fields fp =
    if str_eq fp "" then none else lookup_segments (split_on dot fp) fields

-- `filterValuesEqual`. Arrays are equal to nothing.
unfoldable pub filter_values_equal : Float64 → FilterValue → FilterValue → Bool
filter_values_equal f FilterValue.null FilterValue.null = true
filter_values_equal f (FilterValue.bool a) (FilterValue.bool b) = not (xor a b)
filter_values_equal f (FilterValue.int a) (FilterValue.int b) = eqb_ℤ a b
filter_values_equal f (FilterValue.int a) (FilterValue.double b) = f.eq (f.of_int a) b
filter_values_equal f (FilterValue.double a) (FilterValue.int b) = f.eq a (f.of_int b)
filter_values_equal f (FilterValue.double a) (FilterValue.double b) = f.eq a b
filter_values_equal f (FilterValue.string a) (FilterValue.string b) = str_eq a b
filter_values_equal f (FilterValue.json a) (FilterValue.json b) = str_eq a b
filter_values_equal f (FilterValue.time a) (FilterValue.time b) = a == b
filter_values_equal f _ _ = false

-- The result of a comparison: -1, 0 or +1.
pub data Sign : Type 0 where
  below same above : Sign

abbrev pub sign_of : Bool → Bool → Sign
sign_of less more = if less then below else if more then above else same

unfoldable pub float_cmp : Float64 → ℕ → ℕ → Sign
float_cmp f a b = if f.is_nan a || f.is_nan b then same else sign_of (f.lt a b) (f.lt b a)

-- The comparisons after the one of integers: numbers as floats, then texts, then times; any
-- other two values compare as the same.
unfoldable pub other_cmp : Float64 → FilterValue → FilterValue → Sign
unfolding float_cmp str_lt
other_cmp f (FilterValue.int a) (FilterValue.double b) = float_cmp f (f.of_int a) b
other_cmp f (FilterValue.double a) (FilterValue.int b) = float_cmp f a (f.of_int b)
other_cmp f (FilterValue.double a) (FilterValue.double b) = float_cmp f a b
other_cmp f (FilterValue.string a) (FilterValue.string b) = sign_of (str_lt a b) (str_lt b a)
other_cmp f (FilterValue.time a) (FilterValue.time b) = sign_of (ltb a b) (ltb b a)
other_cmp f _ _ = same

unfoldable pub filter_values_cmp : Float64 → FilterValue → FilterValue → Sign
unfolding other_cmp
filter_values_cmp f (FilterValue.int a) (FilterValue.int b) = sign_of (ltb_ℤ a b) (ltb_ℤ b a)
filter_values_cmp f a b = other_cmp f a b

abbrev pub is_below : Sign → Bool
is_below below = true
is_below _ = false

abbrev pub is_above : Sign → Bool
is_above above = true
is_above _ = false

-- A value's elements, if it is an array.
unfoldable pub array_of : FilterValue → Option (List FilterValue)
unfolding array_vals
array_of (FilterValue.array vs) = some (array_vals (FilterValue.array vs))
array_of _ = none

-- `array-contains`
unfoldable pub contains : Float64 → Option (List FilterValue) → FilterValue → Bool
unfolding filter_values_equal
contains f none v = false
contains f (some els) v = any (λ el. filter_values_equal f el v) els

-- `array-contains-any`: the elements outside, the candidates inside.
unfoldable pub contains_any : Float64 → Option (List FilterValue) → List FilterValue → Bool
unfolding filter_values_equal
contains_any f none vs = false
contains_any f (some els) vs = any (λ el. any (λ v. filter_values_equal f el v) vs) els

-- The switch over the operators, for a field that the document has.
unfoldable pub match_value : Float64 → FilterValue → FilterOp → FilterValue → Bool
unfolding filter_values_equal filter_values_cmp contains contains_any array_of array_vals
match_value f v FilterOp.equal w = filter_values_equal f v w
match_value f v FilterOp.not_equal w = not (filter_values_equal f v w)
match_value f v FilterOp.less_than w = is_below (filter_values_cmp f v w)
match_value f v FilterOp.less_than_or_equal w = not (is_above (filter_values_cmp f v w))
match_value f v FilterOp.greater_than w = is_above (filter_values_cmp f v w)
match_value f v FilterOp.greater_than_or_equal w = not (is_below (filter_values_cmp f v w))
match_value f v FilterOp.is_in w = any (λ c. filter_values_equal f v c) (array_vals w)
match_value f v FilterOp.not_in w = not (any (λ c. filter_values_equal f v c) (array_vals w))
match_value f v FilterOp.array_contains w = contains f (array_of v) w
match_value f v FilterOp.array_contains_any w = contains_any f (array_of v) (array_vals w)

-- A document without the field does not match.
unfoldable pub match_found : Float64 → Protobuf → FieldFilter → Option Value → Bool
unfolding filter_value_from_proto match_value
match_found f pb ff none = false
match_found f pb ff (some v) = match_value f (filter_value_from_proto pb v) ff.op ff.value

unfoldable pub match_field_filter : Float64 → Protobuf → Fields → FieldFilter → Bool
unfolding lookup_nested_field match_found
match_field_filter f pb fields ff = match_found f pb ff (lookup_nested_field fields ff.field)

unfoldable pub matches_filter : Float64 → Protobuf → Fields → Option CompositeFilter → Bool
unfolding match_field_filter
matches_filter f pb fields none = true
matches_filter f pb fields (some ffs) = all (match_field_filter f pb fields) ffs
