-- ===== src/Server/Transforms.antt =====
-- `applyFieldTransforms` of internal/server/handlers.go.
--
-- A transform result that the code leaves nil is `none`. The loop's switch has no default case: a
-- transform of another kind (maximum, minimum) changes nothing and adds no result.
pub mod Laws
use embyr.Base.{
  ℕ, String, Bool, true, false, not, List, [], ◌∷◌, ◌++◌, Option, none, some, any, if◌then◌else◌,
}
use embyr.Base.Int.{ℤ, pos, ◌+ℤ◌, wrap64}
use embyr.Base.Result.{Code, invalid_argument, Result, ok, err}
use embyr.Proto.{Value, Fields, integer, double, timestamp, array, Float64, Protobuf}
use embyr.Proto.Dict.{elements, array_of}
use embyr.Server.Mask.{nested_get_value, nested_set_value}

-- `DocumentTransform_FieldTransform.TransformType`; the flag of the first says whether the server
-- value is REQUEST_TIME.
pub data TransformType : Type 0 where
  set_to_server_value : Bool → TransformType
  increment : Value → TransformType
  append_missing_elements : List Value → TransformType
  remove_all_from_array : List Value → TransformType
  unknown_transform : TransformType

pub record FieldTransform : Type 0 where
  pub field_path : String
  pub kind : TransformType

-- The current integer that an integer delta is added to, 0 where the field is no integer.
unfoldable pub existing_int : Option Value → ℤ
existing_int (some (integer i)) = i
existing_int _ = pos 0

-- The current number that a double is added to.
unfoldable pub existing_double : Float64 → Option Value → ℕ
existing_double f (some (double d)) = d
existing_double f (some (integer i)) = f.of_int i
existing_double f _ = 0

unfoldable pub incremented : Float64 → Option Value → Value → Option Value
unfolding existing_int existing_double wrap64 ◌+ℤ◌
incremented f curr (integer d) = some (integer (wrap64 (existing_int curr +ℤ d)))
incremented f curr (double d) = some (double (f.add (existing_double f curr) d))
incremented f curr _ = none

unfoldable pub existing_array : Option Value → List Value
unfolding elements
existing_array (some (array vs)) = elements vs
existing_array _ = []

-- `found`, and `remove`: one of `vs` equals the value.
unfoldable pub contains : Protobuf → List Value → Value → Bool
contains pb vs v = any (λ e. pb.equal e v) vs

-- The incoming values that the existing array lacks.
unfoldable pub missing : Protobuf → List Value → List Value → List Value
unfolding contains
missing pb existing [] = []
missing pb existing (v ∷ vs) =
    let rest = missing pb existing vs in if contains pb existing v then rest else v ∷ rest

-- `proto.Equal(e, r)` for one of the values to remove.
unfoldable pub is_removed : Protobuf → List Value → Value → Bool
is_removed pb to_remove e = any (λ r. pb.equal e r) to_remove

unfoldable pub kept : Protobuf → List Value → List Value → List Value
unfolding is_removed
kept pb to_remove [] = []
kept pb to_remove (e ∷ es) =
    let rest = kept pb to_remove es in if is_removed pb to_remove e then rest else e ∷ rest

-- What one transform makes of the field's current value: the value to set, if any, and the
-- result to report, if one is reported.
unfoldable pub transformed :
    Float64
    → Protobuf
    → ℕ
    → Option Value
    → TransformType
    → Result (Option Value × List (Option Value))
unfolding incremented existing_array missing kept array_of
transformed f pb now curr (set_to_server_value true) =
    ok (some (timestamp now), some (timestamp now) ∷ [])
transformed f pb now curr (set_to_server_value false) = ok (none, none ∷ [])
transformed f pb now curr (increment delta) = elim (incremented f curr delta) [
  | none ↦ err invalid_argument
  | some v ↦ ok (some v, some v ∷ [])
]
transformed f pb now curr (append_missing_elements incoming) =
    let existing = existing_array curr in
    let v = array (array_of (existing ++ missing pb existing incoming)) in ok (some v, some v ∷ [])
transformed f pb now none (remove_all_from_array to_remove) =
    ok (none, some (array (array_of [])) ∷ [])
transformed f pb now (some c) (remove_all_from_array to_remove) =
    let v = array (array_of (kept pb to_remove (existing_array (some c)))) in
    ok (some v, some v ∷ [])
transformed f pb now curr unknown_transform = ok (none, [])

unfoldable pub set_if_some : String → Option Value → Fields → Fields
unfolding nested_set_value
set_if_some fp none fields = fields
set_if_some fp (some v) fields = nested_set_value fields fp v

-- What the rest of the loop returns, after the results that were there.
unfoldable pub after :
    List (Option Value)
    → Result (Fields × List (Option Value))
    → Result (Fields × List (Option Value))
after reported (err e) = err e
after reported (ok (out, results)) = ok (out, reported ++ results)

-- The rest of the loop, `rest`, after one transform.
unfoldable pub continue :
    (Option Value → Result (Fields × List (Option Value)))
    → Result (Option Value × List (Option Value))
    → Result (Fields × List (Option Value))
unfolding after
continue rest (err e) = err e
continue rest (ok (set, reported)) = after reported (rest set)

-- The loop: every transform reads the current fields, and writes into the copy.
unfoldable pub apply_field_transforms :
    Float64
    → Protobuf
    → ℕ
    → Fields
    → Fields
    → List FieldTransform
    → Result (Fields × List (Option Value))
unfolding transformed set_if_some nested_get_value continue
apply_field_transforms f pb now curr fields [] = ok (fields, [])
apply_field_transforms f pb now curr fields (t ∷ ts) =
    continue (λ set. apply_field_transforms f pb now curr (set_if_some t.field_path set fields) ts)
      (transformed f pb now (nested_get_value curr t.field_path) t.kind)
