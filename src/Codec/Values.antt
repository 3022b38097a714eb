-- ===== src/Codec/Values.antt =====
-- Values as filter operands (`FilterValueFromProto` of internal/codec/query.go).
use embyr.Base.{List, [], ◌∷◌, Option, none, some}
use embyr.Proto.{
  Value, Values, unset, null, boolean, integer, double, timestamp, string, bytes, reference,
  geo_point, array, map, nil, cons, Protobuf,
}
use embyr.Store.{FilterValue, FilterValues}

-- A value of a kind that has no operand of its own: its protojson, or its text where that fails.
unfoldable pub serialized : Protobuf → Value → FilterValue
serialized pb v = elim (pb.marshal_value v) [
  | some b ↦ FilterValue.json b
  | none ↦ FilterValue.string (pb.value_text v)
]

unfoldable mutual
  unfolding serialized

  pub filter_value_from_proto : Protobuf → Value → FilterValue
  filter_value_from_proto pb null = FilterValue.null
  filter_value_from_proto pb (boolean b) = FilterValue.bool b
  filter_value_from_proto pb (integer i) = FilterValue.int i
  filter_value_from_proto pb (double d) = FilterValue.double d
  filter_value_from_proto pb (string s) = FilterValue.string s
  filter_value_from_proto pb (timestamp t) = FilterValue.time t
  filter_value_from_proto pb (array vs) = FilterValue.array (filter_values_from_proto pb vs)
  filter_value_from_proto pb unset = serialized pb unset
  filter_value_from_proto pb (bytes b) = serialized pb (bytes b)
  filter_value_from_proto pb (reference r) = serialized pb (reference r)
  filter_value_from_proto pb (geo_point x y) = serialized pb (geo_point x y)
  filter_value_from_proto pb (map m) = serialized pb (map m)

  pub filter_values_from_proto : Protobuf → Values → FilterValues
  filter_values_from_proto pb nil = FilterValues.nil
  filter_values_from_proto pb (cons v vs) =
      FilterValues.cons (filter_value_from_proto pb v) (filter_values_from_proto pb vs)

-- A value that may be missing; a missing one is null.
unfoldable pub filter_value_of : Protobuf → Option Value → FilterValue
unfolding filter_value_from_proto
filter_value_of pb none = FilterValue.null
filter_value_of pb (some v) = filter_value_from_proto pb v

unfoldable pub operands : FilterValues → List FilterValue
operands FilterValues.nil = []
operands (FilterValues.cons v vs) = v ∷ operands vs

-- `ArrayVals`, which only an array has.
unfoldable pub array_vals : FilterValue → List FilterValue
unfolding operands
array_vals (FilterValue.array vs) = operands vs
array_vals _ = []
