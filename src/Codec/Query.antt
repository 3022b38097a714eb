-- ===== src/Codec/Query.antt =====
-- Structured queries as store queries (internal/codec/query.go).
use embyr.Base.{
  ℕ, suc, String, Bool, true, false, List, [], ◌∷◌, Option, none, some, map, if◌then◌else◌,
}
use embyr.Base.Int.{ℤ, pos}
use embyr.Base.Result.{invalid_argument, unimplemented, Result, ok, err}
use embyr.Proto.{
  Protobuf, CompositeOp, op_and, UnaryOp, FieldOp, Filter, Filters, no_filter, composite,
  field_filter, unary, none_left, and_then, Order, ProtoCursor, StructuredQuery,
}
use embyr.Store.{
  FilterValue, FilterOp, FieldFilter, CompositeFilter, asc, desc, OrderBy, Cursor, Query,
}
use embyr.Codec.Values.{filter_value_from_proto, filter_value_of}

unfoldable pub proto_filter_op : FieldOp → Result FilterOp
proto_filter_op FieldOp.equal = ok FilterOp.equal
proto_filter_op FieldOp.not_equal = ok FilterOp.not_equal
proto_filter_op FieldOp.less_than = ok FilterOp.less_than
proto_filter_op FieldOp.less_than_or_equal = ok FilterOp.less_than_or_equal
proto_filter_op FieldOp.greater_than = ok FilterOp.greater_than
proto_filter_op FieldOp.greater_than_or_equal = ok FilterOp.greater_than_or_equal
proto_filter_op FieldOp.is_in = ok FilterOp.is_in
proto_filter_op FieldOp.not_in = ok FilterOp.not_in
proto_filter_op FieldOp.array_contains = ok FilterOp.array_contains
proto_filter_op FieldOp.array_contains_any = ok FilterOp.array_contains_any
proto_filter_op FieldOp.field_op_unspecified = err unimplemented

unfoldable pub proto_field_filter : Protobuf → Filter → Result FieldFilter
unfolding proto_filter_op filter_value_of
proto_field_filter pb (unary UnaryOp.is_null path) =
    ok (record { field = path; op = FilterOp.equal; value = FilterValue.null })
proto_field_filter pb (unary UnaryOp.is_not_null path) =
    ok (record { field = path; op = FilterOp.not_equal; value = FilterValue.null })
proto_field_filter pb (unary UnaryOp.unary_unspecified path) = err unimplemented
proto_field_filter pb (unary UnaryOp.is_nan path) = err unimplemented
proto_field_filter pb (unary UnaryOp.is_not_nan path) = err unimplemented
proto_field_filter pb (field_filter path op v) = elim (proto_filter_op op) [
  | err e ↦ err e
  | ok o ↦ ok (record { field = path; op = o; value = filter_value_of pb v })
]
proto_field_filter pb (composite op fs) = err invalid_argument
proto_field_filter pb no_filter = err invalid_argument

-- The loop over the filters of a composite filter.
unfoldable pub proto_field_filters : Protobuf → Filters → Result CompositeFilter
unfolding proto_field_filter
proto_field_filters pb none_left = ok []
proto_field_filters pb (and_then f fs) = elim (proto_field_filter pb f) [
  | err e ↦ err e
  | ok ff ↦ elim (proto_field_filters pb fs) [ err e ↦ err e | ok ffs ↦ ok (ff ∷ ffs) ]
]

unfoldable pub is_and : CompositeOp → Bool
is_and op_and = true
is_and _ = false

-- A single filter, as a composite of one.
unfoldable pub single : Result FieldFilter → Result (Option CompositeFilter)
single (ok ff) = ok (some (ff ∷ []))
single (err e) = err e

unfoldable pub proto_composite_filter : Protobuf → Option Filter → Result (Option CompositeFilter)
unfolding proto_field_filter proto_field_filters is_and single
proto_composite_filter pb none = ok none
proto_composite_filter pb (some (composite op fs)) =
    if is_and op
    then elim (proto_field_filters pb fs) [ err e ↦ err e | ok ffs ↦ ok (some ffs) ]
    else err unimplemented
proto_composite_filter pb (some no_filter) = single (proto_field_filter pb no_filter)
proto_composite_filter pb (some (field_filter path op v)) =
    single (proto_field_filter pb (field_filter path op v))
proto_composite_filter pb (some (unary op path)) = single (proto_field_filter pb (unary op path))

unfoldable pub proto_order_by : Order → OrderBy
proto_order_by o = record { field = o.field; direction = if o.descending then desc else asc }

unfoldable pub proto_cursor : Protobuf → Bool → ProtoCursor → Cursor
unfolding filter_value_from_proto
proto_cursor pb is_end c = record {
  values = map (filter_value_from_proto pb) c.values;
  before = c.before;
  is_end = is_end;
}

unfoldable pub cursor_of : Protobuf → Bool → Option ProtoCursor → Option Cursor
unfolding proto_cursor
cursor_of pb is_end none = none
cursor_of pb is_end (some c) = some (proto_cursor pb is_end c)

-- `Limit` and `PageSize`: the query's own limit, else the caller's, else 300.
unfoldable pub sizes : Option ℤ → ℤ → ℤ × ℤ
sizes (some (pos (suc n))) limit = (pos (suc n), pos (suc n))
sizes _ (pos (suc n)) = (pos 0, pos (suc n))
sizes _ _ = (pos 0, pos 300)

unfoldable pub query_of :
    Protobuf → String → String → StructuredQuery → ℤ → List ℕ → Option CompositeFilter → Query
unfolding proto_order_by cursor_of sizes
query_of pb parent collection_id sq limit page_token filter = record {
  parent = parent;
  collection_id = collection_id;
  filter = filter;
  order_by = map proto_order_by sq.order_by;
  limit = (sizes sq.limit limit).0;
  start_cursor = cursor_of pb false sq.start_at;
  end_cursor = cursor_of pb true sq.end_at;
  page_token = page_token;
  page_size = (sizes sq.limit limit).1;
}

-- The guards on `from`: exactly one collection.
unfoldable pub only_collection : List String → Result String
only_collection [] = err invalid_argument
only_collection (c ∷ []) = ok c
only_collection (c ∷ d ∷ cs) = err unimplemented

unfoldable pub query_from_structured_query :
    Protobuf → String → StructuredQuery → ℤ → List ℕ → Result Query
unfolding proto_composite_filter query_of only_collection
query_from_structured_query pb parent sq limit page_token = elim (only_collection sq.from) [
  | err e ↦ err e
  | ok collection_id ↦ elim (proto_composite_filter pb sq.where_filter) [
    | err e ↦ err e
    | ok filter ↦ ok (query_of pb parent collection_id sq limit page_token filter)
  ]
]
