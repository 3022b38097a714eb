-- ===== src/Codec/Aggregation.antt =====
-- `AggregationQueryFromProto` (internal/codec/query.go).
use Prim.Native.String.{slice, ◌++◌ as str_append}
use embyr.Base.{
  ℕ, zero, suc, ◌+◌, ◌/◌, ◌%◌, String, List, [], ◌∷◌, Option, none, some, ltb, if◌then◌else◌,
  str_eq,
}
use embyr.Base.Int.{pos}
use embyr.Base.Result.{invalid_argument, unimplemented, Result, ok, err}
use embyr.Proto.{Protobuf, StructuredQuery}
use embyr.Store.{Query}
use embyr.Store.Aggregation.{count, sum, avg, Aggregation, AggregationQuery}
use embyr.Codec.Query.{query_from_structured_query}

-- The oneof of an aggregation; `Sum` and `Avg` have the path of their field.
pub data Operator : Type 0 where
  unset_operator count_all : Operator
  sum_of avg_of : String → Operator

pub record ProtoAggregation : Type 0 where
  pub alias : String
  pub operator : Operator

-- `StructuredAggregationQuery`
pub record AggregationRequest : Type 0 where
  pub structured_query : Option StructuredQuery
  pub aggregations : List ProtoAggregation

-- The decimal digits of `n` in front of a text.
digits_before : ℕ → ℕ → String → String
digits_before zero n acc = acc
digits_before (suc fuel) n acc =
    let digit = slice "0123456789" (n % 10) (n % 10 + 1) in
    let more = digits_before fuel (n / 10) (str_append digit acc) in
    if ltb n 10 then str_append digit acc else more

-- `fmt.Sprintf("field_%d", i)` for a missing alias.
unfoldable pub alias_or_field : ℕ → String → String
unfolding digits_before
alias_or_field i alias =
    if str_eq alias "" then str_append "field_" (digits_before (i + 1) i "") else alias

unfoldable pub store_aggregation : ℕ → ProtoAggregation → Result Aggregation
unfolding alias_or_field
store_aggregation i p = elim p.operator [
  | unset_operator ↦ err unimplemented
  | count_all ↦ ok (record { op = count; field = ""; alias = alias_or_field i p.alias })
  | sum_of path ↦ ok (record { op = sum; field = path; alias = alias_or_field i p.alias })
  | avg_of path ↦ ok (record { op = avg; field = path; alias = alias_or_field i p.alias })
]

-- The loop over the aggregations, from the index `i` on.
unfoldable pub store_aggregations : ℕ → List ProtoAggregation → Result (List Aggregation)
unfolding store_aggregation
store_aggregations i [] = ok []
store_aggregations i (p ∷ ps) = elim (store_aggregation i p) [
  | err e ↦ err e
  | ok agg ↦ elim (store_aggregations (suc i) ps) [ err e ↦ err e | ok aggs ↦ ok (agg ∷ aggs) ]
]

unfoldable pub with_aggregations : Query → List ProtoAggregation → Result AggregationQuery
unfolding store_aggregations
with_aggregations base [] = err invalid_argument
with_aggregations base (p ∷ ps) = elim (store_aggregations 0 (p ∷ ps)) [
  | err e ↦ err e
  | ok aggs ↦ ok (record { base = base; aggregations = aggs })
]

unfoldable pub aggregation_query_from_proto :
    Protobuf → String → Option AggregationRequest → Result AggregationQuery
unfolding query_from_structured_query with_aggregations
aggregation_query_from_proto pb parent none = err invalid_argument
aggregation_query_from_proto pb parent (some saq) = elim saq.structured_query [
  | none ↦ err invalid_argument
  | some sq ↦ elim (query_from_structured_query pb parent sq (pos 0) []) [
    | err e ↦ err e
    | ok base ↦ with_aggregations base saq.aggregations
  ]
]
