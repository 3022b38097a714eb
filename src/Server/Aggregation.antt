-- ===== src/Server/Aggregation.antt =====
-- `RunAggregationQuery` (internal/server/aggregation.go), over the SQLite backend.
pub mod Laws
pub mod Count
use embyr.Base.{String, List, [], ◌∷◌, Option, if◌then◌else◌}
use embyr.Base.Result.{Result, ok, err}
use embyr.Proto.{Value, null, integer, double, Fields, end, Protobuf}
use embyr.Proto.Dict.{insert}
use embyr.Store.Aggregation.{AggregateValue}
use embyr.Codec.Aggregation.{AggregationRequest, aggregation_query_from_proto}
use embyr.Sqlite.Adapter.{Adapter}
use embyr.Sqlite.Aggregation.{Columns, aggregate}

unfoldable pub value_of_aggregate : AggregateValue → Value
value_of_aggregate av =
    if av.is_null then null else if av.is_int then integer av.int_val else double av.float_val

unfoldable pub aggregate_fields : List (String × AggregateValue) → Fields
unfolding value_of_aggregate insert
aggregate_fields [] = end
aggregate_fields ((alias, av) ∷ results) =
    insert alias (value_of_aggregate av) (aggregate_fields results)

-- The aggregate fields of the response that the handler sends.
unfoldable pub run_aggregation_query :
    Protobuf → Columns → String → Option AggregationRequest → Adapter → Result Fields
unfolding aggregation_query_from_proto aggregate aggregate_fields
run_aggregation_query pb sql parent saq a = elim (aggregation_query_from_proto pb parent saq) [
  | err e ↦ err e
  | ok q ↦ elim (aggregate sql q a) [ err e ↦ err e | ok results ↦ ok (aggregate_fields results) ]
]
