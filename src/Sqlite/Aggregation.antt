-- ===== src/Sqlite/Aggregation.antt =====
-- `RunAggregationQuery` of internal/store/sqlite/sqlite.go. A Go map is an association list in
-- which a write replaces the entry of its key.
use embyr.Base.{
  ℕ, String, Bool, true, List, [], ◌∷◌, Option, none, some, if◌then◌else◌, str_eq, all, ◌&&◌,
}
use embyr.Base.Int.{ℤ, pos}
use embyr.Base.Result.{invalid_argument, Result, ok, err}
use embyr.Store.{Query}
use embyr.Store.Aggregation.{
  AggregationOp, count, sum, avg, Aggregation, AggregationQuery, AggregateValue, zero_value,
}
use embyr.Sqlite.Table.{Row}
use embyr.Sqlite.Adapter.{Adapter}
use embyr.Sqlite.Paging.{Statement, filters_of, valid_field_path, valid_statement}

-- SQLite and Go: the value of an aggregation's column over the rows of a statement (`none` is
-- NULL), as a float64, and the conversion of a float64 to int64.
pub record Columns : Type 0 where
  pub column : AggregationOp → String → Statement → List Row → Option ℕ
  pub to_int64 : ℕ → ℤ

-- The WHERE clause has the parent, the collection and the filters, and no cursor.
unfoldable pub aggregated : Query → Statement
unfolding filters_of
aggregated q = record {
  parent = q.parent;
  collection_id = q.collection_id;
  filters = filters_of q.filter;
  order_by = [];
  start_cursor = none;
  end_cursor = none;
}

unfoldable pub valid_aggregation : Aggregation → Bool
unfolding valid_field_path
valid_aggregation agg = elim agg.op [
  | count ↦ true
  | sum ↦ valid_field_path agg.field
  | avg ↦ valid_field_path agg.field
]

unfoldable pub aggregate_value : Columns → AggregationOp → Option ℕ → AggregateValue
aggregate_value sql sum none = record zero_value { is_int = true; int_val = pos 0 }
aggregate_value sql count none = record zero_value { is_null = true }
aggregate_value sql avg none = record zero_value { is_null = true }
aggregate_value sql count (some f) = record zero_value { is_int = true; int_val = sql.to_int64 f }
aggregate_value sql sum (some f) = record zero_value { is_int = true; int_val = sql.to_int64 f }
aggregate_value sql avg (some f) = record zero_value { is_float = true; float_val = f }

unfoldable pub assign :
    String → AggregateValue → List (String × AggregateValue) → List (String × AggregateValue)
assign key v [] = (key, v) ∷ []
assign key v ((k, w) ∷ m) = if str_eq k key then (key, v) ∷ m else (k, w) ∷ assign key v m

-- The loop that fills the map.
unfoldable pub aggregate_results :
    Columns
    → Statement
    → List Row
    → List Aggregation
    → List (String × AggregateValue)
    → List (String × AggregateValue)
unfolding aggregate_value assign
aggregate_results sql st rows [] m = m
aggregate_results sql st rows (agg ∷ aggs) m =
    aggregate_results sql st rows aggs
      (assign agg.alias (aggregate_value sql agg.op (sql.column agg.op agg.field st rows)) m)

-- The call, when the statement itself does not fail.
unfoldable pub aggregate :
    Columns → AggregationQuery → Adapter → Result (List (String × AggregateValue))
unfolding aggregated valid_aggregation valid_statement aggregate_results
aggregate sql q a =
    if all valid_aggregation q.aggregations && valid_statement (aggregated q.base)
    then ok (aggregate_results sql (aggregated q.base) a.documents q.aggregations [])
    else err invalid_argument
