-- ===== src/Postgres/Aggregation.antt =====
-- `RunAggregationQuery` of internal/store/postgres/postgres.go: that of SQLite, but for the value of
-- a column that is NULL.
use embyr.Base.{ℕ, String, true, List, [], ◌∷◌, Option, none, some, if◌then◌else◌, all, ◌&&◌}
use embyr.Base.Result.{invalid_argument, Result, ok, err}
use embyr.Store.Aggregation.{
  AggregationOp, count, sum, avg, Aggregation, AggregationQuery, AggregateValue, zero_value,
}
use embyr.Sqlite.Table.{Row}
use embyr.Sqlite.Paging.{Statement, valid_statement}
use embyr.Sqlite.Aggregation.{Columns, aggregated, valid_aggregation, assign}
use embyr.Postgres.Adapter.{Adapter}

unfoldable pub aggregate_value : Columns → AggregationOp → Option ℕ → AggregateValue
aggregate_value sql op none = record zero_value { is_null = true }
aggregate_value sql count (some f) = record zero_value { is_int = true; int_val = sql.to_int64 f }
aggregate_value sql sum (some f) = record zero_value { is_int = true; int_val = sql.to_int64 f }
aggregate_value sql avg (some f) = record zero_value { is_float = true; float_val = f }

unfoldable pub aggregate_results :
    Columns
    → Statement
    → List Row
    → List Aggregation
    → List (String × AggregateValue)
    → List (String × AggregateValue)
unfolding aggregate_value assign
aggregate_results sql st rows [] m = m
aggregate_results sql st rows (agg ∷ aggs) m =
    aggregate_results sql st rows aggs
      (assign agg.alias (aggregate_value sql agg.op (sql.column agg.op agg.field st rows)) m)

unfoldable pub aggregate :
    Columns → AggregationQuery → Adapter → Result (List (String × AggregateValue))
unfolding aggregated valid_aggregation valid_statement aggregate_results
aggregate sql q a =
    if all valid_aggregation q.aggregations && valid_statement (aggregated q.base)
    then ok (aggregate_results sql (aggregated q.base) a.documents q.aggregations [])
    else err invalid_argument
