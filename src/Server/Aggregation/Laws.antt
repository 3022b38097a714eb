-- ===== src/Server/Aggregation/Laws.antt =====
-- What the response of `RunAggregationQuery` has under each alias.
use embyr.Base.{ℕ, String, false, List, [], ◌∷◌, Option, none, some, ◌≡◌, str_eq}
use embyr.Base.Int.{pos}
use embyr.Proto.{Value, null, integer, double}
use embyr.Store.Aggregation.{AggregationOp, count, sum, avg, Aggregation, AggregateValue}
use embyr.Sqlite.Table.{Row}
use embyr.Sqlite.Adapter.{Adapter}
use embyr.Sqlite.Paging.{Statement}
use embyr.Sqlite.Aggregation.{Columns, aggregate_value}

-- What the response should have for a column: an integer for a count and a sum, a double for an
-- average. NULL is a sum of nothing, which is 0, or an average of nothing, which is null.
abbrev pub answer : Columns → AggregationOp → Option ℕ → Value
answer sql count none = null
answer sql count (some f) = integer (sql.to_int64 f)
answer sql sum none = integer (pos 0)
answer sql sum (some f) = integer (sql.to_int64 f)
answer sql avg none = null
answer sql avg (some f) = double f

-- No aggregation of the list has the alias.
abbrev pub IsUnused : String → List Aggregation → Type 0
IsUnused alias [] = Unit
IsUnused alias (g ∷ gs) = (str_eq g.alias alias ≡ false) × IsUnused alias gs

module _ (sql : Columns) (st : Statement) (rows : List Row) where
  -- The value that the handler makes of an aggregation.
  abbrev value_for : Aggregation → AggregateValue
  value_for agg = aggregate_value sql agg.op (sql.column agg.op agg.field st rows)
