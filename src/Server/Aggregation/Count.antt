-- ===== src/Server/Aggregation/Count.antt =====
-- `RunAggregationQuery` and `RunQuery` on the same structured query.
use embyr.Base.{ℕ, ◌≤◌, ◌^◌, String, List, [], none, some, ◌≡◌, length}
use embyr.Base.Int.{pos}
use embyr.Base.Result.{Result}
use embyr.Store.{Document, Query}
use embyr.Store.Aggregation.{count, Aggregation}
use embyr.Sqlite.Table.{Row}
use embyr.Sqlite.Adapter.{Adapter}
use embyr.Sqlite.Paging.{Statement}
use embyr.Sqlite.Aggregation.{Columns}

-- COUNT(*) counts the rows that the same SELECT gives, in any order, and a float64 holds that
-- number exactly up to 2^53.
abbrev pub Counts : Columns → (Statement → List Row → List Document) → Type 0
Counts sql select =
    (st : Statement) (rows : List Row) (field : String)
    → st.start_cursor ≡ none
    → st.end_cursor ≡ none
    → length (select st rows) ≤ 2 ^ 53
    → (f : ℕ) × (sql.column count field (record st { order_by = [] }) rows ≡ some f)
      × (sql.to_int64 f ≡ pos (length (select st rows)))
