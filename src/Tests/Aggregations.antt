-- ===== src/Tests/Aggregations.antt =====
-- Aggregation queries at concrete inputs.
use embyr.Base.{List, [], ◌∷◌, map, length, String, none, some}
use embyr.Base.Int.{pos}
use embyr.Store.{Document, Query}
use embyr.Store.Aggregation.{count, sum, avg, Aggregation, AggregationQuery}
use embyr.Proto.{StructuredQuery}
use embyr.Codec.Aggregation.{ProtoAggregation, count_all, sum_of, AggregationRequest}
use embyr.Sqlite.Table.{Row, document_of}
use embyr.Sqlite.Paging.{Statement}
use embyr.Sqlite.Aggregation.{Columns}

-- A database that selects every row, and whose doubles are small natural numbers.
every_row : Statement → List Row → List Document
every_row st rows = map document_of rows

abbrev columns : Columns
unfolding every_row
columns = record {
  column = λ op name st rows. elim op [
    | count ↦ some (length (every_row st rows))
    | sum ↦ some 7
    | avg ↦ none
  ];
  to_int64 = λ f. pos f;
}

abbrev parent : String
parent = "projects/p/databases/d/documents"

abbrev users : StructuredQuery
users = record {
  from = "users" ∷ [];
  where_filter = none;
  order_by = [];
  limit = none;
  start_at = none;
  end_at = none;
}

abbrev asked : List ProtoAggregation
asked =
    record { alias = ""; operator = count_all }
    ∷ record { alias = "total"; operator = sum_of "age" }
    ∷ []

abbrev base : Query
base = record {
  parent = parent;
  collection_id = "users";
  filter = none;
  order_by = [];
  limit = pos 0;
  start_cursor = none;
  end_cursor = none;
  page_token = [];
  page_size = pos 300;
}

abbrev counting : Aggregation
counting = record { op = count; field = ""; alias = "field_0" }

abbrev adding : Aggregation
adding = record { op = sum; field = "age"; alias = "total" }

abbrev request : AggregationRequest
request = record { structured_query = some users; aggregations = asked }

abbrev accepted : AggregationQuery
accepted = record { base = base; aggregations = counting ∷ adding ∷ [] }
