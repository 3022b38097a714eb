-- ===== src/Store.antt =====
-- internal/store: the data that handlers and storage backends exchange (doc.go, query.go,
-- change.go, page.go). Times are nanoseconds since Go's zero time, so `IsZero` is a test for 0.
-- Versions are int64 counters, which 2^63 writes of one document would exhaust; they are numbers
-- here. What a struct holds only for some kinds is an argument of that kind's constructor.
pub mod Path
pub mod Token
pub mod Page
pub mod Aggregation
use embyr.Base.{ℕ, String, Bool, List, Option}
use embyr.Base.Int.{ℤ}

-- `Document`: `content` is its `Data`, the protojson text of the fields.
pub record Document : Type 0 where
  pub path : String
  pub content : String
  pub created_at : ℕ
  pub updated_at : ℕ
  pub version : ℕ

pub data WriteMode : Type 0 where
  upsert update insert_only : WriteMode

-- `WriteOp`, with what each `WriteOpType` sets.
pub data WriteOp : Type 0 where
  put : Document → WriteMode → WriteOp
  delete : String → WriteOp

-- `CommitResult`: each `WriteResult` is its `UpdatedAt`.
pub record CommitResult : Type 0 where
  pub write_results : List ℕ
  pub commit_time : ℕ

pub data DocChangeKind : Type 0 where
  upserted deleted : DocChangeKind

pub record DocChange : Type 0 where
  pub path : String
  pub collection : String
  pub parent : String
  pub kind : DocChangeKind
  pub version : ℕ
  pub content : String

-- `FilterValue`: a constructor for each `FilterValueKind`. A double is its 64-bit pattern.
mutual
  pub data FilterValue : Type 0 where
    null : FilterValue
    bool : Bool → FilterValue
    int : ℤ → FilterValue
    double : ℕ → FilterValue
    string : String → FilterValue
    time : ℕ → FilterValue
    array : FilterValues → FilterValue
    json : String → FilterValue

  pub data FilterValues : Type 0 where
    nil : FilterValues
    cons : FilterValue → FilterValues → FilterValues

pub data FilterOp : Type 0 where
  equal not_equal less_than less_than_or_equal : FilterOp
  greater_than greater_than_or_equal : FilterOp
  is_in not_in array_contains array_contains_any : FilterOp

pub record FieldFilter : Type 0 where
  pub field : String
  pub op : FilterOp
  pub value : FilterValue

-- `CompositeFilter`: the filters, joined by AND.
abbrev pub CompositeFilter : Type 0
CompositeFilter = List FieldFilter

pub data Direction : Type 0 where
  asc desc : Direction

pub record OrderBy : Type 0 where
  pub field : String
  pub direction : Direction

pub record Cursor : Type 0 where
  pub values : List FilterValue
  pub before : Bool
  pub is_end : Bool

-- `Query`. The sizes are int32 values.
pub record Query : Type 0 where
  pub parent : String
  pub collection_id : String
  pub filter : Option CompositeFilter
  pub order_by : List OrderBy
  pub limit : ℤ
  pub start_cursor : Option Cursor
  pub end_cursor : Option Cursor
  pub page_token : List ℕ
  pub page_size : ℤ

-- `ListPage`. A page token is a list of bytes; the empty one means the last page.
pub record ListPage : Type 0 where
  pub documents : List Document
  pub next_page_token : List ℕ
