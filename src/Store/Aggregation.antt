-- ===== src/Store/Aggregation.antt =====
-- Aggregations over a query (internal/store/query.go).
use embyr.Base.{ℕ, String, Bool, false, List}
use embyr.Base.Int.{ℤ, pos}
use embyr.Store.{Query}

pub data AggregationOp : Type 0 where
  count sum avg : AggregationOp

-- `Aggregation`: the field is empty for a count.
pub record Aggregation : Type 0 where
  pub op : AggregationOp
  pub field : String
  pub alias : String

pub record AggregationQuery : Type 0 where
  pub base : Query
  pub aggregations : List Aggregation

-- `AggregateValue`. A double is its 64-bit pattern.
pub record AggregateValue : Type 0 where
  pub is_null : Bool
  pub is_int : Bool
  pub int_val : ℤ
  pub is_float : Bool
  pub float_val : ℕ

-- The values that the backends build; Go zeroes the fields that are not named.
abbrev pub zero_value : AggregateValue
zero_value = record {
  is_null = false;
  is_int = false;
  int_val = pos 0;
  is_float = false;
  float_val = 0;
}
