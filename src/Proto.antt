-- ===== src/Proto.antt =====
-- The Firestore messages (gen/go/google/firestore/v1) that the handlers and the codec read and
-- build, and what the program takes from outside: IEEE 754 arithmetic and the protobuf runtime.
--
-- A double is its 64-bit pattern and a time is in nanoseconds since Go's zero time. A Go map of
-- fields is an association list in which a write replaces the first entry of its key.
pub mod Dict
use embyr.Base.{ℕ, String, Bool, List, Option}
use embyr.Base.Int.{ℤ}

mutual
  -- `Value`; `unset` is a value whose oneof is not set.
  pub data Value : Type 0 where
    unset null : Value
    boolean : Bool → Value
    integer : ℤ → Value
    double : ℕ → Value
    timestamp : ℕ → Value
    string : String → Value
    bytes : List ℕ → Value
    reference : String → Value
    geo_point : ℕ → ℕ → Value
    array : Values → Value
    map : Fields → Value

  pub data Values : Type 0 where
    nil : Values
    cons : Value → Values → Values

  -- A `map[string]*Value`.
  pub data Fields : Type 0 where
    end : Fields
    field : String → Value → Fields → Fields

-- `Document`, with what the handlers read of it.
pub record ProtoDocument : Type 0 where
  pub name : String
  pub fields : Fields
  pub create_time : ℕ
  pub update_time : ℕ

-- float64 arithmetic on bit patterns.
pub record Float64 : Type 0 where
  pub of_int : ℤ → ℕ
  pub add : ℕ → ℕ → ℕ
  pub eq : ℕ → ℕ → Bool
  pub lt : ℕ → ℕ → Bool
  pub is_nan : ℕ → Bool

-- The protobuf runtime: protojson on a fields-only document and on one value (`none` is an
-- error), the text of `Value.String`, and `proto.Equal`.
pub record Protobuf : Type 0 where
  pub marshal_fields : Fields → Option String
  pub unmarshal_fields : String → Option Fields
  pub marshal_value : Value → Option String
  pub value_text : Value → String
  pub equal : Value → Value → Bool

pub data CompositeOp : Type 0 where
  op_unspecified op_and op_or : CompositeOp

pub data UnaryOp : Type 0 where
  unary_unspecified is_nan is_null is_not_nan is_not_null : UnaryOp

pub data FieldOp : Type 0 where
  field_op_unspecified : FieldOp
  less_than less_than_or_equal greater_than greater_than_or_equal : FieldOp
  equal not_equal array_contains is_in array_contains_any not_in : FieldOp

-- `StructuredQuery.Filter`, a oneof; a field filter may lack its value.
mutual
  pub data Filter : Type 0 where
    no_filter : Filter
    composite : CompositeOp → Filters → Filter
    field_filter : String → FieldOp → Option Value → Filter
    unary : UnaryOp → String → Filter

  pub data Filters : Type 0 where
    none_left : Filters
    and_then : Filter → Filters → Filters

pub record Order : Type 0 where
  pub field : String
  pub descending : Bool

pub record ProtoCursor : Type 0 where
  pub values : List Value
  pub before : Bool

-- `StructuredQuery`: `from` has the collection identifiers, `limit` the wrapped int32.
pub record StructuredQuery : Type 0 where
  pub from : List String
  pub where_filter : Option Filter
  pub order_by : List Order
  pub limit : Option ℤ
  pub start_at : Option ProtoCursor
  pub end_at : Option ProtoCursor
