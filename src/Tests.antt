-- ===== src/Tests.antt =====
-- Inputs for the examples: a database with one document, and stand-ins for what the program
-- takes from outside.
mod Stores
mod Databases
mod Requests
mod Filters
mod Aggregations
mod Calls
mod Reads
mod Streams
mod Writes
mod Postgres
mod Channels
use Prim.Native.Nat.{compare, Ordering}
use embyr.Base.{
  refl, ℕ, ◌+◌, String, Bool, true, false, List, [], ◌∷◌, Option, none, some, ◌==◌, ltb,
}
use embyr.Base.Int.{ℤ, pos, negsuc}
use embyr.Store.{Document}
use embyr.Proto.{Value, Fields, end, field, integer, string, map, Float64, Protobuf}
use embyr.Sqlite.Table.{Row}
use embyr.Sqlite.Transaction.Isolation.{set_entry, SetsKeys}
use embyr.Sqlite.Adapter.{Adapter, TxRow}

abbrev pub ada : String
ada = "projects/p/databases/d/documents/users/ada"

abbrev pub users : String
users = "projects/p/databases/d/documents"

abbrev pub ada_row : Row
ada_row = record {
  path = "projects/p/databases/d/documents/users/ada";
  collection = "users";
  parent = "projects/p/databases/d/documents";
  content = "{}";
  created_at = 1000;
  updated_at = 2000;
  version = 3;
}

abbrev pub bob_row : Row
bob_row = record {
  path = "projects/p/databases/d/documents/users/bob";
  collection = "users";
  parent = "projects/p/databases/d/documents";
  content = "{}";
  created_at = 1000;
  updated_at = 2000;
  version = 1;
}

-- A `json_set` for keys: the JSON path without its `$.`.
abbrev pub after_dollar : String → String
after_dollar (String.◌∷◌ c (String.◌∷◌ d key)) = key
after_dollar key = key

abbrev pub database : Adapter
database = record {
  documents = ada_row ∷ bob_row ∷ [];
  transactions = record { id = "t1"; started_at = 5; reads = []; expires_at = 60 } ∷ [];
  subs = [];
  sub_next = 0;
  tx_ttl = pos 0;
  json_set = λ reads key v. some (set_entry (after_dollar key) v reads);
}

abbrev pub new_ada : Document
new_ada = record {
  path = "projects/p/databases/d/documents/users/ada";
  content = "new";
  created_at = 0;
  updated_at = 0;
  version = 1;
}

-- Doubles that are small natural numbers, with no NaN.
abbrev pub floats : Float64
floats = record {
  of_int = λ i. elim i [ pos n ↦ n | negsuc n ↦ 0 ];
  add = λ a b. a + b;
  eq = λ a b. a == b;
  lt = λ a b. ltb a b;
  is_nan = λ a. false;
}

-- A runtime that prints every value alike and takes all values as equal.
abbrev pub runtime : Protobuf
runtime = record {
  marshal_fields = λ m. some "{}";
  unmarshal_fields = λ s. some end;
  marshal_value = λ v. some "{}";
  value_text = λ v. "";
  equal = λ v w. true;
}

abbrev pub profile : Fields
profile = field "age" (integer (pos 36)) (field "name" (string "Ada") end)

abbrev pub document : Fields
document = field "profile" (map profile) (field "visits" (integer (pos 4)) end)

abbrev pub incoming : Fields
incoming = field "profile" (map (field "age" (integer (pos 37)) end)) end

pub database-SetsKeys : SetsKeys database
database-SetsKeys path reads v key = refl
