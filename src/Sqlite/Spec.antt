-- ===== src/Sqlite/Spec.antt =====
-- What a document store promises, with no table: a map from paths to documents. Each operation
-- gives its result, the map after it, and the changes of which it tells the subscribers.
use embyr.Base.{ℕ, ◌+◌, String, Bool, List, [], ◌∷◌, Option, none, some, str_eq, if◌then◌else◌}
use embyr.Base.Result.{Code, invalid_argument, not_found, already_exists, Result, ok, err}
use embyr.Store.{Document, WriteMode, upsert, update, insert_only, DocChange, upserted, deleted}
use embyr.Store.Path.{parse_path}
use embyr.Sqlite.Adapter.{or_time}

abbrev pub Model : Type 0
Model = String → Option Document

abbrev pub assign : String → Option Document → Model → Model
assign path d m other = if str_eq path other then d else m other

pub record Outcome : Type 0 where
  pub result : Result (Option Document)
  pub model : Model
  pub changes : List DocChange

abbrev pub refuse : Code → Model → Outcome
refuse c m = record { result = err c; model = m; changes = [] }

-- The next state of a document: a first version, or one more version that keeps the creation time.
abbrev pub next_version : Document → Option Document → Document
next_version d none = record d { version = 1 }
next_version d (some old) = record old {
  content = d.content;
  updated_at = d.updated_at;
  version = old.version + 1;
}

abbrev pub change_of : Document → DocChange
change_of d = record {
  path = d.path;
  collection = (parse_path d.path).0;
  parent = (parse_path d.path).1;
  kind = upserted;
  version = d.version;
  content = d.content;
}

abbrev pub accept : Document → Model → Outcome
accept d m = record {
  result = ok (some d);
  model = assign d.path (some d) m;
  changes = change_of d ∷ [];
}

-- What each mode demands of the path and of the document that is there.
abbrev pub spec_write : WriteMode → Document → Option Document → Model → Outcome
spec_write upsert d old m =
    if str_eq (parse_path d.path).0 ""
    then refuse invalid_argument m
    else accept (next_version d old) m
spec_write update d none m = refuse not_found m
spec_write update d (some old) m = accept (next_version d (some old)) m
spec_write insert_only d none m =
    if str_eq (parse_path d.path).0 ""
    then refuse invalid_argument m
    else accept (next_version d none) m
spec_write insert_only d (some old) m =
    if str_eq (parse_path d.path).0 "" then refuse invalid_argument m else refuse already_exists m

abbrev pub spec_delete : String → Bool → Option Document → Model → Outcome
spec_delete path must_exist none m =
    if must_exist then refuse not_found m else record { result = ok none; model = m; changes = [] }
spec_delete path must_exist (some old) m = record {
  result = ok none;
  model = assign path none m;
  changes =
      record {
        path = path;
        collection = (parse_path path).0;
        parent = (parse_path path).1;
        kind = deleted;
        version = 0;
        content = "";
      }
      ∷ [];
}

abbrev pub spec_get : Option Document → Model → Outcome
spec_get none m = refuse not_found m
spec_get (some d) m = record { result = ok (some d); model = m; changes = [] }

-- A call of the adapter. `create` and `write` carry the time of the call.
pub data Op : Type 0 where
  create : ℕ → Document → Op
  write : ℕ → Document → WriteMode → Op
  delete : String → Bool → Op
  get : String → Op

abbrev pub stamped : ℕ → ℕ → Document → Document
stamped created updated d = record d {
  created_at = or_time d.created_at created;
  updated_at = or_time d.updated_at updated;
}

abbrev pub spec : Op → Model → Outcome
spec (create now d) m = spec_write insert_only (stamped now now d) (m d.path) m
spec (write now d mode) m = spec_write mode (stamped (or_time d.updated_at now) now d) (m d.path) m
spec (delete path must_exist) m = spec_delete path must_exist (m path) m
spec (get path) m = spec_get (m path) m
