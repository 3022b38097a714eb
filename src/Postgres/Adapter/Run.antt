-- ===== src/Postgres/Adapter/Run.antt =====
-- Every call of the PostgreSQL adapter, and sequences of calls.
use embyr.Base.{
  String, false, List, [], ◌∷◌, ◌++◌, map, Option, none, some, ◌≡◌, str_eq, if◌then◌else◌,
}
use embyr.Base.Result.{invalid_argument, unknown, Result, err}
use embyr.Store.{Document, WriteMode, upsert, update, insert_only, DocChange, DocChangeKind}
use embyr.Store.Path.{parse_path}
use embyr.Sqlite.Spec.{
  Model, Outcome, Op, create, write, delete, get, refuse, spec_write, spec_delete, spec_get,
  stamped,
}
use embyr.Sqlite.Refine.{some_result, none_result}
use embyr.Sqlite.Adapter.{or_time}
use embyr.Postgres.Adapter.{
  Database, Adapter, encoded, create_document, get_document, update_document, delete_document,
}
use embyr.Postgres.Adapter.Refine.{key}

-- A write whose document was cast.
abbrev cast : WriteMode → Option Document → Model → Outcome
cast mode none m = refuse unknown m
cast mode (some d) m = spec_write mode d (m d.path) m

-- What a write promises: that of the document as its columns keep it.
abbrev pub stored_write : Database → WriteMode → Document → Model → Outcome
stored_write db upsert d m =
    if str_eq (parse_path d.path).0 ""
    then refuse invalid_argument m
    else cast upsert (encoded db d) m
stored_write db update d m = cast update (encoded db d) m
stored_write db insert_only d m =
    if str_eq (parse_path d.path).0 ""
    then refuse invalid_argument m
    else cast insert_only (encoded db d) m

abbrev pub stored_spec : Database → Op → Model → Outcome
stored_spec db (create now d) m = stored_write db insert_only (stamped now now d) m
stored_spec db (write now d mode) m =
    stored_write db mode (stamped (or_time d.updated_at now) now d) m
stored_spec db (delete path must) m = spec_delete path must (m path) m
stored_spec db (get path) m = spec_get (m path) m

-- A call of the adapter.
unfoldable pub apply : Database → Op → Adapter → Result (Option Document) × Adapter
unfolding create_document update_document delete_document get_document
apply db (create now d) a = let (r, a') = create_document db now d a in (some_result r, a')
apply db (write now d mode) a = let (r, a') = update_document db now d mode a in (some_result r, a')
apply db (delete path must) a = let (r, a') = delete_document db path must a in (none_result r, a')
apply db (get path) a = let (r, a') = get_document path a in (some_result r, a')

-- A sequence of calls: the results in order, and the adapter after the last.
unfoldable pub run : Database → List Op → Adapter → List (Result (Option Document)) × Adapter
run db [] a = ([], a)
run db (op ∷ ops) a = let (r, a') = apply db op a in let (rs, a'') = run db ops a' in (r ∷ rs, a'')

-- Results, a model and changes that the specification allows for a sequence of calls: a call is
-- answered as it says, or is an unknown error without effect since `pg_notify` refuses the payload
-- of its change.
pub data Follows (db : Database)
    : List Op
      → Model
      → List (Result (Option Document))
      → Model
      → List (String × DocChangeKind)
      → Type 0 where
  ended : {m : Model} → Follows db [] m [] m []
  answered :
      {op : Op} {ops : List Op} {m n : Model} {rs : List (Result (Option Document))}
      {ks : List (String × DocChangeKind)}
      → Follows db ops (stored_spec db op m).model rs n ks
      → Follows db
          (op ∷ ops)
          m
          ((stored_spec db op m).result ∷ rs)
          n
          (map key (stored_spec db op m).changes ++ ks)
  refused :
      {op : Op} {ops : List Op} {m n : Model} {rs : List (Result (Option Document))}
      {ks : List (String × DocChangeKind)} (c : DocChange)
      → db.accepts c ≡ false
      → key c ∷ [] ≡ map key (stored_spec db op m).changes
      → Follows db ops m rs n ks
      → Follows db (op ∷ ops) m (err unknown ∷ rs) n ks
