-- ===== src/Postgres/Adapter.antt =====
-- `Adapter` of internal/store/postgres/postgres.go: the document operations. The table is that of
-- SQLite, and the statements have the same effect on its rows; but PostgreSQL stores the data as
-- jsonb and the times with a resolution of its own, and announces each change of a row by the
-- trigger of migrations/postgres. Failures of the driver are not modelled.
pub mod Refine
pub mod Run
use embyr.Base.{
  ℕ, suc, ◌+◌, String, Bool, true, false, List, [], ◌∷◌, ◌++◌, Option, none, some, str_eq,
  if◌then◌else◌,
}
use embyr.Base.Int.{ℤ}
use embyr.Base.Result.{
  Code, invalid_argument, not_found, already_exists, unknown, Result, ok, err, Action,
}
use embyr.Store.{
  Document, WriteMode, upsert, update, insert_only, DocChange, DocChangeKind, upserted, deleted,
}
use embyr.Store.Path.{parse_path}
use embyr.Sqlite.Table.{Row, document_of, find_row, insert_doc, upsert_doc, update_doc, delete_doc}
use embyr.Sqlite.Adapter.{or_time}

-- PostgreSQL: the text of a jsonb value, where the cast succeeds; a time as a timestamptz keeps
-- it; whether a notification's payload has at most 7500 characters; and whether `pg_notify` accepts
-- the payload, which must have fewer than 8000 bytes.
pub record Database : Type 0 where
  pub jsonb : String → Option String
  pub timestamptz : ℕ → ℕ
  pub fits : DocChange → Bool
  pub accepts : DocChange → Bool

-- A row of the transactions table; `reads` is a jsonb object, with the version under each path.
pub record TxRow : Type 0 where
  pub id : String
  pub started_at : ℕ
  pub reads : List (String × ℕ)
  pub expires_at : ℕ

-- `notified` are the notifications that were sent, for the connections that listen.
pub record Adapter : Type 0 where
  pub documents : List Row
  pub transactions : List TxRow
  pub notified : List DocChange
  pub tx_ttl : ℤ

-- The trigger: a payload that is too long goes without its data.
unfoldable pub notify_doc_change : Database → DocChangeKind → Row → String → DocChange
notify_doc_change db kind r content =
    let c : DocChange = record {
      path = r.path;
      collection = r.collection;
      parent = r.parent;
      kind = kind;
      version = r.version;
      content = content;
    } in
    if db.fits c then c else record c { content = "" }

unfoldable pub with_content : Database → Document → Option String → Option Document
with_content db d none = none
with_content db d (some content) = some (record {
  path = d.path;
  content = content;
  created_at = db.timestamptz d.created_at;
  updated_at = db.timestamptz d.updated_at;
  version = d.version;
})

-- A document as its columns keep it; `none` is a failed cast.
unfoldable pub encoded : Database → Document → Option Document
unfolding with_content
encoded db d = with_content db d (db.jsonb d.content)

-- The end of a statement: the rows and the notification, or the error of a trigger that could not
-- send it, which undoes the statement.
unfoldable pub announce :
    {A : Type 0} → Database → DocChange → A → List Row → Adapter → Result A × Adapter
announce db c x rows a =
    if db.accepts c
    then (ok x, record a { documents = rows; notified = a.notified ++ c ∷ [] })
    else (err unknown, a)

-- The row that a statement returned, and its notification.
unfoldable pub store_row : Database → Row → List Row → Adapter → Result Document × Adapter
unfolding document_of notify_doc_change announce
store_row db r rows a =
    announce db (notify_doc_change db upserted r r.content) (document_of r) rows a

-- The INSERT of a new document.
unfoldable pub insert_row : Database → Option Document → Action Adapter Document
unfolding insert_doc store_row
insert_row db none a = (err unknown, a)
insert_row db (some d) a =
    let (collection, parent) = parse_path d.path in
    elim (insert_doc d collection parent a.documents) [
      | none ↦ (err already_exists, a)
      | some (r, rows) ↦ store_row db r rows a
    ]

unfoldable pub upsert_row : Database → Option Document → Action Adapter Document
unfolding upsert_doc store_row
upsert_row db none a = (err unknown, a)
upsert_row db (some d) a =
    let (collection, parent) = parse_path d.path in
    let (r, rows) = upsert_doc d collection parent a.documents in store_row db r rows a

unfoldable pub update_row : Database → Option Document → Action Adapter Document
unfolding update_doc store_row
update_row db none a = (err unknown, a)
update_row db (some d) a = elim (update_doc d a.documents) [
  | none ↦ (err not_found, a)
  | some (r, rows) ↦ store_row db r rows a
]

unfoldable pub write_mode : Database → WriteMode → Document → Action Adapter Document
unfolding encoded insert_row upsert_row update_row
write_mode db upsert d a =
    if str_eq (parse_path d.path).0 ""
    then (err invalid_argument, a)
    else upsert_row db (encoded db d) a
write_mode db update d a = update_row db (encoded db d) a
write_mode db insert_only d a =
    if str_eq (parse_path d.path).0 ""
    then (err invalid_argument, a)
    else insert_row db (encoded db d) a

unfoldable pub create_document : Database → ℕ → Document → Action Adapter Document
unfolding encoded insert_row
create_document db now doc a =
    if str_eq (parse_path doc.path).0 ""
    then (err invalid_argument, a)
    else insert_row db
        (encoded db (record doc {
          created_at = or_time doc.created_at now;
          updated_at = or_time doc.updated_at now;
        }))
        a

unfoldable pub get_document : String → Action Adapter Document
unfolding find_row document_of
get_document path a = elim (find_row path a.documents) [
  | none ↦ (err not_found, a)
  | some r ↦ (ok (document_of r), a)
]

unfoldable pub update_document : Database → ℕ → Document → WriteMode → Action Adapter Document
unfolding write_mode
update_document db now doc mode =
    let updated_at = or_time doc.updated_at now in
    write_mode db mode
      (record doc { created_at = or_time doc.created_at updated_at; updated_at = updated_at })

-- The path is the primary key, so that at most one row goes.
unfoldable pub delete_document : Database → String → Bool → Action Adapter (Unit {0})
unfolding find_row delete_doc notify_doc_change announce
delete_document db path must_exist a = elim (find_row path a.documents) [
  | none ↦ (if must_exist then err not_found else ok tt, a)
  | some r ↦ announce db (notify_doc_change db deleted r "") tt (delete_doc path a.documents).1 a
]
