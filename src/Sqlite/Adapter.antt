-- ===== src/Sqlite/Adapter.antt =====
-- `Adapter` of internal/store/sqlite/sqlite.go, its subscribers and the document operations.
-- The database answers: a failure of the driver itself is not modelled. Where the code calls
-- `time.Now()`, the function takes the time as an argument.
pub mod Laws
use embyr.Base.{
  ℕ, suc, ◌+◌, ◌%◌, ◌^◌, String, Bool, true, false, List, [], ◌∷◌, ◌++◌, map, Option, none, some,
  ◌&&◌, not, ◌==◌, ltb, length, str_eq, if◌then◌else◌,
}
use embyr.Base.Int.{ℤ, pos, negsuc}
use embyr.Base.Result.{Code, invalid_argument, not_found, already_exists, Result, ok, err, Action}
use embyr.Store.{
  Document, WriteMode, upsert, update, insert_only, DocChange, DocChangeKind, upserted, deleted,
}
use embyr.Store.Path.{parse_path}
use embyr.Sqlite.Table.{Row, document_of, find_row, insert_doc, upsert_doc, update_doc, delete_doc}

-- An entry of `subs`: the channel is the list of the changes that wait in its buffer.
pub record Subscriber : Type 0 where
  pub id : ℕ
  pub waiting : List DocChange

-- A value in the JSON object of a transaction's reads: a version, or the text of anything else.
pub data ReadValue : Type 0 where
  at_version : ℕ → ReadValue
  nested : String → ReadValue

-- A row of the transactions table; `reads` is a JSON object, with a version under each path.
pub record TxRow : Type 0 where
  pub id : String
  pub started_at : ℕ
  pub reads : List (String × ReadValue)
  pub expires_at : ℕ

-- `tx_ttl` is a time.Duration in nanoseconds. `json_set` is that of SQLite: the object with a
-- number at a JSON path, or an error.
pub record Adapter : Type 0 where
  pub documents : List Row
  pub transactions : List TxRow
  pub subs : List Subscriber
  pub sub_next : ℕ
  pub tx_ttl : ℤ
  pub json_set : List (String × ReadValue) → String → ℕ → Option (List (String × ReadValue))

-- The buffer of a subscriber's channel.
abbrev pub buffer_size : ℕ
buffer_size = 64

-- The send of `notifySubscribers`: a full buffer drops the change.
unfoldable pub offer : DocChange → Subscriber → Subscriber
offer c s =
    if ltb (length s.waiting) buffer_size then record s { waiting = s.waiting ++ c ∷ [] } else s

unfoldable pub notify_subscribers : DocChange → Adapter → Adapter
unfolding offer
notify_subscribers c a = record a { subs = map (offer c) a.subs }

-- `Subscribe` returns the key of the new channel.
unfoldable pub subscribe : Adapter → ℕ × Adapter
subscribe a = (
  a.sub_next,
  record a {
    subs = a.subs ++ record { id = a.sub_next; waiting = [] } ∷ [];
    sub_next = (a.sub_next + 1) % 2 ^ 64;
  },
)

without : ℕ → List Subscriber → List Subscriber
without id [] = []
without id (s ∷ subs) = let rest = without id subs in if s.id == id then rest else s ∷ rest

-- The `teardown` of a subscription; `sync.Once` makes a second call do nothing.
unfoldable pub teardown : ℕ → Adapter → Adapter
unfolding without
teardown id a = record a { subs = without id a.subs }

-- An upserted row, as the subscribers are told of it.
unfoldable pub upsert_change : Row → String → String → DocChange
upsert_change r collection parent = record {
  path = r.path;
  collection = collection;
  parent = parent;
  kind = upserted;
  version = r.version;
  content = r.content;
}

unfoldable pub delete_change : String → DocChange
delete_change path = record {
  path = path;
  collection = (parse_path path).0;
  parent = (parse_path path).1;
  kind = deleted;
  version = 0;
  content = "";
}

-- A time that is not set becomes `t`.
abbrev pub or_time : ℕ → ℕ → ℕ
or_time set t = if set == 0 then t else set

-- Writes the row that a statement returned, and tells the subscribers.
unfoldable pub store_row : Row → List Row → String → String → Adapter → Result Document × Adapter
unfolding document_of notify_subscribers upsert_change
store_row r rows collection parent a = (
  ok (document_of r),
  notify_subscribers (upsert_change r collection parent) (record a { documents = rows }),
)

-- The INSERT shared by `CreateDocument` and the insert-only mode.
unfoldable pub insert_new : Document → Action Adapter Document
unfolding insert_doc store_row
insert_new d a =
    let (collection, parent) = parse_path d.path in
    if str_eq collection ""
    then (err invalid_argument, a)
    else elim (insert_doc d collection parent a.documents) [
      | none ↦ (err already_exists, a)
      | some (r, rows) ↦ store_row r rows collection parent a
    ]

unfoldable pub create_document : ℕ → Document → Action Adapter Document
unfolding insert_new
create_document now doc = insert_new (record doc {
  created_at = or_time doc.created_at now;
  updated_at = or_time doc.updated_at now;
})

unfoldable pub get_document : String → Action Adapter Document
unfolding find_row document_of
get_document path a = elim (find_row path a.documents) [
  | none ↦ (err not_found, a)
  | some r ↦ (ok (document_of r), a)
]

unfoldable pub write_mode : WriteMode → Document → Action Adapter Document
unfolding insert_new upsert_doc update_doc store_row
write_mode upsert d a =
    let (collection, parent) = parse_path d.path in
    if str_eq collection ""
    then (err invalid_argument, a)
    else let (r, rows) = upsert_doc d collection parent a.documents in
      store_row r rows collection parent a
write_mode update d a = elim (update_doc d a.documents) [
  | none ↦ (err not_found, a)
  | some (r, rows) ↦ store_row r rows (parse_path r.path).0 (parse_path r.path).1 a
]
write_mode insert_only d a = insert_new d a

unfoldable pub update_document : ℕ → Document → WriteMode → Action Adapter Document
unfolding write_mode
update_document now doc mode =
    let updated_at = or_time doc.updated_at now in
    write_mode mode
      (record doc { created_at = or_time doc.created_at updated_at; updated_at = updated_at })

unfoldable pub delete_document : String → Bool → Action Adapter (Unit {0})
unfolding delete_doc notify_subscribers delete_change
delete_document path must_exist a =
    let (n, rows) = delete_doc path a.documents in
    let a' : Adapter = record a { documents = rows } in
    if must_exist && n == 0
    then (err not_found, a')
    else if ltb 0 n
    then (ok tt, notify_subscribers (delete_change path) a')
    else (ok tt, a')
