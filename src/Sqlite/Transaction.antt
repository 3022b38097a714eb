-- ===== src/Sqlite/Transaction.antt =====
-- The transactions of internal/store/sqlite/sqlite.go: SQL transactions around a call, and
-- Firestore transactions with optimistic concurrency control.
--
-- A transaction's reads are a JSON object that SQLite updates by `json_set(reads, '$.' || path,
-- version)`: a path with '.' or '[' is no single key there.
pub mod Laws
pub mod Isolation
pub mod Writes
use embyr.Base.{
  ℕ, zero, suc, ◌+◌, ◌*◌, ◌/◌, ◌%◌, ◌^◌, String, Bool, true, false, List, [], ◌∷◌, ◌++◌, Option,
  none, some, ◌||◌, ◌&&◌, ◌==◌, ltb, leb, str_eq, if◌then◌else◌,
}
use embyr.Base.Int.{ℤ, pos, negsuc}
use embyr.Base.Result.{Code, not_found, aborted, unknown, Result, ok, err, Action, ◌>>=◌, pure}
use embyr.Store.{
  Document, WriteMode, upsert, update, insert_only, WriteOp, put, delete, CommitResult, DocChange,
  upserted,
}
use embyr.Store.Path.{parse_path}
use embyr.Sqlite.Table.{Row, find_row, insert_doc, upsert_doc, update_doc, delete_doc}
use embyr.Sqlite.Adapter.{
  Adapter, TxRow, ReadValue, at_version, nested, or_time, notify_subscribers, get_document,
  delete_change,
}

-- The commit after a success, and the deferred rollback after an error.
unfoldable pub settle : {A : Type 0} → Adapter → Result A × Adapter → Result A × Adapter
settle before (ok x, after) = (ok x, after)
settle before (err e, after) =
    (err e, record after { documents = before.documents; transactions = before.transactions })

-- `WithTransaction`: an error takes back what the call did to the tables, and only that.
unfoldable pub with_transaction : {A : Type 0} → Action Adapter A → Action Adapter A
unfolding settle
with_transaction fn a = settle a (fn a)

-- `defaultTransactionTTL`, in nanoseconds.
abbrev pub default_ttl : ℕ
default_ttl = 60 * 10 ^ 9

unfoldable pub ttl_or_default : ℤ → ℕ
ttl_or_default (pos zero) = default_ttl
ttl_or_default (pos (suc n)) = suc n
ttl_or_default (negsuc n) = default_ttl

-- `SetTransactionTTL`
unfoldable pub set_transaction_ttl : ℤ → Adapter → Adapter
unfolding ttl_or_default
set_transaction_ttl d a = record a { tx_ttl = pos (ttl_or_default d) }

unfoldable pub find_tx : String → List TxRow → Option TxRow
find_tx id [] = none
find_tx id (t ∷ txs) = if str_eq t.id id then some t else find_tx id txs

unfoldable pub delete_tx : String → List TxRow → List TxRow
delete_tx id [] = []
delete_tx id (t ∷ txs) = let rest = delete_tx id txs in if str_eq t.id id then rest else t ∷ rest

-- `BeginTransaction`, with the random identifier as an argument; the identifier is a primary key.
unfoldable pub begin_transaction : ℕ → String → Bool → Action Adapter String
unfolding find_tx ttl_or_default
begin_transaction now id read_only a = elim (find_tx id a.transactions) [
  | some _ ↦ (err unknown, a)
  | none ↦ (
    ok id,
    record a {
      transactions =
          record {
            id = id;
            started_at = now;
            reads = [];
            expires_at = now + ttl_or_default a.tx_ttl;
          }
          ∷ a.transactions;
    },
  )
]

-- `'$.' || path`
abbrev pub json_path : String → String
json_path path = String.◌∷◌ "$" (String.◌∷◌ "." path)

-- The UPDATE of the transaction's row; an unknown identifier updates nothing, and `none` is an
-- error of `json_set`.
unfoldable pub record_read : Adapter → String → String → ℕ → List TxRow → Option (List TxRow)
record_read a id path v [] = some []
record_read a id path v (t ∷ txs) =
    let rest = record_read a id path v txs in
    if str_eq t.id id
    then elim (a.json_set t.reads (json_path path) v) [
      | none ↦ none
      | some reads ↦ some (record t { reads = reads } ∷ txs)
    ]
    else elim rest [ none ↦ none | some rows ↦ some (t ∷ rows) ]

unfoldable pub recorded : Document → Option (List TxRow) → Action Adapter Document
recorded doc none a = (err unknown, a)
recorded doc (some txs) a = (ok doc, record a { transactions = txs })

unfoldable pub get_document_for_transaction : String → String → Action Adapter Document
unfolding get_document record_read recorded
get_document_for_transaction tx_id path = do
  doc ← get_document path
  λ a. recorded doc (record_read a tx_id path doc.version a.transactions) a

-- `json.Unmarshal` of the reads into a map of integers; `none` is an error.
unfoldable pub versions_of : List (String × ReadValue) → Option (List (String × ℕ))
versions_of [] = some []
versions_of ((path, nested _) ∷ reads) = none
versions_of ((path, at_version v) ∷ reads) = elim (versions_of reads) [
  | none ↦ none
  | some rest ↦ some ((path, v) ∷ rest)
]

-- The check of the reads: every document read is there, at the version that was read.
unfoldable pub occ_check : List (String × ℕ) → List Row → Result (Unit {0})
unfolding find_row
occ_check [] rows = ok tt
occ_check ((path, version) ∷ reads) rows = elim (find_row path rows) [
  | none ↦ err aborted
  | some r ↦ if r.version == version then occ_check reads rows else err aborted
]

-- The statement of one update, by its mode. Here an INSERT takes whatever collection the path
-- parses to, an UPDATE may find no row, and only a violated constraint is an error.
unfoldable pub commit_put : Document → WriteMode → List Row → Result (List Row)
unfolding insert_doc upsert_doc update_doc
commit_put d upsert rows =
    let (collection, parent) = parse_path d.path in ok (upsert_doc d collection parent rows).1
commit_put d update rows = elim (update_doc d rows) [ none ↦ ok rows | some (r, t) ↦ ok t ]
commit_put d insert_only rows =
    let (collection, parent) = parse_path d.path in
    elim (insert_doc d collection parent rows) [ none ↦ err unknown | some (r, t) ↦ ok t ]

-- The change of an update; its version is not set.
unfoldable pub put_change : Document → DocChange
put_change d = record {
  path = d.path;
  collection = (parse_path d.path).0;
  parent = (parse_path d.path).1;
  kind = upserted;
  version = 0;
  content = d.content;
}

unfoldable pub stamped : ℕ → Document → Document
stamped now d = record d {
  created_at = or_time d.created_at now;
  updated_at = or_time d.updated_at now;
}

unfoldable pub commit_op : ℕ → WriteOp → List Row → Result (List Row)
unfolding commit_put stamped delete_doc
commit_op now (put d mode) rows = commit_put (stamped now d) mode rows
commit_op now (delete path) rows = ok (delete_doc path rows).1

unfoldable pub change_of_op : WriteOp → DocChange
unfolding put_change delete_change
change_of_op (put d mode) = put_change d
change_of_op (delete path) = delete_change path

-- The loop over the writes: the rows after all of them, or the first error.
unfoldable pub commit_ops : ℕ → List WriteOp → List Row → Result (List Row)
unfolding commit_op
commit_ops now [] rows = ok rows
commit_ops now (op ∷ ops) rows = elim (commit_op now op rows) [
  | err e ↦ err e
  | ok rows' ↦ commit_ops now ops rows'
]

unfoldable pub notify_all : List WriteOp → Adapter → Adapter
unfolding notify_subscribers change_of_op
notify_all [] a = a
notify_all (op ∷ ops) a = notify_all ops (notify_subscribers (change_of_op op) a)

-- One result for each write, all at the time of the commit.
unfoldable pub write_results : ℕ → List WriteOp → List ℕ
write_results now [] = []
write_results now (op ∷ ops) = now ∷ write_results now ops

-- What `CommitTransaction` does once the transaction's row is found and its reads are decoded.
unfoldable pub commit_read :
    ℕ → TxRow → List (String × ℕ) → List WriteOp → Action Adapter CommitResult
unfolding occ_check commit_ops delete_tx notify_all write_results
commit_read now t reads ops a = elim (occ_check reads a.documents) [
  | err e ↦ (err e, a)
  | ok _ ↦ elim (commit_ops now ops a.documents) [
    | err e ↦ (err e, a)
    | ok rows ↦ (
      ok (record { write_results = write_results now ops; commit_time = now }),
      notify_all ops (record a { documents = rows; transactions = delete_tx t.id a.transactions }),
    )
  ]
]

unfoldable pub commit_found : ℕ → TxRow → List WriteOp → Action Adapter CommitResult
unfolding versions_of commit_read
commit_found now t ops a = elim (versions_of t.reads) [
  | none ↦ (err unknown, a)
  | some reads ↦ commit_read now t reads ops a
]

unfoldable pub commit_transaction : ℕ → String → List WriteOp → Action Adapter CommitResult
unfolding find_tx commit_found
commit_transaction now tx_id ops a = elim (find_tx tx_id a.transactions) [
  | none ↦ (err not_found, a)
  | some t ↦ commit_found now t ops a
]

unfoldable pub rollback_transaction : String → Action Adapter (Unit {0})
unfolding delete_tx
rollback_transaction tx_id a = (ok tt, record a { transactions = delete_tx tx_id a.transactions })
