-- ===== src/Postgres/Transaction.antt =====
-- The transactions of internal/store/postgres/postgres.go. PostgreSQL sends the notifications of a
-- transaction when it commits, so that a rollback takes them back too.
pub mod Writes
use embyr.Base.{
  true, false, ◌&&◌, drop, length, str_eq, ℕ, suc, ◌+◌, ltb, String, Bool, List, [], ◌∷◌, ◌++◌, map,
  Option, none, some, ◌==◌, if◌then◌else◌,
}
use embyr.Base.Result.{not_found, aborted, unknown, Result, ok, err, Action, ◌>>=◌}
use embyr.Store.{
  Document, WriteMode, upsert, update, insert_only, WriteOp, put, delete, CommitResult, DocChange,
  upserted, deleted, DocChangeKind,
}
use embyr.Store.Path.{parse_path}
use embyr.Sqlite.Table.{Row, find_row, insert_doc, upsert_doc, update_doc, delete_doc}
use embyr.Sqlite.Adapter.{or_time}
use embyr.Sqlite.Transaction.{ttl_or_default}
use embyr.Postgres.Adapter.{Database, Adapter, TxRow, notify_doc_change, encoded, get_document}

abbrev pub same_kind : DocChangeKind → DocChangeKind → Bool
same_kind upserted upserted = true
same_kind deleted deleted = true
same_kind _ _ = false

abbrev pub same_change : DocChange → DocChange → Bool
same_change c d =
    str_eq c.path d.path
    && str_eq c.collection d.collection
    && str_eq c.parent d.parent
    && same_kind c.kind d.kind
    && c.version == d.version
    && str_eq c.content d.content

-- The notifications that PostgreSQL delivers of a transaction: one of those that are identical.
unfoldable pub without : DocChange → List DocChange → List DocChange
without c [] = []
without c (d ∷ ds) = let rest = without c ds in if same_change c d then rest else d ∷ rest

unfoldable pub delivered : List DocChange → List DocChange
unfolding without
delivered [] = []
delivered (c ∷ cs) = c ∷ without c (delivered cs)

-- The commit after a success, and the deferred rollback after an error.
unfoldable pub settle : {A : Type 0} → Adapter → Result A × Adapter → Result A × Adapter
unfolding delivered
settle before (ok x, after) = (
  ok x,
  record after {
    notified = before.notified ++ delivered (drop (length before.notified) after.notified);
  },
)
settle before (err e, after) = (err e, before)

unfoldable pub with_transaction : {A : Type 0} → Action Adapter A → Action Adapter A
unfolding settle
with_transaction fn a = settle a (fn a)

unfoldable pub find_tx : String → List TxRow → Option TxRow
find_tx id [] = none
find_tx id (t ∷ txs) = if str_eq t.id id then some t else find_tx id txs

unfoldable pub delete_tx : String → List TxRow → List TxRow
delete_tx id [] = []
delete_tx id (t ∷ txs) = let rest = delete_tx id txs in if str_eq t.id id then rest else t ∷ rest

unfoldable pub begin_transaction : Database → ℕ → String → Bool → Action Adapter String
unfolding find_tx ttl_or_default
begin_transaction db now id read_only a = elim (find_tx id a.transactions) [
  | some _ ↦ (err unknown, a)
  | none ↦ (
    ok id,
    record a {
      transactions =
          record {
            id = id;
            started_at = db.timestamptz now;
            reads = [];
            expires_at = db.timestamptz (now + ttl_or_default a.tx_ttl);
          }
          ∷ a.transactions;
    },
  )
]

-- `reads || jsonb_build_object(path, version)`: the key is replaced or added.
unfoldable pub set_read : String → ℕ → List (String × ℕ) → List (String × ℕ)
set_read path version [] = (path, version) ∷ []
set_read path version ((p, v) ∷ reads) =
    if str_eq p path then (path, version) ∷ reads else (p, v) ∷ set_read path version reads

unfoldable pub record_read : String → String → ℕ → List TxRow → List TxRow
unfolding set_read
record_read id path version [] = []
record_read id path version (t ∷ txs) =
    if str_eq t.id id
    then record t { reads = set_read path version t.reads } ∷ txs
    else t ∷ record_read id path version txs

unfoldable pub get_document_for_transaction : String → String → Action Adapter Document
unfolding get_document record_read
get_document_for_transaction tx_id path = do
  doc ← get_document path
  λ a. (ok doc, record a { transactions = record_read tx_id path doc.version a.transactions })

-- The check of the reads: every document read is there, at the version that was read.
unfoldable pub occ_check : List (String × ℕ) → List Row → Result (Unit {0})
unfolding find_row
occ_check [] rows = ok tt
occ_check ((path, version) ∷ reads) rows = elim (find_row path rows) [
  | none ↦ err aborted
  | some r ↦ if r.version == version then occ_check reads rows else err aborted
]

-- The rows after a statement, with the notification of the row that it wrote; the trigger may
-- fail to send it.
unfoldable pub sent : Database → DocChange → List Row → Result (List Row × List DocChange)
sent db c rows = if db.accepts c then ok (rows, c ∷ []) else err unknown

unfoldable pub announced :
    Database → Option (Row × List Row) → List Row → Result (List Row × List DocChange)
unfolding notify_doc_change sent
announced db none rows = ok (rows, [])
announced db (some (r, after)) rows = sent db (notify_doc_change db upserted r r.content) after

-- An INSERT that the primary key refuses is an error; an UPDATE may find no row.
unfoldable pub commit_put :
    Database → WriteMode → Option Document → List Row → Result (List Row × List DocChange)
unfolding insert_doc upsert_doc update_doc announced
commit_put db mode none rows = err unknown
commit_put db upsert (some d) rows =
    announced db (some (upsert_doc d (parse_path d.path).0 (parse_path d.path).1 rows)) rows
commit_put db update (some d) rows = announced db (update_doc d rows) rows
commit_put db insert_only (some d) rows =
    elim (insert_doc d (parse_path d.path).0 (parse_path d.path).1 rows) [
      | none ↦ err unknown
      | some (r, after) ↦ announced db (some (r, after)) rows
    ]

unfoldable pub commit_delete :
    Database → String → Option Row → List Row → Result (List Row × List DocChange)
unfolding delete_doc notify_doc_change sent
commit_delete db path none rows = ok (rows, [])
commit_delete db path (some r) rows =
    sent db (notify_doc_change db deleted r "") (delete_doc path rows).1

unfoldable pub commit_op : Database → ℕ → WriteOp → List Row → Result (List Row × List DocChange)
unfolding encoded commit_put commit_delete find_row
commit_op db now (put d mode) rows =
    commit_put db mode
      (encoded db
        (record d { created_at = or_time d.created_at now; updated_at = or_time d.updated_at now }))
      rows
commit_op db now (delete path) rows = commit_delete db path (find_row path rows) rows

-- The changes of one write in front of those of the writes after it.
unfoldable pub chain :
    List DocChange → Result (List Row × List DocChange) → Result (List Row × List DocChange)
chain cs (err e) = err e
chain cs (ok (rows, ds)) = ok (rows, cs ++ ds)

unfoldable pub commit_ops :
    Database → ℕ → List WriteOp → List Row → Result (List Row × List DocChange)
unfolding commit_op chain
commit_ops db now [] rows = ok (rows, [])
commit_ops db now (op ∷ ops) rows = elim (commit_op db now op rows) [
  | err e ↦ err e
  | ok (after, cs) ↦ chain cs (commit_ops db now ops after)
]

-- The end of a commit: the writes, the transaction's row and the notifications at once.
unfoldable pub committed :
    ℕ → TxRow → List WriteOp → Result (List Row × List DocChange) → Action Adapter CommitResult
unfolding delete_tx delivered
committed now t ops (err e) a = (err e, a)
committed now t ops (ok (rows, cs)) a = (
  ok (record { write_results = map (λ op. now) ops; commit_time = now }),
  record a {
    documents = rows;
    transactions = delete_tx t.id a.transactions;
    notified = a.notified ++ delivered cs;
  },
)

unfoldable pub commit_found : Database → ℕ → TxRow → List WriteOp → Action Adapter CommitResult
unfolding occ_check commit_ops committed
commit_found db now t ops a = elim (occ_check t.reads a.documents) [
  | err e ↦ (err e, a)
  | ok _ ↦ committed now t ops (commit_ops db now ops a.documents) a
]

unfoldable pub commit_transaction :
    Database → ℕ → String → List WriteOp → Action Adapter CommitResult
unfolding find_tx commit_found
commit_transaction db now tx_id ops a = elim (find_tx tx_id a.transactions) [
  | none ↦ (err not_found, a)
  | some t ↦ commit_found db now t ops a
]

unfoldable pub rollback_transaction : String → Action Adapter (Unit {0})
unfolding delete_tx
rollback_transaction tx_id a = (ok tt, record a { transactions = delete_tx tx_id a.transactions })

-- `SweepExpiredTransactions` at the database's time `now`, with the number of rows deleted.
unfoldable pub sweep : ℕ → List TxRow → ℕ × List TxRow
sweep now [] = (0, [])
sweep now (t ∷ txs) =
    let (n, rest) = sweep now txs in if ltb t.expires_at now then (suc n, rest) else (n, t ∷ rest)

unfoldable pub sweep_expired_transactions : ℕ → Adapter → ℕ × Adapter
unfolding sweep
sweep_expired_transactions now a =
    let (n, txs) = sweep now a.transactions in (n, record a { transactions = txs })
