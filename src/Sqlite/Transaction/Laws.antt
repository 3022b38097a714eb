-- ===== src/Sqlite/Transaction/Laws.antt =====
-- Atomicity and optimistic concurrency control.
use embyr.Base.{
  ℕ, String, List, [], ◌∷◌, map, none, some, ◌≡◌, refl, sym, ◌∙◌, arith, Option-cases, Bool-cases,
  inl, inr, ◌==◌, ==_iff, All,
}
use embyr.Base.Result.{Code, aborted, not_found, unknown, Result, ok, err, Result-cases}
use embyr.Store.{
  WriteOp, put, delete, upsert, update, insert_only, WriteMode, Document, CommitResult,
}
use embyr.Sqlite.Table.{Row, find_row}
use embyr.Sqlite.Adapter.{Adapter, TxRow, notify_subscribers}
use embyr.Sqlite.Refine.{deliver}
use embyr.Sqlite.Transaction.{
  find_tx, delete_tx, occ_check, commit_ops, change_of_op, notify_all, write_results, stamped,
  versions_of, commit_read, commit_put, commit_op, commit_found, commit_transaction,
}

-- The two tables of the adapter are as before.
abbrev pub SameTables : Adapter → Adapter → Type 0
SameTables a b = (a.documents ≡ b.documents) × (a.transactions ≡ b.transactions)

-- Every document that was read is still there, at the version that was read.
abbrev pub AreCurrent : List (String × ℕ) → List Row → Type 0
AreCurrent reads rows =
    All (λ e. (r : Row) × (find_row e.0 rows ≡ some r) × (r.version ≡ e.1)) reads

pub occ_check_sound :
    (reads : List (String × ℕ)) (rows : List Row)
    → occ_check reads rows ≡ ok tt
    → AreCurrent reads rows
unfolding occ_check
occ_check_sound [] rows h = tt
occ_check_sound ((p, v) ∷ reads) rows h = elim (Option-cases (find_row p rows)) [
  | inl missing ↦ ground arith
  | inr (r, found) ↦ elim (Bool-cases (r.version == v)) [
    | inl same ↦ ((r, found, (==_iff _ _).0 same), occ_check_sound reads rows (ground arith))
    | inr other ↦ ground arith
  ]
]

pub occ_check_complete :
    (reads : List (String × ℕ)) (rows : List Row)
    → AreCurrent reads rows
    → occ_check reads rows ≡ ok tt
unfolding occ_check
occ_check_complete [] rows h = refl
occ_check_complete ((p, v) ∷ reads) rows ((r, found, same), h) =
    ground (arith, occ_check_complete reads rows h)

occ_check-err :
    (reads : List (String × ℕ)) (rows : List Row) (c : Code)
    → occ_check reads rows ≡ err c
    → c ≡ aborted
unfolding occ_check
occ_check-err [] rows c h = cc
occ_check-err ((p, v) ∷ reads) rows c h = ground (arith, occ_check-err reads rows c)

notify_all_lem :
    (ops : List WriteOp) (a : Adapter)
    → notify_all ops a ≡ record a { subs = deliver (map change_of_op ops) a.subs }
unfolding notify_all notify_subscribers
notify_all_lem [] a = refl
notify_all_lem (op ∷ ops) a = notify_all_lem ops _

commit_put-err :
    (d : Document) (mode : WriteMode) (rows : List Row) (c : Code)
    → commit_put d mode rows ≡ err c
    → c ≡ unknown
unfolding commit_put
commit_put-err d upsert rows c h = absurd cc
commit_put-err d update rows c h = ground arith
commit_put-err d insert_only rows c h = ground arith

commit_op-err :
    (now : ℕ) (op : WriteOp) (rows : List Row) (c : Code)
    → commit_op now op rows ≡ err c
    → c ≡ unknown
unfolding commit_op
commit_op-err now (put d mode) rows c h = commit_put-err (stamped now d) mode rows c h
commit_op-err now (delete path) rows c h = absurd cc

commit_ops-err :
    (now : ℕ) (ops : List WriteOp) (rows : List Row) (c : Code)
    → commit_ops now ops rows ≡ err c
    → c ≡ unknown
unfolding commit_ops
commit_ops-err now [] rows c h = absurd cc
commit_ops-err now (op ∷ ops) rows c h = elim (Result-cases (commit_op now op rows)) [
  | inl (e, f) ↦ commit_op-err now op rows c (ground arith)
  | inr (after, f) ↦ commit_ops-err now ops after c (ground arith)
]

-- How `CommitTransaction` may end, and what it leaves.
pub data Commits (now : ℕ) (id : String) (ops : List WriteOp) (a : Adapter)
    : Result CommitResult → Adapter → Type 0 where
  done :
      (t : TxRow) (reads : List (String × ℕ)) (rows : List Row)
      → find_tx id a.transactions ≡ some t
      → versions_of t.reads ≡ some reads
      → AreCurrent reads a.documents
      → commit_ops now ops a.documents ≡ ok rows
      → Commits now id ops a
          (ok (record { write_results = write_results now ops; commit_time = now }))
          (record a {
            documents = rows;
            transactions = delete_tx t.id a.transactions;
            subs = deliver (map change_of_op ops) a.subs;
          })
  missing : find_tx id a.transactions ≡ none → Commits now id ops a (err not_found) a
  garbled :
      (t : TxRow)
      → find_tx id a.transactions ≡ some t
      → versions_of t.reads ≡ none
      → Commits now id ops a (err unknown) a
  stale :
      (t : TxRow) (reads : List (String × ℕ))
      → find_tx id a.transactions ≡ some t
      → versions_of t.reads ≡ some reads
      → ¬ AreCurrent reads a.documents
      → Commits now id ops a (err aborted) a
  failed :
      (t : TxRow) (reads : List (String × ℕ))
      → find_tx id a.transactions ≡ some t
      → versions_of t.reads ≡ some reads
      → AreCurrent reads a.documents
      → commit_ops now ops a.documents ≡ err unknown
      → Commits now id ops a (err unknown) a

ok≢err : {A : Type 0} {x : A} {c : Code} → ok x ≡ err c → ⊥
ok≢err h = cc

commit_read-Commits :
    (now : ℕ) (id : String) (t : TxRow) (reads : List (String × ℕ)) (ops : List WriteOp)
    (a : Adapter)
    → find_tx id a.transactions ≡ some t
    → versions_of t.reads ≡ some reads
    → Commits now id ops a (commit_read now t reads ops a).0 (commit_read now t reads ops a).1
commit_read-Commits now id t reads ops a h g = elim (Result-cases (occ_check reads a.documents)) [
  | inl (c, e) ↦
      unfold commit_read in
      rw (e, commit_read, occ_check-err reads a.documents c e)
        (stale t reads h g
          (λ current. ok≢err (sym (occ_check_complete reads a.documents current) ∙ e)))
  | inr (tt, e) ↦ elim (Result-cases (commit_ops now ops a.documents)) [
    | inl (c, f) ↦
        let only = commit_ops-err now ops a.documents c f in
        unfold commit_read in
        rw (e, commit_read, f, only)
          (failed t reads h g (occ_check_sound reads a.documents e) (rw only at f))
    | inr (rows, f) ↦
        unfold commit_read in
        rw (e, commit_read, f, notify_all_lem ops _)
          (done t reads rows h g (occ_check_sound reads a.documents e) f)
  ]
]

commit_found-Commits :
    (now : ℕ) (id : String) (t : TxRow) (ops : List WriteOp) (a : Adapter)
    → find_tx id a.transactions ≡ some t
    → Commits now id ops a (commit_found now t ops a).0 (commit_found now t ops a).1
commit_found-Commits now id t ops a h = elim (Option-cases (versions_of t.reads)) [
  | inl bad ↦ unfold commit_found in rw (bad, commit_found) (garbled t h bad)
  | inr (reads, good) ↦
      unfold commit_found in
      rw (good, commit_found) (commit_read-Commits now id t reads ops a h good)
]

-- `CommitTransaction` is all or nothing. It succeeds only where the transaction is known, its
-- reads decode, every document that it read is there at the version that was read, and every write
-- applies; then the writes are in the table, the transaction is gone, and the subscribers are
-- offered a change for each write. It answers not-found exactly for an unknown transaction,
-- aborted exactly where a read is stale, and unknown where the reads do not decode or a write is
-- refused; after every error the adapter is as it was.
pub commit_transaction-Commits :
    (now : ℕ) (id : String) (ops : List WriteOp) (a : Adapter)
    → Commits now id ops a (commit_transaction now id ops a).0 (commit_transaction now id ops a).1
commit_transaction-Commits now id ops a = elim (Option-cases (find_tx id a.transactions)) [
  | inl unknown_id ↦
      unfold commit_transaction in rw (unknown_id, commit_transaction) (missing unknown_id)
  | inr (t, found) ↦
      unfold commit_transaction in
      rw (found, commit_transaction) (commit_found-Commits now id t ops a found)
]
