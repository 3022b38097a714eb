-- ===== src/Server/Commit.antt =====
-- `Commit` of internal/server/handlers.go and `BatchWrite` of internal/server/transactions.go.
pub mod Laws
use embyr.Base.{
  ℕ, String, Bool, true, false, List, [], ◌∷◌, ◌++◌, Option, none, some, str_eq, if◌then◌else◌,
}
use embyr.Base.Result.{Code, unimplemented, internal, Result, ok, err, Action}
use embyr.Store.{WriteOp, put, delete, upsert, CommitResult}
use embyr.Proto.{Float64, Protobuf}
use embyr.Codec.Documents.{proto_to_store}
use embyr.Sqlite.Adapter.{Adapter}
use embyr.Sqlite.Transaction.{with_transaction, commit_transaction}
use embyr.Server.Writes.{
  Write, WriteResult, Operation, update_document, delete_document, verify, other, apply_write_batch,
}

-- `writeKind`
pub data WriteKind : Type 0 where
  kind_op kind_verify : WriteKind

pub record CommitRequest : Type 0 where
  pub writes : List Write
  pub transaction : String

pub record CommitResponse : Type 0 where
  pub write_results : List WriteResult
  pub commit_time : ℕ

-- One write of a commit in a transaction: its operation for the store, if it has one.
unfoldable pub op_of : Protobuf → ℕ → Operation → Result (List WriteOp × WriteKind)
unfolding proto_to_store
op_of pb now (update_document doc) =
    elim (proto_to_store pb now doc.name doc.fields doc.create_time) [
      | none ↦ err internal
      | some d ↦ ok (put d upsert ∷ [], kind_op)
    ]
op_of pb now (delete_document path) = ok (delete path ∷ [], kind_op)
op_of pb now verify = ok ([], kind_verify)
op_of pb now other = err unimplemented

unfoldable pub add_op :
    Result (List WriteOp × WriteKind)
    → Result (List WriteOp × List WriteKind)
    → Result (List WriteOp × List WriteKind)
add_op (err e) rest = err e
add_op (ok (o, k)) (err e) = err e
add_op (ok (o, k)) (ok (ops, kinds)) = ok (o ++ ops, k ∷ kinds)

unfoldable pub ops_of : Protobuf → ℕ → List Write → Result (List WriteOp × List WriteKind)
unfolding op_of add_op
ops_of pb now [] = ok ([], [])
ops_of pb now (w ∷ ws) = add_op (op_of pb now w.operation) (ops_of pb now ws)

-- One result for each write, those of the real operations taken from the store's in order; none
-- where the store's run out, which is an index out of range.
unfoldable pub pair_results : ℕ → List WriteKind → List ℕ → Option (List WriteResult)
pair_results commit_time [] times = some []
pair_results commit_time (kind_verify ∷ kinds) times = elim (pair_results commit_time kinds times) [
  | none ↦ none
  | some rs ↦ some (record { update_time = some commit_time; transform_results = [] } ∷ rs)
]
pair_results commit_time (kind_op ∷ kinds) [] = none
pair_results commit_time (kind_op ∷ kinds) (t ∷ times) =
    elim (pair_results commit_time kinds times) [
      | none ↦ none
      | some rs ↦ some (record { update_time = some t; transform_results = [] } ∷ rs)
    ]

-- The response to a commit in a transaction; the outer `none` is the panic of `pair_results`.
unfoldable pub tx_response :
    List WriteKind → Result CommitResult × Adapter → Option (Result CommitResponse × Adapter)
unfolding pair_results
tx_response kinds (err e, a) = some (err e, a)
tx_response kinds (ok r, a) = elim (pair_results r.commit_time kinds r.write_results) [
  | none ↦ none
  | some rs ↦ some (ok (record { write_results = rs; commit_time = r.commit_time }), a)
]

unfoldable pub tx_commit :
    ℕ
    → String
    → Result (List WriteOp × List WriteKind)
    → Adapter
    → Option (Result CommitResponse × Adapter)
unfolding commit_transaction tx_response
tx_commit now id (err e) a = some (err e, a)
tx_commit now id (ok (ops, kinds)) a = tx_response kinds (commit_transaction now id ops a)

unfoldable pub plain_response :
    ℕ → Result (List WriteResult) × Adapter → Result CommitResponse × Adapter
plain_response now (err e, a) = (err e, a)
plain_response now (ok rs, a) = (ok (record { write_results = rs; commit_time = now }), a)

-- `Commit`; `none` is a panic.
unfoldable pub commit :
    Float64 → Protobuf → ℕ → CommitRequest → Adapter → Option (Result CommitResponse × Adapter)
unfolding ops_of tx_commit with_transaction apply_write_batch plain_response
commit f pb now req a =
    if str_eq req.transaction ""
    then some (plain_response now (with_transaction (apply_write_batch f pb now req.writes) a))
    else tx_commit now req.transaction (ops_of pb now req.writes) a

-- One write of `BatchWrite`, in a transaction of its own.
unfoldable pub single_write :
    Float64 → Protobuf → ℕ → Write → Adapter → Result (List WriteResult) × Adapter
unfolding with_transaction apply_write_batch
single_write f pb now w = with_transaction (apply_write_batch f pb now (w ∷ []))

-- The result and the status of one write; a status that is not set means success.
unfoldable pub status_of : ℕ → Result (List WriteResult) → WriteResult × Option Code
status_of now (err e) = (record { update_time = none; transform_results = [] }, some e)
status_of now (ok []) = (record { update_time = some now; transform_results = [] }, none)
status_of now (ok (r ∷ rs)) = (r, none)

-- `BatchWrite`: the results and the statuses, one of each for a write.
unfoldable pub batch_write :
    Float64 → Protobuf → ℕ → List Write → Adapter → List (WriteResult × Option Code) × Adapter
unfolding single_write status_of
batch_write f pb now [] a = ([], a)
batch_write f pb now (w ∷ ws) a =
    let (r, a') = single_write f pb now w a in
    let (rs, a'') = batch_write f pb now ws a' in (status_of now r ∷ rs, a'')
