-- ===== src/Server/Commit/Laws.antt =====
-- What a commit and a batch of independent writes leave.
use embyr.Base.{
  true, false, ℕ, suc, ◌+◌, List, [], ◌∷◌, Option, none, some, ◌≡◌, refl, sym, ap, ◌∙◌, subst, inl,
  inr, arith, Option-cases, length, length-append, str_eq, Bool-cases,
}
use embyr.Base.Result.{Code, Result, ok, err, Action, ◌>>=◌, pure, >>=-eq-ok}
use embyr.Store.{WriteOp, CommitResult}
use embyr.Proto.{Float64, Protobuf}
use embyr.Codec.Documents.{proto_to_store}
use embyr.Sqlite.Adapter.{Adapter}
use embyr.Sqlite.Transaction.{settle, with_transaction, write_results}
use embyr.Sqlite.Transaction.Laws.{
  SameTables, Commits, done, missing, garbled, stale, failed, commit_transaction-Commits,
}
use embyr.Server.Writes.{
  Write, WriteResult, Operation, update_document, delete_document, verify, other, apply_write,
  apply_write_batch,
}
use embyr.Server.Commit.{
  WriteKind, kind_op, kind_verify, CommitRequest, CommitResponse, op_of, add_op, ops_of,
  pair_results, tx_response, tx_commit, plain_response, commit, single_write, status_of,
  batch_write,
}

-- How many of the writes are operations of the store.
abbrev count_ops : List WriteKind → ℕ
count_ops [] = 0
count_ops (kind_op ∷ ks) = suc (count_ops ks)
count_ops (kind_verify ∷ ks) = count_ops ks

ok_eq :
    {xs ys : List WriteResult} {a b : Adapter}
    → ◌≡◌ {A = Result (List WriteResult) × Adapter} (ok xs, a) (ok ys, b)
    → xs ≡ ys
ok_eq h = cc

pub length-apply_write_batch :
    (f : Float64) (pb : Protobuf) (now : ℕ) (ws : List Write) (a : Adapter) {rs : List WriteResult}
    {b : Adapter}
    → apply_write_batch f pb now ws a ≡ (ok rs, b)
    → length rs ≡ length ws
unfolding apply_write_batch
length-apply_write_batch f pb now [] a h = cc
length-apply_write_batch f pb now (w ∷ ws) a {rs} {b} h =
    let more : WriteResult → Action Adapter (List WriteResult) =
      λ r. apply_write_batch f pb now ws >>= λ rs'. pure (r ∷ rs') in
    let (r, u, e, k) = >>=-eq-ok (apply_write f pb now w) more a h in
    let (rs', v, e', k') =
      >>=-eq-ok (apply_write_batch f pb now ws) (λ rs'. pure (r ∷ rs')) u {b = rs} {t = b} k in
    let rest = length-apply_write_batch f pb now ws u e' in
    subst (λ x. length x ≡ suc (length ws)) (ok_eq k') (ap suc rest)

-- What a request ends with: outside a transaction, what its writes do as one batch; in a
-- transaction, what the store's commit of its operations does; or an error, and the tables as they
-- were. There is one result for each write.
pub data Committed (f : Float64) (pb : Protobuf) (now : ℕ) (req : CommitRequest) (a : Adapter)
    : Option (Result CommitResponse × Adapter) → Type 0 where
  applied :
      {rs : List WriteResult} {b : Adapter}
      → str_eq req.transaction "" ≡ true
      → apply_write_batch f pb now req.writes a ≡ (ok rs, b)
      → length rs ≡ length req.writes
      → Committed f pb now req a (some (ok (record { write_results = rs; commit_time = now }), b))
  stored :
      {rs : List WriteResult} {ops : List WriteOp} {kinds : List WriteKind} {r : CommitResult}
      {b : Adapter}
      → str_eq req.transaction "" ≡ false
      → ops_of pb now req.writes ≡ ok (ops, kinds)
      → Commits now req.transaction ops a (ok r) b
      → length rs ≡ length req.writes
      → Committed f pb now req a
          (some (ok (record { write_results = rs; commit_time = r.commit_time }), b))
  rejected : {c : Code} {b : Adapter} → SameTables b a → Committed f pb now req a (some (err c, b))

IsShapedLike : List Write → Result (List WriteOp × List WriteKind) → Type 0
IsShapedLike ws (err c) = Unit
IsShapedLike ws (ok (ops, kinds)) = (length kinds ≡ length ws) × (count_ops kinds ≡ length ops)

-- An operation of the store, or a kind that has none.
IsOne : Result (List WriteOp × WriteKind) → Type 0
IsOne (err c) = Unit
IsOne (ok (ops, kind)) = count_ops (kind ∷ []) ≡ length ops

op_of-IsOne : (pb : Protobuf) (now : ℕ) (o : Operation) → IsOne (op_of pb now o)
unfolding op_of IsOne
op_of-IsOne pb now (update_document doc) =
    elim (Option-cases (proto_to_store pb now doc.name doc.fields doc.create_time)) [
      | inl e ↦ rw (e, op_of, IsOne) tt
      | inr (d, e) ↦ rw (e, op_of, IsOne) refl
    ]
op_of-IsOne pb now (delete_document path) = refl
op_of-IsOne pb now verify = refl
op_of-IsOne pb now other = tt

count_ops-cons :
    (k : WriteKind) (ks : List WriteKind) → count_ops (k ∷ ks) ≡ count_ops (k ∷ []) + count_ops ks
count_ops-cons kind_op ks = omega arith
count_ops-cons kind_verify ks = omega arith

add_op-IsShapedLike :
    (w : Write) (ws : List Write) (first : Result (List WriteOp × WriteKind))
    (rest : Result (List WriteOp × List WriteKind))
    → IsOne first
    → IsShapedLike ws rest
    → IsShapedLike (w ∷ ws) (add_op first rest)
unfolding add_op IsOne IsShapedLike
add_op-IsShapedLike w ws (err c) rest h k = tt
add_op-IsShapedLike w ws (ok (ops, kind)) (err c) h k = tt
add_op-IsShapedLike w ws (ok (ops, kind)) (ok (more, kinds)) h (l, n) =
    (ap suc l, omega (arith, count_ops-cons kind kinds, length-append ops more, h, n))

ops_of-IsShapedLike :
    (pb : Protobuf) (now : ℕ) (ws : List Write) → IsShapedLike ws (ops_of pb now ws)
unfolding ops_of IsShapedLike
ops_of-IsShapedLike pb now [] = (refl, refl)
ops_of-IsShapedLike pb now (w ∷ ws) =
    add_op-IsShapedLike w ws (op_of pb now w.operation) (ops_of pb now ws)
      (op_of-IsOne pb now w.operation) (ops_of-IsShapedLike pb now ws)

length-write_results : (now : ℕ) (ops : List WriteOp) → length (write_results now ops) ≡ length ops
unfolding write_results
length-write_results now [] = refl
length-write_results now (op ∷ ops) = ap suc (length-write_results now ops)

pair_results-total :
    (t : ℕ) (kinds : List WriteKind) (times : List ℕ)
    → count_ops kinds ≡ length times
    → (rs : List WriteResult) × (pair_results t kinds times ≡ some rs) × (length rs ≡ length kinds)
unfolding pair_results
pair_results-total t [] times h = ([], refl, refl)
pair_results-total t (kind_verify ∷ kinds) times h =
    let (rs, e, l) = pair_results-total t kinds times h in
    (record { update_time = some t; transform_results = [] } ∷ rs, rw e refl, ap suc l)
pair_results-total t (kind_op ∷ kinds) [] h = absurd (omega arith)
pair_results-total t (kind_op ∷ kinds) (u ∷ times) h =
    let (rs, e, l) = pair_results-total t kinds times (omega arith) in
    (record { update_time = some u; transform_results = [] } ∷ rs, rw e refl, ap suc l)

settle-Committed :
    (f : Float64) (pb : Protobuf) (now : ℕ) (req : CommitRequest) (a : Adapter)
    (p : Result (List WriteResult) × Adapter)
    → str_eq req.transaction "" ≡ true
    → apply_write_batch f pb now req.writes a ≡ p
    → Committed f pb now req a (some (plain_response now (settle a p)))
unfolding settle plain_response
settle-Committed f pb now req a (ok rs, b) h e =
    applied h e (length-apply_write_batch f pb now req.writes a e)
settle-Committed f pb now req a (err c, b) h e = rejected (refl, refl)

module _ (f : Float64) (pb : Protobuf) (now : ℕ) (req : CommitRequest) (a : Adapter)
    (in_tx : str_eq req.transaction "" ≡ false) where
  tx-Committed :
      (ops : List WriteOp) (kinds : List WriteKind) (r : Result CommitResult) (b : Adapter)
      → ops_of pb now req.writes ≡ ok (ops, kinds)
      → length kinds ≡ length req.writes
      → count_ops kinds ≡ length ops
      → Commits now req.transaction ops a r b
      → Committed f pb now req a (tx_response kinds (r, b))
  unfolding tx_response
  tx-Committed ops kinds _ _ shape l n (done t reads rows known decoded current wrote) =
      let (rs, e, m) =
        pair_results-total now kinds (write_results now ops)
          (n ∙ sym (length-write_results now ops)) in
      rw (e, tx_response)
        (stored in_tx shape (done t reads rows known decoded current wrote) (m ∙ l))
  tx-Committed ops kinds _ _ shape l n (missing _) = rejected (refl, refl)
  tx-Committed ops kinds _ _ shape l n (garbled _ _ _) = rejected (refl, refl)
  tx-Committed ops kinds _ _ shape l n (stale _ _ _ _ _) = rejected (refl, refl)
  tx-Committed ops kinds _ _ shape l n (failed _ _ _ _ _ _) = rejected (refl, refl)

  tx_commit-Committed :
      (r : Result (List WriteOp × List WriteKind))
      → ops_of pb now req.writes ≡ r
      → IsShapedLike req.writes r
      → Committed f pb now req a (tx_commit now req.transaction r a)
  unfolding tx_commit IsShapedLike
  tx_commit-Committed (err c) shape h = rejected (refl, refl)
  tx_commit-Committed (ok (ops, kinds)) shape (l, n) =
      tx-Committed ops kinds _ _ shape l n (commit_transaction-Commits now req.transaction ops a)

-- `Commit`, in a transaction or not, does not panic and is all or nothing: it succeeds with one
-- result for each write, in number, and has then done to the database what the batch of the
-- writes, or the store's commit of their operations, does; or it answers with an error, after
-- which both tables are as before.
pub commit-Committed :
    (f : Float64) (pb : Protobuf) (now : ℕ) (req : CommitRequest) (a : Adapter)
    → Committed f pb now req a (commit f pb now req a)
unfolding commit with_transaction
commit-Committed f pb now req a = elim (Bool-cases (str_eq req.transaction "")) [
  | inl e ↦
      rw (e, commit)
        (settle-Committed f pb now req a (apply_write_batch f pb now req.writes a) e refl)
  | inr e ↦
      rw (e, commit)
        (tx_commit-Committed f pb now req a e (ops_of pb now req.writes) refl
          (ops_of-IsShapedLike pb now req.writes))
]

-- Each write of the list went through a transaction of its own: it succeeded, with no status, or
-- its status is its error and the tables are as they were before it.
pub data Isolated (f : Float64) (pb : Protobuf) (now : ℕ)
    : List Write → Adapter → List (WriteResult × Option Code) → Adapter → Type 0 where
  finished : {a : Adapter} → Isolated f pb now [] a [] a
  succeeded :
      {a b c : Adapter} {w : Write} {ws : List Write} {r : WriteResult}
      {rs : List (WriteResult × Option Code)}
      → apply_write_batch f pb now (w ∷ []) a ≡ (ok (r ∷ []), b)
      → Isolated f pb now ws b rs c
      → Isolated f pb now (w ∷ ws) a ((r, none) ∷ rs) c
  refused :
      {a b c : Adapter} {w : Write} {ws : List Write} {e : Code}
      {rs : List (WriteResult × Option Code)}
      → (apply_write_batch f pb now (w ∷ []) a).0 ≡ err e
      → SameTables b a
      → Isolated f pb now ws b rs c
      → Isolated f pb now
          (w ∷ ws)
          a
          ((record { update_time = none; transform_results = [] }, some e) ∷ rs)
          c

isolate :
    (f : Float64) (pb : Protobuf) (now : ℕ) (w : Write) (ws : List Write) (a : Adapter)
    (p : Result (List WriteResult) × Adapter) {rs : List (WriteResult × Option Code)} {c : Adapter}
    → apply_write_batch f pb now (w ∷ []) a ≡ p
    → Isolated f pb now ws (settle a p).1 rs c
    → Isolated f pb now (w ∷ ws) a (status_of now (settle a p).0 ∷ rs) c
unfolding settle status_of
isolate f pb now w ws a (ok (r ∷ []), b) e k = succeeded e k
isolate f pb now w ws a (err x, b) e k = refused (ap (λ q. q.0) e) (refl, refl) k
isolate f pb now w ws a (ok [], b) e k =
    absurd (let l = length-apply_write_batch f pb now (w ∷ []) a e in omega (arith, l))
isolate f pb now w ws a (ok (r ∷ s ∷ rs), b) e k =
    absurd (let l = length-apply_write_batch f pb now (w ∷ []) a e in omega (arith, l))

-- `BatchWrite` applies the writes one after the other and each in isolation: a write that
-- succeeds has its own result and no status, and goes on from there; a write that fails has its
-- error as status, and both tables are as they were before it when the next one is applied.
pub batch_write-Isolated :
    (f : Float64) (pb : Protobuf) (now : ℕ) (ws : List Write) (a : Adapter)
    → Isolated f pb now ws a (batch_write f pb now ws a).0 (batch_write f pb now ws a).1
unfolding batch_write single_write with_transaction
batch_write-Isolated f pb now [] a = finished
batch_write-Isolated f pb now (w ∷ ws) a =
    isolate f pb now w ws a (apply_write_batch f pb now (w ∷ []) a) refl
      (batch_write-Isolated f pb now ws _)
