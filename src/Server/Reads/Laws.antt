-- ===== src/Server/Reads/Laws.antt =====
-- What a batch of reads answers and leaves.
use mathlib.Core.Option
use embyr.Base.{
  ℕ, zero, suc, ◌+◌, String, Bool, true, List, [], ◌∷◌, Option, none, some, ◌≡◌, ◌≢◌, ◌∙◌, sym,
  refl, arith, str_eq, eq_iff, Option-cases, Bool-cases, inl, inr,
}
use embyr.Base.Result.{
  Code, invalid_argument, not_found, already_exists, failed_precondition, aborted, unimplemented,
  internal, unauthenticated, canceled, unknown, Result, ok, err,
}
use embyr.Store.{Document}
use embyr.Proto.{ProtoDocument, Protobuf}
use embyr.Codec.Documents.{store_to_proto}
use embyr.Sqlite.Table.{Row, document_of, find_row}
use embyr.Sqlite.Adapter.{Adapter, TxRow, ReadValue, get_document}
use embyr.Sqlite.Transaction.{
  ttl_or_default, find_tx, delete_tx, json_path, record_read, recorded, begin_transaction,
  rollback_transaction, get_document_for_transaction,
}
use embyr.Sqlite.Transaction.Laws.{SameTables}
use embyr.Sqlite.Refine.{view, view-none, view-some}
use embyr.Server.Reads.{
  Response, found, missing, read_document, decoded, respond, fewer, send, read_all, no_selector,
  new_transaction, is_canceled, release, read_new, batch_get_documents,
}

-- The response to a path, from the document that is stored there; none if it does not decode.
abbrev pub answer : Protobuf → String → Option Document → Option Response
answer pb path none = some (missing path)
answer pb path (some d) = Option.map found (store_to_proto pb d)

-- A response in front of the others; a document that does not decode ends them.
abbrev pub add_answer : Option Response → List Response × Option Code → List Response × Option Code
add_answer none rest = ([], some internal)
add_answer (some r) (rs, e) = (r ∷ rs, e)

-- The responses to paths up to the first document that does not decode.
abbrev pub answers :
    Protobuf → (String → Option Document) → List String → List Response × Option Code
answers pb m [] = ([], none)
answers pb m (path ∷ paths) = add_answer (answer pb path (m path)) (answers pb m paths)

abbrev outcome : Option Response → Result Response
outcome none = err internal
outcome (some r) = ok r

get_document-absent :
    (path : String) (a : Adapter)
    → find_row path a.documents ≡ none
    → get_document path a ≡ (err not_found, a)
get_document-absent path a e = unfold get_document in rw (e, get_document) refl

get_document-found :
    (path : String) (a : Adapter) (q : Row)
    → find_row path a.documents ≡ some q
    → get_document path a ≡ (ok (document_of q), a)
get_document-found path a q e = unfold get_document in rw (e, get_document) refl

get_document-same : (path : String) (a : Adapter) → (get_document path a).1 ≡ a
get_document-same path a = elim (Option-cases (find_row path a.documents)) [
  | inl e ↦ rw (get_document-absent path a e) refl
  | inr (q, e) ↦ rw (get_document-found path a q e) refl
]

decoded_lem : (o : Option ProtoDocument) → decoded o ≡ outcome (Option.map found o)
decoded_lem none = unfold decoded in refl
decoded_lem (some p) = unfold decoded in refl

respond-get :
    (pb : Protobuf) (path : String) (a : Adapter)
    → respond pb path (get_document path a).0 ≡ outcome (answer pb path (view a.documents path))
respond-get pb path a = elim (Option-cases (find_row path a.documents)) [
  | inl e ↦ rw (get_document-absent path a e, view-none path a.documents e) (unfold respond in refl)
  | inr (q, e) ↦
      rw (get_document-found path a q e, view-some path a.documents e)
        (unfold respond in decoded_lem (store_to_proto pb (document_of q)))
]

send-outcome :
    (o : Option Response) (rest : List Response × Option Code) (a : Adapter)
    → send none (outcome o) (rest.0, rest.1, a) a
      ≡ ((add_answer o rest).0, (add_answer o rest).1, a)
send-outcome none rest a = unfold send in refl
send-outcome (some r) rest a = unfold send in refl

read_all-answers :
    (pb : Protobuf) (paths : List String) (a : Adapter)
    → read_all pb "" none paths a
      ≡ ((answers pb (view a.documents) paths).0, (answers pb (view a.documents) paths).1, a)
unfolding read_all read_document fewer
read_all-answers pb [] a = refl
read_all-answers pb (path ∷ paths) a =
    rw (get_document-same path a, respond-get pb path a, read_all-answers pb paths a)
      (send-outcome (answer pb path (view a.documents path)) (answers pb (view a.documents) paths)
        a)

-- A batch of reads outside any transaction, on a stream that takes all messages, answers each path in order, with the document that is
-- stored there or as missing, up to the first stored document that does not decode, where it
-- ends with an internal error; and it changes nothing.
pub batch_get_documents-answers :
    (pb : Protobuf) (now : ℕ) (id : String) (paths : List String) (a : Adapter)
    → batch_get_documents pb now id none no_selector paths a
      ≡ ((answers pb (view a.documents) paths).0, (answers pb (view a.documents) paths).1, a)
batch_get_documents-answers pb now id paths a =
    unfold batch_get_documents in read_all-answers pb paths a

-- The transaction `id` is open, and apart from it the tables are those of `a`.
abbrev IsOpen : String → Adapter → Adapter → Type 0
IsOpen id a b =
    (b.documents ≡ a.documents)
    × ((t : TxRow) × (t.id ≡ id) × (b.transactions ≡ t ∷ a.transactions))

record_read-IsOpen :
    (id path : String) (v : ℕ) (a b : Adapter) (doc : Document)
    → IsOpen id a b
    → IsOpen id a (recorded doc (record_read b id path v b.transactions) b).1
record_read-IsOpen id path v a b doc (docs, (t, e, txs)) =
    elim (Option-cases (b.json_set t.reads (json_path path) v)) [
      | inl bad ↦ rw (none_read bad) (unfold recorded in (docs, (t, e, txs)))
      | inr (reads, good) ↦
          rw (some_read reads good)
            (unfold recorded in (docs, (record t { reads = reads }, e, refl)))
    ]
  where
    none_read :
        b.json_set t.reads (json_path path) v ≡ none → record_read b id path v b.transactions ≡ none
    none_read bad = rw txs (unfold record_read in ground (arith, eq_iff t.id id))

    some_read :
        (reads : List (String × ReadValue))
        → b.json_set t.reads (json_path path) v ≡ some reads
        → record_read b id path v b.transactions
          ≡ some (record t { reads = reads } ∷ a.transactions)
    some_read reads good = rw txs (unfold record_read in ground (arith, eq_iff t.id id))

read_document-IsOpen :
    (id path : String) (a b : Adapter) → IsOpen id a b → IsOpen id a (read_document id path b).1
read_document-IsOpen id path a b h = elim (Bool-cases (str_eq id "")) [
  | inl e ↦ unfold read_document in rw (e, get_document-same path b) h
  | inr e ↦ elim (Option-cases (find_row path b.documents)) [
    | inl absent ↦ unfold read_document in rw (e, read_absent absent) h
    | inr (q, here) ↦
        unfold read_document in
        rw (e, read_found q here) (record_read-IsOpen id path q.version a b (document_of q) h)
  ]
]
  where
    read_absent :
        find_row path b.documents ≡ none
        → get_document_for_transaction id path b ≡ (err not_found, b)
    read_absent e = unfold get_document_for_transaction in ground arith

    read_found :
        (r : Row)
        → find_row path b.documents ≡ some r
        → get_document_for_transaction id path b
          ≡ recorded (document_of r) (record_read b id path r.version b.transactions) b
    read_found r e = unfold get_document_for_transaction document_of in ground arith

send-IsOpen :
    (room : Option ℕ) (r : Result Response) (rest : List Response × Option Code × Adapter)
    (id : String) (a b : Adapter)
    → IsOpen id a b
    → IsOpen id a rest.2
    → IsOpen id a (send room r rest b).2
unfolding send
send-IsOpen room (err e) rest id a b h k = h
send-IsOpen none (ok r) (rs, e, c) id a b h k = k
send-IsOpen (some zero) (ok r) (rs, e, c) id a b h k = h
send-IsOpen (some (suc n)) (ok r) (rs, e, c) id a b h k = k

read_all-IsOpen :
    (pb : Protobuf) (id : String) (room : Option ℕ) (paths : List String) (a b : Adapter)
    → IsOpen id a b
    → IsOpen id a (read_all pb id room paths b).2
unfolding read_all
read_all-IsOpen pb id room [] a b h = h
read_all-IsOpen pb id room (path ∷ paths) a b h =
    let k = read_document-IsOpen id path a b h in
    send-IsOpen room _ _ id a _ k (read_all-IsOpen pb id (fewer room) paths a _ k)

delete_tx-absent : (id : String) (txs : List TxRow) → find_tx id txs ≡ none → delete_tx id txs ≡ txs
unfolding find_tx delete_tx
delete_tx-absent id [] h = refl
delete_tx-absent id (t ∷ txs) h = ground (arith, delete_tx-absent id txs)

release-SameTables :
    (id : String) (r : List Response × Option Code × Adapter) (a : Adapter) (e : Code)
    → find_tx id a.transactions ≡ none
    → IsOpen id a r.2
    → (release id r).1 ≡ some e
    → e ≢ canceled
    → SameTables (release id r).2 a
unfolding release
release-SameTables id (rs, none, b) a e fresh open_ h live = absurd cc
release-SameTables id (rs, some c, b) a e fresh (docs, (t, at, txs)) h live =
    elim (Bool-cases (is_canceled c)) [
      | inl gone ↦ absurd (let same : c ≡ e = cc in live (sym same ∙ canceled_lem c gone))
      | inr going ↦ rw going (
        unfold rollback_transaction in docs,
        unfold rollback_transaction in
            rw txs (
              unfold delete_tx in
              ground (arith, eq_iff t.id id, delete_tx-absent id a.transactions fresh)),
      )
    ]
  where
    canceled_lem : (d : Code) → is_canceled d ≡ true → d ≡ canceled
    canceled_lem canceled k = refl
    canceled_lem invalid_argument k = absurd cc
    canceled_lem not_found k = absurd cc
    canceled_lem already_exists k = absurd cc
    canceled_lem failed_precondition k = absurd cc
    canceled_lem aborted k = absurd cc
    canceled_lem unimplemented k = absurd cc
    canceled_lem internal k = absurd cc
    canceled_lem unauthenticated k = absurd cc
    canceled_lem unknown k = absurd cc

-- The row of a transaction that begins.
abbrev begun : ℕ → String → Adapter → TxRow
begun now id a = record {
  id = id;
  started_at = now;
  reads = [];
  expires_at = now + ttl_or_default a.tx_ttl;
}

abbrev with_begun : ℕ → String → Adapter → Adapter
with_begun now id a = record a { transactions = begun now id a ∷ a.transactions }

module _ (pb : Protobuf) (now : ℕ) (id : String) (read_only : Bool) (paths : List String)
    (a : Adapter) where
  begin-fresh :
      find_tx id a.transactions ≡ none
      → begin_transaction now id read_only a ≡ (ok id, with_begun now id a)
  begin-fresh e = unfold begin_transaction in rw (e, begin_transaction) refl

  begin-taken :
      (t : TxRow)
      → find_tx id a.transactions ≡ some t
      → begin_transaction now id read_only a ≡ (err unknown, a)
  begin-taken t e = unfold begin_transaction in rw (e, begin_transaction) refl

  read_new-SameTables :
      (room : Option ℕ) (e : Code)
      → find_tx id a.transactions ≡ none
      → (read_new pb room paths (ok id, with_begun now id a)).1 ≡ some e
      → e ≢ canceled
      → SameTables (read_new pb room paths (ok id, with_begun now id a)).2 a
  unfolding read_new
  read_new-SameTables none e fresh h live =
      release-SameTables id (read_all pb id none paths (with_begun now id a)) a e fresh
        (read_all-IsOpen pb id none paths a (with_begun now id a)
          (refl, (begun now id a, refl, refl)))
        h live
  read_new-SameTables (some zero) e fresh h live =
      absurd (let same : canceled ≡ e = cc in live (sym same))
  read_new-SameTables (some (suc n)) e fresh h live =
      release-SameTables id (read_all pb id (some n) paths (with_begun now id a)) a e fresh
        (read_all-IsOpen pb id (some n) paths a (with_begun now id a)
          (refl, (begun now id a, refl, refl)))
        h live

-- A batch of reads that starts a transaction and ends with an error of the store or of decoding,
-- while its context goes on, leaves neither the transaction nor any other change in the tables.
pub batch_get_documents-SameTables :
    (pb : Protobuf) (now : ℕ) (id : String) (room : Option ℕ) (read_only : Bool)
    (paths : List String) (a : Adapter) (e : Code)
    → (batch_get_documents pb now id room (new_transaction read_only) paths a).1 ≡ some e
    → e ≢ canceled
    → SameTables (batch_get_documents pb now id room (new_transaction read_only) paths a).2 a
unfolding batch_get_documents
batch_get_documents-SameTables pb now id room read_only paths a e h live =
    elim (Option-cases (find_tx id a.transactions)) [
      | inl fresh ↦
          let start = begin-fresh pb now id read_only paths a fresh in
          rw start
            (read_new-SameTables pb now id read_only paths a room e fresh (rw start at h) live)
      | inr (t, taken) ↦
          rw (begin-taken pb now id read_only paths a t taken) (unfold read_new in (refl, refl))
    ]
