-- ===== src/Server/Reads.antt =====
-- `BeginTransaction` and `Rollback` of internal/server/transactions.go, and `BatchGetDocuments` of
-- internal/server/handlers.go. A batch of reads returns the responses that were sent, and the error
-- that ended it, if any. Its stream takes any number of messages, or `some n` of them: then its
-- context has ended, the next one is refused as canceled, and a rollback on that context fails.
pub mod Laws
use embyr.Base.{
  zero, suc, ◌-◌, ℕ, String, Bool, true, false, List, [], ◌∷◌, Option, none, some, str_eq,
  if◌then◌else◌,
}
use embyr.Base.Result.{Code, invalid_argument, not_found, internal, canceled, Result, ok, err}
use embyr.Store.{Document}
use embyr.Proto.{ProtoDocument, Protobuf}
use embyr.Codec.Documents.{store_to_proto}
use embyr.Sqlite.Adapter.{Adapter, get_document}
use embyr.Sqlite.Transaction as Transaction
use embyr.Sqlite.Transaction.{get_document_for_transaction}

unfoldable pub begin_transaction : ℕ → String → Bool → Adapter → Result String × Adapter
unfolding Transaction.begin_transaction
begin_transaction now id read_only a = Transaction.begin_transaction now id read_only a

unfoldable pub rollback : String → Adapter → Result (Unit {0}) × Adapter
unfolding Transaction.rollback_transaction
rollback tx_id a =
    if str_eq tx_id "" then (err invalid_argument, a) else Transaction.rollback_transaction tx_id a

-- `BatchGetDocumentsRequest.ConsistencySelector`
pub data Selector : Type 0 where
  no_selector : Selector
  transaction : String → Selector
  new_transaction : Bool → Selector

-- `BatchGetDocumentsResponse`, of the transaction or of one document.
pub data Response : Type 0 where
  opened : String → Response
  found : ProtoDocument → Response
  missing : String → Response

-- One read, in the transaction if there is one.
unfoldable pub read_document : String → String → Adapter → Result Document × Adapter
unfolding get_document get_document_for_transaction
read_document tx_id path a =
    if str_eq tx_id "" then get_document path a else get_document_for_transaction tx_id path a

-- A stored document, decoded.
unfoldable pub decoded : Option ProtoDocument → Result Response
decoded none = err internal
decoded (some p) = ok (found p)

-- The response to one read.
unfoldable pub respond : Protobuf → String → Result Document → Result Response
unfolding store_to_proto decoded
respond pb path (err not_found) = ok (missing path)
respond pb path (err e) = err e
respond pb path (ok d) = decoded (store_to_proto pb d)

-- The room of the stream after a message.
unfoldable pub fewer : Option ℕ → Option ℕ
fewer none = none
fewer (some n) = some (n - 1)

-- The response sent, if any, and those after it.
unfoldable pub send :
    Option ℕ
    → Result Response
    → List Response × Option Code × Adapter
    → Adapter
    → List Response × Option Code × Adapter
send room (err e) rest a = ([], some e, a)
send none (ok r) (rs, e, b) a = (r ∷ rs, e, b)
send (some zero) (ok r) rest a = ([], some canceled, a)
send (some (suc n)) (ok r) (rs, e, b) a = (r ∷ rs, e, b)

unfoldable pub read_all :
    Protobuf → String → Option ℕ → List String → Adapter → List Response × Option Code × Adapter
unfolding read_document respond fewer send
read_all pb tx_id room [] a = ([], none, a)
read_all pb tx_id room (path ∷ paths) a =
    let (r, b) = read_document tx_id path a in
    let rest = read_all pb tx_id (fewer room) paths b in send room (respond pb path r) rest b

abbrev pub is_canceled : Code → Bool
is_canceled canceled = true
is_canceled _ = false

-- What the handler leaves of the transaction that it started: a failure rolls it back, unless the
-- context has ended.
unfoldable pub release :
    String → List Response × Option Code × Adapter → List Response × Option Code × Adapter
unfolding Transaction.rollback_transaction
release tx_id (rs, none, a) = (opened tx_id ∷ rs, none, a)
release tx_id (rs, some e, a) = (
  opened tx_id ∷ rs,
  some e,
  if is_canceled e then a else (Transaction.rollback_transaction tx_id a).1,
)

-- The reads in a new transaction, after the message with its identifier.
unfoldable pub read_new :
    Protobuf
    → Option ℕ
    → List String
    → Result String × Adapter
    → List Response × Option Code × Adapter
unfolding read_all release fewer
read_new pb room paths (err e, a) = ([], some e, a)
read_new pb none paths (ok tx_id, a) = release tx_id (read_all pb tx_id none paths a)
read_new pb (some zero) paths (ok tx_id, a) = ([], some canceled, a)
read_new pb (some (suc n)) paths (ok tx_id, a) = release tx_id (read_all pb tx_id (some n) paths a)

unfoldable pub batch_get_documents :
    Protobuf
    → ℕ
    → String
    → Option ℕ
    → Selector
    → List String
    → Adapter
    → List Response × Option Code × Adapter
unfolding read_all read_new Transaction.begin_transaction
batch_get_documents pb now id room no_selector paths a = read_all pb "" room paths a
batch_get_documents pb now id room (transaction tx_id) paths a = read_all pb tx_id room paths a
batch_get_documents pb now id room (new_transaction read_only) paths a =
    read_new pb room paths (Transaction.begin_transaction now id read_only a)
