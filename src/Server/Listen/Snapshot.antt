-- ===== src/Server/Listen/Snapshot.antt =====
-- `deliverSnapshot` of internal/server/listen.go, over the SQLite backend.
pub mod Read
pub mod Pages
pub mod Other
pub mod Own
use embyr.Base.{
  ℕ, zero, suc, String, Bool, true, false, ◌||◌, List, [], ◌∷◌, Option, none, some, if◌then◌else◌,
}
use embyr.Base.Int.{ℤ}
use embyr.Base.Result.{Code, not_found, internal, Result, ok, err}
use embyr.Proto.{ProtoDocument, Protobuf}
use embyr.Store.{Document, Query}
use embyr.Codec.Documents.{store_to_proto}
use embyr.Sqlite.Table.{Row}
use embyr.Sqlite.Adapter.{Adapter, get_document}
use embyr.Sqlite.Paging.{Statement, query_documents}
use embyr.Server.RunQuery.{is_empty, is_positive}
use embyr.Server.Listen.Messages.{
  TargetInfo, no_change, add, current, Response, target_change, document_change, done, panicked,
  unfinished, failed, Sent, follow,
}

-- A document that was decoded is sent to a target.
unfoldable pub send_decoded : ℤ → Option ProtoDocument → Sent
send_decoded id none = ([], failed internal)
send_decoded id (some p) = (document_change p id ∷ [], done)

unfoldable pub send_documents : Protobuf → ℤ → List Document → Sent
unfolding store_to_proto send_decoded follow
send_documents pb id [] = ([], done)
send_documents pb id (d ∷ ds) =
    follow (send_decoded id (store_to_proto pb d)) (send_documents pb id ds)

-- A listed path, as it was read; one without a document is skipped.
unfoldable pub send_read : Protobuf → ℤ → Result Document → Sent
unfolding store_to_proto send_decoded
send_read pb id (err not_found) = ([], done)
send_read pb id (err e) = ([], failed e)
send_read pb id (ok d) = send_decoded id (store_to_proto pb d)

unfoldable pub send_paths : Protobuf → ℤ → Adapter → List String → Sent
unfolding get_document send_read follow
send_paths pb id a [] = ([], done)
send_paths pb id a (path ∷ paths) =
    follow (send_read pb id (get_document path a).0) (send_paths pb id a paths)

-- The query for the next page, which has no cursors.
abbrev pub next_query : Query → List ℕ → Query
next_query q token = record q { start_cursor = none; end_cursor = none; page_token = token }

-- The messages before and after the documents of a snapshot.
unfoldable pub open_snapshot : ℤ → Sent
open_snapshot id = (target_change add (id ∷ []) false ∷ [], done)

unfoldable pub seal_snapshot : ℤ → Sent
seal_snapshot id =
    (target_change current (id ∷ []) true ∷ target_change no_change [] true ∷ [], done)

module _ (select : Statement → List Row → List Document) (pb : Protobuf) where
  -- The loop over the pages of a query, on `fuel` rounds.
  unfoldable pub send_pages : ℕ → ℤ → Query → Adapter → Sent
  unfolding is_empty is_positive send_documents follow
  send_pages zero id q a = ([], unfinished)
  send_pages (suc fuel) id q a = elim (query_documents select q a) [
    | err e ↦ ([], failed e)
    | ok page ↦
        let rest = send_pages fuel id (next_query q page.next_page_token) a in
        if is_empty page.next_page_token || is_positive q.limit
        then send_documents pb id page.documents
        else follow (send_documents pb id page.documents) rest
  ]

  -- A target without paths is read as a query; `QueryDocuments` dereferences a missing one.
  unfoldable pub send_contents : ℕ → ℤ → List String → Option Query → Adapter → Sent
  unfolding send_pages send_paths
  send_contents fuel id (path ∷ paths) q a = send_paths pb id a (path ∷ paths)
  send_contents fuel id [] none a = ([], panicked)
  send_contents fuel id [] (some q) a = send_pages fuel id q a

  unfoldable pub deliver_snapshot : ℕ → Adapter → TargetInfo → Sent
  unfolding send_contents open_snapshot seal_snapshot follow
  deliver_snapshot fuel a ti = follow (open_snapshot ti.target_id) (
      follow (send_contents fuel ti.target_id ti.doc_paths ti.query a) (seal_snapshot ti.target_id))
