-- ===== src/Server/Listen/Changes.antt =====
-- What a change sends to the targets of a Listen stream (internal/server/listen.go).
pub mod Laws
use embyr.Base.{
  String, Bool, true, false, ◌&&◌, List, [], ◌∷◌, Option, none, some, any, str_eq, if◌then◌else◌,
}
use embyr.Base.Int.{ℤ}
use embyr.Base.Result.{Code, not_found, internal, Result, ok, err}
use embyr.Proto.{Fields, ProtoDocument, Float64, Protobuf}
use embyr.Store.{Document, Query, DocChange, DocChangeKind, upserted, deleted}
use embyr.Codec.Documents.{store_to_proto}
use embyr.Codec.Match.{matches_filter}
use embyr.Sqlite.Adapter.{Adapter, get_document}
use embyr.Server.Listen.Messages.{
  TargetInfo, no_change, target_change, document_change, document_delete, done, failed, Sent,
  follow,
}

-- By path for a target of documents, by parent and collection for a query.
unfoldable pub matches : DocChange → String → String → List String → Bool
matches c parent collection_id [] = str_eq parent c.parent && str_eq collection_id c.collection
matches c parent collection_id (path ∷ paths) = any (λ p. str_eq p c.path) (path ∷ paths)

unfoldable pub passes : Float64 → Protobuf → Option Query → Fields → Bool
unfolding matches_filter
passes f pb none fields = true
passes f pb (some q) fields = matches_filter f pb fields q.filter

-- The document of a change, decoded, and the NO_CHANGE after it; one that the query's filter
-- refuses sends nothing.
unfoldable pub forward_decoded : Float64 → Protobuf → TargetInfo → Option ProtoDocument → Sent
unfolding passes
forward_decoded f pb ti none = ([], failed internal)
forward_decoded f pb ti (some p) =
    if passes f pb ti.query p.fields
    then (document_change p ti.target_id ∷ target_change no_change [] true ∷ [], done)
    else ([], done)

unfoldable pub forward_read : Float64 → Protobuf → TargetInfo → Result Document → Sent
unfolding store_to_proto forward_decoded
forward_read f pb ti (err not_found) = ([], done)
forward_read f pb ti (err e) = ([], failed e)
forward_read f pb ti (ok d) = forward_decoded f pb ti (store_to_proto pb d)

-- A deletion is sent as it is; for any other change the document is read again.
unfoldable pub forward : Float64 → Protobuf → Adapter → DocChangeKind → String → TargetInfo → Sent
unfolding get_document forward_read
forward f pb a deleted path ti =
    (document_delete path ti.target_id ∷ target_change no_change [] true ∷ [], done)
forward f pb a upserted path ti = forward_read f pb ti (get_document path a).0

unfoldable pub notify_target : Float64 → Protobuf → Adapter → DocChange → TargetInfo → Sent
unfolding matches forward
notify_target f pb a c ti =
    if matches c ti.parent ti.collection_id ti.doc_paths
    then forward f pb a c.kind c.path ti
    else ([], done)

unfoldable pub fan_out : Float64 → Protobuf → Adapter → DocChange → List TargetInfo → Sent
unfolding notify_target follow
fan_out f pb a c [] = ([], done)
fan_out f pb a c (ti ∷ targets) = follow (notify_target f pb a c ti) (fan_out f pb a c targets)
