-- ===== src/Server/Documents.antt =====
-- The document calls of internal/server/handlers.go. `now` is the time of the call; a generated
-- document identifier is an argument, `none` where there is no randomness.
pub mod Laws
use embyr.Base.{
  ℕ, String, Bool, true, false, List, [], ◌∷◌, Option, none, some, str_eq, if◌then◌else◌,
}
use embyr.Base.Int.{ℤ}
use embyr.Base.Result.{
  Code, invalid_argument, not_found, already_exists, internal, unknown, Result, ok, err,
}
use embyr.Text.{trim_right, slash}
use embyr.Store.{Document, WriteMode, upsert, update, insert_only, ListPage}
use embyr.Store.Path.{build_path}
use embyr.Proto.{Fields, end, ProtoDocument, Protobuf}
use embyr.Codec.Documents.{proto_to_store, store_to_proto}
use embyr.Sqlite.Adapter as Adapter
use embyr.Sqlite.Adapter.{Adapter}
use embyr.Sqlite.Paging as Paging
use embyr.Server.Mask.{apply_mask}
use embyr.Server.Writes.{Precondition, mode_of, must_exist, is_nil}

-- A stored document as the answer; one that does not decode is an error.
unfoldable pub reply : Protobuf → Result Document × Adapter → Result ProtoDocument × Adapter
unfolding store_to_proto
reply pb (err e, a) = (err e, a)
reply pb (ok d, a) = elim (store_to_proto pb d) [ none ↦ (err unknown, a) | some p ↦ (ok p, a) ]

unfoldable pub get_document : Protobuf → String → Adapter → Result ProtoDocument × Adapter
unfolding reply Adapter.get_document
get_document pb name a =
    if str_eq name "" then (err invalid_argument, a) else reply pb (Adapter.get_document name a)

-- The creation of a document under a name that is known.
unfoldable pub create_at : Protobuf → ℕ → String → Fields → Adapter → Result ProtoDocument × Adapter
unfolding proto_to_store reply Adapter.create_document
create_at pb now path fields a = elim (proto_to_store pb now path fields 0) [
  | none ↦ (err internal, a)
  | some d ↦ reply pb (Adapter.create_document now d a)
]

-- The name to use: the one asked for, or a generated one.
unfoldable pub document_id : String → Option String → Option String
document_id asked generated = if str_eq asked "" then generated else some asked

unfoldable pub create_document :
    Protobuf
    → ℕ
    → Option String
    → String
    → String
    → String
    → Fields
    → Adapter
    → Result ProtoDocument × Adapter
unfolding document_id create_at trim_right build_path
create_document pb now generated parent collection_id asked fields a =
    if str_eq parent ""
    then (err invalid_argument, a)
    else if str_eq collection_id ""
    then (err invalid_argument, a)
    else elim (document_id asked generated) [
      | none ↦ (err internal, a)
      | some id ↦ create_at pb now (build_path (trim_right slash parent) collection_id id) fields a
    ]

-- The fields and the mode of an update with a mask, from the current document.
unfoldable pub merge :
    Protobuf → List String → WriteMode → Fields → Result Document → Result (Fields × WriteMode)
unfolding store_to_proto apply_mask
merge pb mask update fields (err not_found) = err not_found
merge pb mask mode fields (err not_found) = ok (fields, mode)
merge pb mask mode fields (err e) = err e
merge pb mask insert_only fields (ok d) = err already_exists
merge pb mask mode fields (ok d) = elim (store_to_proto pb d) [
  | none ↦ err internal
  | some p ↦ ok (apply_mask p.fields fields mask, update)
]

unfoldable pub masked :
    Protobuf → List String → WriteMode → ProtoDocument → Adapter → Result (Fields × WriteMode)
unfolding merge Adapter.get_document
masked pb mask mode doc a =
    if is_nil mask
    then ok (doc.fields, mode)
    else merge pb mask mode doc.fields (Adapter.get_document doc.name a).0

unfoldable pub store_masked :
    Protobuf → ℕ → String → Result (Fields × WriteMode) → Adapter → Result ProtoDocument × Adapter
unfolding proto_to_store reply Adapter.update_document
store_masked pb now name (err e) a = (err e, a)
store_masked pb now name (ok (fields, mode)) a = elim (proto_to_store pb now name fields 0) [
  | none ↦ (err internal, a)
  | some d ↦ reply pb (Adapter.update_document now d mode a)
]

unfoldable pub update_document :
    Protobuf
    → ℕ
    → Option ProtoDocument
    → List String
    → Option Precondition
    → Adapter
    → Result ProtoDocument × Adapter
unfolding masked store_masked mode_of
update_document pb now none mask pre a = (err invalid_argument, a)
update_document pb now (some doc) mask pre a =
    if str_eq doc.name ""
    then (err invalid_argument, a)
    else store_masked pb now doc.name (masked pb mask (mode_of pre) doc a) a

unfoldable pub delete_document :
    String → Option Precondition → Adapter → Result (Unit {0}) × Adapter
unfolding must_exist Adapter.delete_document
delete_document name pre a =
    if str_eq name ""
    then (err invalid_argument, a)
    else Adapter.delete_document name (must_exist pre) a

-- The documents of a page, decoded; one that does not decode fails the call.
unfoldable pub decode_all : Protobuf → List Document → Result (List ProtoDocument)
unfolding store_to_proto
decode_all pb [] = ok []
decode_all pb (d ∷ ds) = elim (store_to_proto pb d) [
  | none ↦ err internal
  | some p ↦ elim (decode_all pb ds) [ err e ↦ err e | ok ps ↦ ok (p ∷ ps) ]
]

unfoldable pub list_documents :
    Protobuf → String → String → ℤ → List ℕ → Adapter → Result (List ProtoDocument × List ℕ)
unfolding decode_all Paging.list_documents
list_documents pb parent collection_id page_size page_token a =
    if str_eq parent ""
    then err invalid_argument
    else let page = Paging.list_documents parent collection_id page_size page_token a in
      elim (decode_all pb page.documents) [
        | err e ↦ err e
        | ok docs ↦ ok (docs, page.next_page_token)
      ]
