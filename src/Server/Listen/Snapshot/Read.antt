-- ===== src/Server/Listen/Snapshot/Read.antt =====
-- Documents as they are read and sent.
use embyr.Base.{String, List, Option, none, some, ◌≡◌, refl, Option-cases, inl, inr}
use embyr.Base.Result.{not_found, Result, ok, err}
use embyr.Store.{Document}
use embyr.Proto.{ProtoDocument, Protobuf}
use embyr.Codec.Documents.{store_to_proto, decode_fields}
use embyr.Sqlite.Table.{Row, document_of, find_row}
use embyr.Sqlite.Table.Laws.{find_row-path}
use embyr.Sqlite.Adapter.{Adapter, get_document}
use embyr.Sqlite.Refine.{view, view-none, view-some}

-- The document of a path, as it is sent.
abbrev pub proto_of : Protobuf → Option Document → Option ProtoDocument
proto_of pb none = none
proto_of pb (some d) = store_to_proto pb d

abbrev pub read_result : Option Document → Result Document
read_result none = err not_found
read_result (some d) = ok d

pub get_document-view :
    (path : String) (a : Adapter) → (get_document path a).0 ≡ read_result (view a.documents path)
get_document-view path a = elim (Option-cases (find_row path a.documents)) [
  | inl e ↦ rw (view-none path a.documents e) (unfold get_document in rw (e, get_document) refl)
  | inr (q, e) ↦
      rw (view-some path a.documents e) (unfold get_document in rw (e, get_document) refl)
]

-- A document is found under its own path.
pub view-path :
    (path : String) (rows : List Row) (d : Document) → view rows path ≡ some d → d.path ≡ path
view-path path rows d h = elim (Option-cases (find_row path rows)) [
  | inl e ↦ absurd (let k = rw (view-none path rows e) at h in cc)
  | inr (q, e) ↦
      let k = rw (view-some path rows e) at h in
      let same : document_of q ≡ d = cc in
      rw (← same) (unfold document_of in find_row-path path rows q e)
]

pub store_to_proto-name :
    (pb : Protobuf) (d : Document) (p : ProtoDocument)
    → store_to_proto pb d ≡ some p
    → p.name ≡ d.path
store_to_proto-name pb d p h = elim (Option-cases (decode_fields pb d.content)) [
  | inl e ↦
      let k : none ≡ some p = unfold store_to_proto in (rw (e, store_to_proto) at h) in absurd cc
  | inr (fields, e) ↦
      let k : some (record {
        name = d.path;
        fields = fields;
        create_time = d.created_at;
        update_time = d.updated_at;
      })
          ≡ some p =
        unfold store_to_proto in (rw (e, store_to_proto) at h) in
      let same : record {
        name = d.path;
        fields = fields;
        create_time = d.created_at;
        update_time = d.updated_at;
      }
          ≡ p =
        cc in
      rw (← same) refl
]
