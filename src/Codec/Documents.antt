-- ===== src/Codec/Documents.antt =====
-- Documents between messages and the store: `ProtoToStore`, `StoreToProto` and `NewDocumentID`
-- of internal/codec/doc.go.
use embyr.Base.{ℕ, String, Option, none, some, ◌||◌, ◌==◌, str_eq, if◌then◌else◌}
use embyr.Proto.{Fields, end, ProtoDocument, Protobuf}
use embyr.Store.{Document}

-- `ProtoToStore`, for a document whose creation time is `create_time` (0 where it is not set);
-- `none` is a failure of protojson.
unfoldable pub proto_to_store : Protobuf → ℕ → String → Fields → ℕ → Option Document
proto_to_store pb now name fields create_time = elim (pb.marshal_fields fields) [
  | none ↦ none
  | some content ↦ some (record {
    path = name;
    content = content;
    created_at = if create_time == 0 then now else create_time;
    updated_at = now;
    version = 1;
  })
]

-- The fields in a stored text.
unfoldable pub decode_fields : Protobuf → String → Option Fields
decode_fields pb content =
    if str_eq content "" || str_eq content "{}" then some end else pb.unmarshal_fields content

unfoldable pub store_to_proto : Protobuf → Document → Option ProtoDocument
unfolding decode_fields
store_to_proto pb d = elim (decode_fields pb d.content) [
  | none ↦ none
  | some fields ↦ some (record {
    name = d.path;
    fields = fields;
    create_time = d.created_at;
    update_time = d.updated_at;
  })
]
