-- ===== src/Tests/Calls.antt =====
-- Document calls, listeners and sessions at concrete inputs.
use embyr.Base.{◌≤◌, true, [], ◌∷◌, ◌++◌, some, ◌≡◌, refl, arith, length}
use embyr.Base.Int.{pos}
use embyr.Base.Result.{err, failed_precondition}
use embyr.Store.{WriteMode, update, insert_only}
use embyr.Proto.{Fields, end, field, integer, ProtoDocument, Protobuf}
use embyr.Text.{split_on}
use embyr.Codec.Documents.{decode_fields}
use embyr.Sqlite.Table.{document_of, find_row}
use embyr.Sqlite.Refine.{view}
use embyr.Server.Mask.{apply_mask}
use embyr.Server.Writes.{update_document, update_time, exists, mode_of, apply_write}
use embyr.Server.Writes.Laws.{apply_write-IsStale}
use embyr.Server.Documents as Documents
use embyr.Server.Documents.Laws.{Updated, update_document-Updated}
use embyr.Webchannel.Session.{
  rid_window_size, seen_rid, encode_grpc_web_frame, decode_grpc_web_frame, payload,
}
use embyr.Webchannel.Session.Laws.{decode-encode_grpc_web_frame, seen_rid_lem}
use embyr.Tests.{ada_row, database, floats, runtime}

abbrev five_visits : Fields
five_visits = field "visits" (integer (pos 5)) end

-- A runtime whose only encoding is that of one map.
abbrev one_map : Protobuf
one_map = record runtime {
  marshal_fields = λ m. some "visits: 5";
  unmarshal_fields = λ s. some five_visits;
}

abbrev visit : ProtoDocument
visit = record {
  name = "projects/p/databases/d/documents/users/ada";
  fields = five_visits;
  create_time = 0;
  update_time = 0;
}

update_document-Updated_example :
    Updated visit.name
      (document_of ada_row)
      (apply_mask end five_visits ("visits" ∷ []))
      "visits: 5"
      (Documents.update_document one_map 9000
        (some visit)
        ("visits" ∷ [])
        (some (exists true))
        database)
unfolding mode_of view find_row decode_fields apply_mask split_on document_of
update_document-Updated_example =
    update_document-Updated one_map 9000 visit "visits" [] (some (exists true)) database
      (document_of ada_row) end "visits: 5" refl update_insert refl refl refl refl
  where
    update_insert : ◌≡◌ {A = WriteMode} update insert_only → ⊥
    update_insert e = cc

apply_write-IsStale_example :
    apply_write floats runtime 9000
      (record {
        operation = update_document visit;
        update_mask = [];
        update_transforms = [];
        current_document = some (update_time 7000);
      })
      database
    ≡ (err failed_precondition, database)
unfolding view find_row document_of
apply_write-IsStale_example =
    apply_write-IsStale floats runtime 9000 visit [] [] 7000 database refl (λ e. omega (arith, e))

decode-encode_grpc_web_frame_example :
    decode_grpc_web_frame (encode_grpc_web_frame (8 ∷ 1 ∷ []) ++ 0 ∷ []) ≡ payload (8 ∷ 1 ∷ [])
decode-encode_grpc_web_frame_example =
    decode-encode_grpc_web_frame (8 ∷ 1 ∷ []) (0 ∷ []) (omega arith)

seen_rid_example :
    ((seen_rid "7" (seen_rid "7" ("5" ∷ "6" ∷ [])).1).0 ≡ true)
    × (length (seen_rid "7" ("5" ∷ "6" ∷ [])).1 ≤ rid_window_size)
seen_rid_example = seen_rid_lem "7" ("5" ∷ "6" ∷ []) (omega arith)
