-- ===== src/Tests/Writes.antt =====
-- A Write stream at a concrete input.
use embyr.Base.{ℕ, List, [], ◌∷◌, none, ◌≡◌}
use embyr.Base.Int.{pos}
use embyr.Proto.{end, field, integer, ProtoDocument}
use embyr.Server.Writes.{Write, update_document, delete_document}
use embyr.Server.WriteStream.{Response, handshake, write, request}
use embyr.Server.WriteStream.Laws.{requests, Applies, write-Applies}
use embyr.Tests.{database, floats, runtime}

abbrev greeting : List Write
greeting = []

abbrev eve : ProtoDocument
eve = record {
  name = "projects/p/databases/d/documents/users/eve";
  fields = field "visits" (integer (pos 5)) end;
  create_time = 0;
  update_time = 0;
}

abbrev added : Write
added = record {
  operation = update_document eve;
  update_mask = [];
  update_transforms = [];
  current_document = none;
}

abbrev removed : Write
removed = record {
  operation = delete_document "projects/p/databases/d/documents/users/ada";
  update_mask = [];
  update_transforms = [];
  current_document = none;
}

abbrev batches : List (ℕ × List Write)
batches = (9000, added ∷ removed ∷ []) ∷ (9500, removed ∷ []) ∷ []

write-Applies_example :
    let r = write floats runtime (request 8000 greeting ∷ requests batches) database in
    (rs : List Response) × (r.0 ≡ handshake ∷ rs)
    × Applies floats runtime batches database rs r.1 r.2
write-Applies_example = write-Applies floats runtime 8000 greeting batches database
