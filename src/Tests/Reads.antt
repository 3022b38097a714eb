-- ===== src/Tests/Reads.antt =====
-- Batches of reads at concrete inputs.
use embyr.Base.{String, List, [], ◌∷◌, none, ◌≡◌, refl, false}
use embyr.Base.Result.{internal}
use embyr.Proto.{Protobuf}
use embyr.Sqlite.Adapter.{Adapter}
use embyr.Sqlite.Refine.{view}
use embyr.Sqlite.Transaction.Laws.{SameTables}
use embyr.Server.Reads.{no_selector, new_transaction, batch_get_documents}
use embyr.Server.Reads.Laws.{answers, batch_get_documents-answers, batch_get_documents-SameTables}
use embyr.Tests.{database, runtime}

abbrev paths : List String
paths =
    "projects/p/databases/d/documents/users/ada" ∷ "projects/p/databases/d/documents/users/eve" ∷ []

batch_get_documents-answers_example :
    batch_get_documents runtime 9000 "t2" none no_selector paths database ≡ (
      (answers runtime (view database.documents) paths).0,
      (answers runtime (view database.documents) paths).1,
      database,
    )
batch_get_documents-answers_example = batch_get_documents-answers runtime 9000 "t2" paths database

-- A database whose document is not JSON, for a runtime that refuses it.
abbrev strict : Protobuf
strict = record runtime { unmarshal_fields = λ s. none }

abbrev spoilt : Adapter
spoilt = record database {
  documents =
      record {
        path = "projects/p/databases/d/documents/users/ada";
        collection = "users";
        parent = "projects/p/databases/d/documents";
        content = "spoilt";
        created_at = 1000;
        updated_at = 2000;
        version = 3;
      }
      ∷ [];
}

batch_get_documents-SameTables_example :
    SameTables
      (batch_get_documents strict 9000 "t2" none (new_transaction false) paths spoilt).2
      spoilt
unfolding batch_get_documents
batch_get_documents-SameTables_example =
    batch_get_documents-SameTables strict 9000 "t2" none false paths spoilt internal refl
      (λ e. absurd cc)
