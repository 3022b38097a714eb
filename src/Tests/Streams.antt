-- ===== src/Tests/Streams.antt =====
-- Listen streams at concrete inputs.
use embyr.Base.{List, map, [], ◌∷◌, none, some, ◌≡◌, refl, true, false, arith}
use embyr.Base.Int.{pos}
use embyr.Store.{Document, Query, DocChange, deleted}
use embyr.Store.Path.{parse_path}
use embyr.Sqlite.Table.{Row, find_row, document_of}
use embyr.Server.RunQuery.{is_positive}
use embyr.Sqlite.Paging.{Statement, positive_or, valid_statement, statement_of}
use embyr.Sqlite.Spec.{create}
use embyr.Sqlite.Spec as Spec
use embyr.Sqlite.Refine.{view}
use embyr.Listen.Registry.{send}
use embyr.Server.RunQuery.Complete.{selected}
use embyr.Server.Listen.Messages.{TargetInfo, follow}
use embyr.Server.Listen.Snapshot.{open_snapshot, seal_snapshot, send_documents, deliver_snapshot}
use embyr.Server.Listen.Snapshot.Pages.{deliver_snapshot_complete}
use embyr.Server.Listen.Snapshot.Read.{proto_of}
use embyr.Server.Listen.Stream.{Stream, change, tick}
use embyr.Server.Listen.Stream.Live.{Move, call, event, live, added, live-shows}
use embyr.Server.Listen.View.{shown}
use embyr.Tests.{ada, database, floats, runtime}

-- A stream without targets, whose subscription is new.
abbrev fresh : Stream
fresh = record { targets = []; subscription = record { id = 0; waiting = []; overflowed = false } }

-- Someone deletes the document, and the stream receives the change.
abbrev moves : List Move
moves = event tick ∷ call (Spec.delete ada true) ∷ event change ∷ []

live-shows_example :
    shown
      (pos 7)
      ada
      (live (λ st rows. []) floats runtime 1 (added (pos 7) (ada ∷ []) moves) database fresh).0.0
      none
    ≡ proto_of runtime (
        view
          (live
            (λ st rows. [])
            floats
            runtime
            1
            (added (pos 7) (ada ∷ []) moves)
            database
            fresh).1.documents
          ada)
unfolding live view find_row send parse_path
live-shows_example =
    live-shows (λ st rows. []) floats runtime 1 (pos 7) ada (ada ∷ []) moves database fresh none
      refl refl refl (tt, (tt, tt)) (refl, tt) refl refl

-- A SELECT without a condition.
abbrev every_row : Statement → List Row → List Document
every_row st rows = map document_of rows

abbrev everyone : Query
everyone = record {
  parent = "projects/p/databases/d/documents";
  collection_id = "users";
  filter = none;
  order_by = [];
  limit = pos 0;
  start_cursor = none;
  end_cursor = none;
  page_token = [];
  page_size = pos 300;
}

abbrev target : TargetInfo
target = record {
  parent = "projects/p/databases/d/documents";
  collection_id = "users";
  target_id = pos 1;
  query = some everyone;
  doc_paths = [];
}

deliver_snapshot_complete_example :
    deliver_snapshot every_row runtime 3 database target
    ≡ follow (open_snapshot (pos 1)) (
        follow
          (send_documents runtime (pos 1) (selected runtime every_row everyone database))
          (seal_snapshot (pos 1)))
unfolding valid_statement statement_of is_positive positive_or
deliver_snapshot_complete_example =
    deliver_snapshot_complete every_row runtime 3 database target everyone refl refl refl refl refl
      refl refl (omega arith) (omega arith)

abbrev dropped : DocChange
dropped = record {
  path = "projects/p/databases/d/documents/users/ada";
  collection = "users";
  parent = "projects/p/databases/d/documents";
  kind = deleted;
  version = 0;
  content = "";
}

abbrev overflowed : Stream
overflowed = record {
  targets =
      record {
        parent = "";
        collection_id = "";
        target_id = pos 7;
        query = none;
        doc_paths = "projects/p/databases/d/documents/users/ada" ∷ [];
      }
      ∷ [];
  subscription = record { id = 0; waiting = dropped ∷ []; overflowed = true };
}
