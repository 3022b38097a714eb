-- ===== src/Tests/Databases.antt =====
-- The adapter and its transactions at concrete inputs.
use embyr.Base.{List, [], ◌∷◌, ◌≡◌, refl, true, arith}
use embyr.Base.Result.{ok, err, aborted}
use embyr.Store.{upsert, update, put, delete}
use embyr.Store.Path.{parse_path}
use embyr.Sqlite.Table.{document_of, find_row}
use embyr.Sqlite.Adapter.{Adapter, create_document, update_document, delete_document}
use embyr.Sqlite.Adapter.Laws.{IsSound, operations-IsSound}
use embyr.Sqlite.Spec.{Op, write, get}
use embyr.Sqlite.Spec as Spec
use embyr.Sqlite.Refine.{view, deliver}
use embyr.Sqlite.Refine.Run.{run, spec_run, run-eq-spec_run}
use embyr.Sqlite.Transaction.{
  get_document_for_transaction, commit_transaction, find_tx, versions_of,
}
use embyr.Sqlite.Transaction.Laws.{Commits, commit_transaction-Commits}
use embyr.Sqlite.Transaction.Isolation.{no_lost_update}
use embyr.Sqlite.Transaction.{commit_ops}
use embyr.Sqlite.Transaction.Writes.{perform_all, commit_ops-perform_all}
use embyr.Store.{WriteOp}
use embyr.Tests.{database-SetsKeys, ada, ada_row, bob_row, database, new_ada}

calls : List Op
calls = write 9000 new_ada update ∷ Spec.delete ada true ∷ get ada ∷ []

run-eq-spec_run_example :
    let (rs, a') = run calls database in
    let (rs', m, changes) = spec_run calls (view database.documents) in
    (rs ≡ rs') × (view a'.documents ≡ m) × (a'.subs ≡ deliver changes database.subs)
run-eq-spec_run_example = run-eq-spec_run calls database

database-IsSound : IsSound database
unfolding parse_path find_row
database-IsSound = record {
  rows = (
    record { placed = refl; written = omega arith },
    refl,
    (record { placed = refl; written = omega arith }, refl, tt),
  );
  buffers = tt;
}

operations-IsSound_example :
    IsSound (create_document 9000 new_ada database).1
    × IsSound (update_document 9000 new_ada upsert database).1
    × IsSound (delete_document ada true database).1
operations-IsSound_example =
    operations-IsSound 9000 new_ada upsert ada true database database-IsSound

commit_transaction-Commits_example :
    Commits 9000 "t1"
      (put new_ada upsert ∷ delete bob_row.path ∷ [])
      database
      (commit_transaction 9000 "t1" (put new_ada upsert ∷ delete bob_row.path ∷ []) database).0
      (commit_transaction 9000 "t1" (put new_ada upsert ∷ delete bob_row.path ∷ []) database).1
commit_transaction-Commits_example =
    commit_transaction-Commits 9000 "t1" (put new_ada upsert ∷ delete bob_row.path ∷ []) database

-- The database after the transaction's read, and after the write of another client.
abbrev after_read : Adapter
unfolding get_document_for_transaction
after_read = (get_document_for_transaction "t1" ada database).1

abbrev after_write : Adapter
after_write = (update_document 9000 new_ada upsert after_read).1

no_lost_update_example :
    commit_transaction 9500 "t1" (put new_ada upsert ∷ []) after_write ≡ (err aborted, after_write)
unfolding find_tx get_document_for_transaction update_document parse_path versions_of
no_lost_update_example =
    no_lost_update 9000 9500 "t1" ada upsert new_ada (document_of ada_row)
      (record new_ada { created_at = 1000; updated_at = 9000; version = 4 })
      (put new_ada upsert ∷ []) database after_read after_write
      (record { id = "t1"; started_at = 5; reads = []; expires_at = 60 }) [] database-SetsKeys
      (refl, refl) refl refl refl refl refl

plain_writes : List WriteOp
plain_writes =
    put (record new_ada { created_at = 1000 }) upsert
    ∷ delete "projects/p/databases/d/documents/users/bob"
    ∷ []

commit_ops-perform_all_example :
    commit_ops 9000 plain_writes database.documents
    ≡ ok (perform_all 9000 plain_writes database).documents
unfolding plain_writes parse_path
commit_ops-perform_all_example =
    commit_ops-perform_all 9000 plain_writes database ((refl, λ e. omega (arith, e)), (tt, tt))
