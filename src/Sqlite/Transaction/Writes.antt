-- ===== src/Sqlite/Transaction/Writes.antt =====
-- The writes of a commit against the same writes outside a transaction.
use embyr.Base.{
  ℕ, String, false, List, [], ◌∷◌, ◌≡◌, ◌≢◌, refl, sym, ◌∙◌, ap, arith, str_eq, Bool-cases, inl,
  inr, All, ltb,
}
use embyr.Base.Result.{Result, ok}
use embyr.Store.{Document, upsert, update, insert_only, WriteOp, put, delete}
use embyr.Store.Path.{parse_path}
use embyr.Sqlite.Table.{upsert_doc, delete_doc}
use embyr.Sqlite.Adapter.{
  Adapter, or_time, notify_subscribers, store_row, write_mode, update_document, delete_document,
}
use embyr.Sqlite.Transaction.{stamped, commit_put, commit_op, commit_ops}

-- The adapter after the same write as a call of its own.
unfoldable pub perform : ℕ → WriteOp → Adapter → Adapter
unfolding update_document delete_document
perform now (put d mode) a = (update_document now d mode a).1
perform now (delete path) a = (delete_document path false a).1

unfoldable pub perform_all : ℕ → List WriteOp → Adapter → Adapter
unfolding perform
perform_all now [] a = a
perform_all now (op ∷ ops) a = perform_all now ops (perform now op a)

-- A delete, or an upsert under a path that names a collection and with a creation time.
abbrev pub IsPlain : WriteOp → Type 0
IsPlain (put d upsert) = (str_eq (parse_path d.path).0 "" ≡ false) × (d.created_at ≢ 0)
IsPlain (put d update) = ⊥
IsPlain (put d insert_only) = ⊥
IsPlain (delete path) = Unit

or_time_set : (c t u : ℕ) → c ≢ 0 → or_time c t ≡ or_time c u
or_time_set c t u h = ground arith

update_document-stamped :
    (now : ℕ) (d : Document) (a : Adapter)
    → d.created_at ≢ 0
    → update_document now d upsert a ≡ write_mode upsert (stamped now d) a
update_document-stamped now d a h =
    unfold update_document stamped in
    ap
      (λ c.
        write_mode upsert (record d { created_at = c; updated_at = or_time d.updated_at now }) a)
      (or_time_set d.created_at (or_time d.updated_at now) now h)

write_mode-documents :
    (d : Document) (a : Adapter)
    → str_eq (parse_path d.path).0 "" ≡ false
    → (write_mode upsert d a).1.documents
      ≡ (upsert_doc d (parse_path d.path).0 (parse_path d.path).1 a.documents).1
write_mode-documents d a h =
    unfold write_mode store_row notify_subscribers in
    rw (h, write_mode, store_row, notify_subscribers) refl

delete_document-documents :
    (path : String) (a : Adapter)
    → (delete_document path false a).1.documents ≡ (delete_doc path a.documents).1
delete_document-documents path a = elim (Bool-cases (ltb 0 (delete_doc path a.documents).0)) [
  | inl some_gone ↦
      unfold delete_document notify_subscribers in
      rw (some_gone, delete_document, notify_subscribers) refl
  | inr none_gone ↦ unfold delete_document in rw (none_gone, delete_document) refl
]

commit_op-perform :
    (now : ℕ) (op : WriteOp) (a : Adapter)
    → IsPlain op
    → commit_op now op a.documents ≡ ok (perform now op a).documents
commit_op-perform now (put d upsert) a (named, created) =
    let written : (update_document now d upsert a).1.documents
        ≡ (upsert_doc (stamped now d) (parse_path d.path).0 (parse_path d.path).1 a.documents).1 =
      ap (λ (r : Result Document × Adapter). r.1.documents)
        (update_document-stamped now d a created)
      ∙ unfold stamped in
        write_mode-documents
          (record d {
            created_at = or_time d.created_at now;
            updated_at = or_time d.updated_at now;
          })
          a named in
    unfold commit_op commit_put perform in ap ok (sym written)
commit_op-perform now (put d update) a h = absurd h
commit_op-perform now (put d insert_only) a h = absurd h
commit_op-perform now (delete path) a h =
    unfold commit_op perform in ap ok (sym (delete_document-documents path a))

-- A commit of deletes and upserts leaves the table that the same writes leave as calls of their
-- own, one after the other; the upserts have a creation time and paths that name a collection.
pub commit_ops-perform_all :
    (now : ℕ) (ops : List WriteOp) (a : Adapter)
    → All IsPlain ops
    → commit_ops now ops a.documents ≡ ok (perform_all now ops a).documents
unfolding commit_ops perform_all
commit_ops-perform_all now [] a h = refl
commit_ops-perform_all now (op ∷ ops) a (h, hs) =
    rw (commit_op-perform now op a h, commit_ops)
      (commit_ops-perform_all now ops (perform now op a) hs)
