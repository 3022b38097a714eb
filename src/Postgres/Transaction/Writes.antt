-- ===== src/Postgres/Transaction/Writes.antt =====
-- A commit on PostgreSQL and the same writes as calls of their own.
use embyr.Base.{
  ℕ, Bool-cases, String, false, List, [], ◌∷◌, ◌++◌, some, ◌≡◌, ◌≢◌, refl, sym, ap, ◌∙◌, arith,
  append-nil, append_assoc, str_eq, Option-cases, inl, inr,
}
use embyr.Base.Result.{unknown, Result, ok, err, Result-cases}
use embyr.Store.{
  upserted, deleted, Document, WriteMode, upsert, update, insert_only, WriteOp, put, delete,
  DocChange,
}
use embyr.Store.Path.{parse_path}
use embyr.Sqlite.Table.{document_of, Row, find_row, insert_doc, update_doc}
use embyr.Sqlite.Adapter.{or_time}
use embyr.Postgres.Adapter.{
  notify_doc_change, TxRow, announce, Database, Adapter, encoded, store_row, insert_row, upsert_row,
  update_row, write_mode, update_document, delete_document,
}
use embyr.Postgres.Transaction.{
  sent, committed, delivered, announced, commit_put, commit_delete, commit_op, chain, commit_ops,
}

-- One write as a call.
abbrev pub perform : Database → ℕ → WriteOp → Adapter → Adapter
perform db now (put d mode) a = (update_document db now d mode a).1
perform db now (delete path) a = (delete_document db path false a).1

abbrev pub perform_all : Database → ℕ → List WriteOp → Adapter → Adapter
perform_all db now [] a = a
perform_all db now (op ∷ ops) a = perform_all db now ops (perform db now op a)

-- A document with a creation time and a path that names a collection; or a deletion.
abbrev pub ArePlain : List WriteOp → Type 0
ArePlain [] = Unit
ArePlain (put d mode ∷ ops) =
    ((d.created_at ≢ 0) × (str_eq (parse_path d.path).0 "" ≡ false)) × ArePlain ops
ArePlain (delete path ∷ ops) = ArePlain ops

-- The adapter with other rows, and some more notifications.
abbrev moved : Adapter → List Row × List DocChange → Adapter
moved a (rows, cs) = record a { documents = rows; notified = a.notified ++ cs }

ok_eq :
    {p q : List Row × List DocChange}
    → ◌≡◌ {A = Result (List Row × List DocChange)} (ok p) (ok q)
    → p ≡ q
ok_eq h = cc

unmoved : (a : Adapter) → a ≡ moved a (a.documents, [])
unmoved a = ap (λ l. record a { notified = l }) (sym (append-nil a.notified))

-- A statement whose notification a transaction could send, as a call.
announce-sent :
    {A : Type 0} (db : Database) (c : DocChange) (x : A) (rows : List Row) (a : Adapter)
    (p : List Row × List DocChange)
    → sent db c rows ≡ ok p
    → (announce db c x rows a).1 ≡ moved a p
announce-sent db c x rows a p h = elim (Bool-cases (db.accepts c)) [
  | inl good ↦
      let k : ok (rows, c ∷ []) ≡ ok p = unfold sent in (rw (good, sent) at h) in
      unfold announce in rw good (ap (λ q. moved a q) (ok_eq k))
  | inr bad ↦ let k : err unknown ≡ ok p = unfold sent in (rw (bad, sent) at h) in absurd cc
]

module _ (db : Database) (a : Adapter) where
  store_row-announced :
      (r : Row) (after : List Row) (p : List Row × List DocChange)
      → announced db (some (r, after)) a.documents ≡ ok p
      → (store_row db r after a).1 ≡ moved a p
  unfolding announced store_row
  store_row-announced r after p h =
      announce-sent db (notify_doc_change db upserted r r.content) (document_of r) after a p h

  update_row-announced :
      (e : Document) (p : List Row × List DocChange)
      → announced db (update_doc e a.documents) a.documents ≡ ok p
      → (update_row db (some e) a).1 ≡ moved a p
  update_row-announced e p h = elim (Option-cases (update_doc e a.documents)) [
    | inl absent ↦
        let k : ok (a.documents, []) ≡ ok p = unfold announced in (rw (absent, announced) at h) in
        unfold update_row in rw (absent, update_row) (unmoved a ∙ ap (λ q. moved a q) (ok_eq k))
    | inr ((r, rows), found) ↦
        unfold update_row in rw (found, update_row) (store_row-announced r rows p (rw found at h))
  ]

  insert_row-announced :
      (e : Document) (p : List Row × List DocChange)
      → commit_put db insert_only (some e) a.documents ≡ ok p
      → (insert_row db (some e) a).1 ≡ moved a p
  insert_row-announced e p h =
      elim (Option-cases (insert_doc e (parse_path e.path).0 (parse_path e.path).1 a.documents)) [
        | inl taken ↦
            let k : err unknown ≡ ok p = unfold commit_put in (rw (taken, commit_put) at h) in
            absurd cc
        | inr ((r, rows), free) ↦
            unfold insert_row in
            rw (free, insert_row)
              (store_row-announced r rows p (unfold commit_put in (rw (free, commit_put) at h)))
      ]

  upsert_row-announced :
      (e : Document) (p : List Row × List DocChange)
      → commit_put db upsert (some e) a.documents ≡ ok p
      → (upsert_row db (some e) a).1 ≡ moved a p
  unfolding upsert_row commit_put
  upsert_row-announced e p h = store_row-announced _ _ p h

  commit_put-update :
      (e : Document) (p : List Row × List DocChange)
      → commit_put db update (some e) a.documents ≡ ok p
      → announced db (update_doc e a.documents) a.documents ≡ ok p
  unfolding commit_put
  commit_put-update e p k = k

  -- A document that was cast, by each mode.
  write_mode-cast :
      (mode : WriteMode) (d e : Document) (p : List Row × List DocChange)
      → str_eq (parse_path d.path).0 "" ≡ false
      → encoded db d ≡ some e
      → commit_put db mode (some e) a.documents ≡ ok p
      → (write_mode db mode d a).1 ≡ moved a p
  unfolding write_mode
  write_mode-cast upsert d e p good cast k = rw (good, cast) (upsert_row-announced e p k)
  write_mode-cast update d e p good cast k =
      rw cast (update_row-announced e p (commit_put-update e p k))
  write_mode-cast insert_only d e p good cast k = rw (good, cast) (insert_row-announced e p k)

  write_mode-commit_put :
      (mode : WriteMode) (d : Document) (p : List Row × List DocChange)
      → str_eq (parse_path d.path).0 "" ≡ false
      → commit_put db mode (encoded db d) a.documents ≡ ok p
      → (write_mode db mode d a).1 ≡ moved a p
  write_mode-commit_put mode d p good h = elim (Option-cases (encoded db d)) [
    | inl bad ↦
        let k : err unknown ≡ ok p = unfold commit_put in (rw (bad, commit_put) at h) in absurd cc
    | inr (e, cast) ↦ write_mode-cast mode d e p good cast (rw cast at h)
  ]

  commit_delete-moved :
      (path : String) (p : List Row × List DocChange)
      → commit_delete db path (find_row path a.documents) a.documents ≡ ok p
      → (delete_document db path false a).1 ≡ moved a p
  commit_delete-moved path p h = elim (Option-cases (find_row path a.documents)) [
    | inl absent ↦
        let k : ok (a.documents, []) ≡ ok p =
          unfold commit_delete in (rw (absent, commit_delete) at h) in
        unfold delete_document in
        rw (absent, delete_document) (unmoved a ∙ ap (λ q. moved a q) (ok_eq k))
    | inr (q, found) ↦
        unfold delete_document in
        rw (found, delete_document)
          (announce-sent db (notify_doc_change db deleted q "") tt _ a p
            (unfold commit_delete in (rw (found, commit_delete) at h)))
  ]

  update_document-commit_put :
      (now : ℕ) (mode : WriteMode) (d : Document) (p : List Row × List DocChange)
      → d.created_at ≢ 0
      → str_eq (parse_path d.path).0 "" ≡ false
      → commit_op db now (put d mode) a.documents ≡ ok p
      → (update_document db now d mode a).1 ≡ moved a p
  update_document-commit_put now mode d p set good h =
      unfold update_document in
      rw (or_time_set d.created_at (or_time d.updated_at now) now set) (
        write_mode-commit_put mode
          (record d {
            created_at = or_time d.created_at now;
            updated_at = or_time d.updated_at now;
          })
          p good (unfold commit_op in h))
    where
      or_time_set : (c t u : ℕ) → c ≢ 0 → or_time c t ≡ or_time c u
      or_time_set c t u ne = ground arith

-- What the writes of a commit after the first leave, with the notifications of the first.
chain-ok :
    (cs : List DocChange) (r : Result (List Row × List DocChange)) (p : List Row × List DocChange)
    → chain cs r ≡ ok p
    → (q : List Row × List DocChange) × (r ≡ ok q) × (p ≡ (q.0, cs ++ q.1))
unfolding chain
chain-ok cs (err e) p h = absurd cc
chain-ok cs (ok q) p h = (q, refl, sym (ok_eq h))

commit_op-perform :
    (db : Database) (now : ℕ) (op : WriteOp) (ops : List WriteOp) (a : Adapter)
    (p : List Row × List DocChange)
    → ArePlain (op ∷ ops)
    → commit_op db now op a.documents ≡ ok p
    → perform db now op a ≡ moved a p
unfolding commit_op
commit_op-perform db now (put d mode) ops a p ((set, good), plain) h =
    update_document-commit_put db a now mode d p set good h
commit_op-perform db now (delete path) ops a p plain h = commit_delete-moved db a path p h

ArePlain-rest : (op : WriteOp) (ops : List WriteOp) → ArePlain (op ∷ ops) → ArePlain ops
ArePlain-rest (put d mode) ops (_, plain) = plain
ArePlain-rest (delete path) ops plain = plain

writes-perform_all :
    (db : Database) (now : ℕ) (ops : List WriteOp) (a : Adapter) (rows : List Row)
    (cs : List DocChange)
    → ArePlain ops
    → commit_ops db now ops a.documents ≡ ok (rows, cs)
    → perform_all db now ops a ≡ record a { documents = rows; notified = a.notified ++ cs }
unfolding commit_ops
writes-perform_all db now [] a rows cs plain h = unmoved a ∙ ap (λ p. moved a p) (ok_eq h)
writes-perform_all db now (op ∷ ops) a rows cs plain h =
    let rest = writes-perform_all db now ops in
    elim (Result-cases (commit_op db now op a.documents)) [
      | inl (c, e) ↦ let k : err c ≡ ok (rows, cs) = rw (e, commit_ops) at h in absurd cc
      | inr ((after, first), e) ↦
          let k : chain first (commit_ops db now ops after) ≡ ok (rows, cs) =
            rw (e, commit_ops) at h in
          let (q, later, total) = chain-ok first (commit_ops db now ops after) (rows, cs) k in
          let next = moved a (after, first) in
          ap (λ b. perform_all db now ops b)
            (commit_op-perform db now op ops a (after, first) plain e)
          ∙ rest next q.0 q.1 (ArePlain-rest op ops plain) later
          ∙ rw (append_assoc a.notified first q.1) (ap (λ p. moved a p) (sym total))
    ]

-- A transaction's commit whose writes succeed leaves the rows that the same writes leave as calls of
-- their own, one after the other; the calls send the notifications `cs`, and the commit delivers
-- each of them once where several are identical. The documents written have a creation time, and
-- paths that name a collection.
pub postgres_commit_ops-perform_all :
    (db : Database) (now : ℕ) (t : TxRow) (ops : List WriteOp) (a : Adapter) (rows : List Row)
    (cs : List DocChange)
    → ArePlain ops
    → commit_ops db now ops a.documents ≡ ok (rows, cs)
    → let commit = (committed now t ops (commit_ops db now ops a.documents) a).1 in
      (perform_all db now ops a ≡ record a { documents = rows; notified = a.notified ++ cs })
      × (commit.documents ≡ (perform_all db now ops a).documents)
      × (commit.notified ≡ a.notified ++ delivered cs)
postgres_commit_ops-perform_all db now t ops a rows cs plain h =
    let calls = writes-perform_all db now ops a rows cs plain h in
    (calls, rw calls (rw h (unfold committed in refl)), rw h (unfold committed in refl))
