-- ===== src/Postgres/Adapter/Refine.antt =====
-- The PostgreSQL adapter keeps the promise of a document store (Sqlite/Spec), on documents as its
-- columns keep them.
use embyr.Base.{
  true, Bool-cases, String, false, List, [], ◌∷◌, ◌++◌, map, Option, none, some, ◌≡◌, refl, ap, sym,
  subst, ◌∙◌, arith, append-nil, str_eq, Option-cases, inl, inr,
}
use embyr.Base.Result.{Code, not_found, already_exists, unknown, Result, ok, err}
use embyr.Store.{
  Document, WriteMode, upsert, update, insert_only, DocChange, DocChangeKind, upserted,
}
use embyr.Store.Path.{parse_path}
use embyr.Sqlite.Table.{
  Row, document_of, find_row, new_row, bump_row, upsert_doc, insert_doc, update_doc, replace_row,
}
use embyr.Sqlite.Table.Laws.{find_row-path}
use embyr.Sqlite.Spec.{Model, Outcome, assign, accept, refuse, next_version, spec_write}
use embyr.Sqlite.Refine.{view, some_result, view-replace, view-cons, view-none, view-some}
use embyr.Postgres.Adapter.{
  Database, Adapter, notify_doc_change, announce, store_row, insert_row, upsert_row, update_row,
}

-- What a change says: the path, and whether the document is there.
abbrev pub key : DocChange → String × DocChangeKind
key c = (c.path, c.kind)

-- A call ends as an outcome says: in result, documents and notifications.
pub record Meets (r : Result (Option Document)) (before after : Adapter) (o : Outcome)
    : Type 0 where
  pub result : r ≡ o.result
  pub documents : view after.documents ≡ o.model
  pub notified : map key after.notified ≡ map key before.notified ++ map key o.changes

-- A call ends so, or `pg_notify` refused the payload of its one change, and nothing happened.
pub data Ends (db : Database) (r : Result (Option Document)) (before after : Adapter) (o : Outcome)
    : Type 0 where
  met : Meets r before after o → Ends db r before after o
  unsent :
      (c : DocChange)
      → db.accepts c ≡ false
      → key c ∷ [] ≡ map key o.changes
      → r ≡ err unknown
      → after ≡ before
      → Ends db r before after o

pub map-append : (xs ys : List DocChange) → map key (xs ++ ys) ≡ map key xs ++ map key ys
map-append [] ys = refl
map-append (x ∷ xs) ys = ap (λ l. key x ∷ l) (map-append xs ys)

pub notify-key :
    (db : Database) (kind : DocChangeKind) (r : Row) (content : String)
    → key (notify_doc_change db kind r content) ≡ (r.path, kind)
notify-key db kind r content = unfold notify_doc_change in ground arith

pub refuse-Meets : (c : Code) (a : Adapter) → Meets (err c) a a (refuse c (view a.documents))
refuse-Meets c a = record {
  result = refl;
  documents = refl;
  notified = sym (append-nil (map key a.notified));
}

pub announce-sent :
    {A : Type 0} (db : Database) (c : DocChange) (x : A) (rows : List Row) (a : Adapter)
    → db.accepts c ≡ true
    → announce db c x rows a
      ≡ (ok x, record a { documents = rows; notified = a.notified ++ c ∷ [] })
unfolding announce
announce-sent db c x rows a h = rw h refl

pub announce-unsent :
    {A : Type 0} (db : Database) (c : DocChange) (x : A) (rows : List Row) (a : Adapter)
    → db.accepts c ≡ false
    → announce db c x rows a ≡ (err unknown, a)
unfolding announce
announce-unsent db c x rows a h = rw h refl

store_row-Ends :
    (db : Database) (r : Row) (rows : List Row) (a : Adapter) (m : Model)
    → view rows ≡ assign r.path (some (document_of r)) m
    → Ends db
        (some_result (store_row db r rows a).0)
        a
        (store_row db r rows a).1
        (accept (document_of r) m)
unfolding store_row
store_row-Ends db r rows a m seen =
    let c = notify_doc_change db upserted r r.content in
    elim (Bool-cases (db.accepts c)) [
      | inl sent ↦ rw (announce-sent db c (document_of r) rows a sent) (
          met (record {
            result = refl;
            documents = seen;
            notified =
                map-append a.notified (c ∷ [])
                ∙ ap (λ k. map key a.notified ++ k ∷ []) (notify-key db upserted r r.content);
          }))
      | inr lost ↦
          rw (announce-unsent db c (document_of r) rows a lost)
            (unsent c lost (ap (λ k. k ∷ []) (notify-key db upserted r r.content)) refl refl)
    ]

module _ (db : Database) (d : Document) (a : Adapter) where
  abbrev Written : WriteMode → Result Document × Adapter → Type 0
  Written mode r =
      Ends db (some_result r.0) a r.1
        (spec_write mode d (view a.documents d.path) (view a.documents))

  abbrev fresh : Row
  fresh = new_row d (parse_path d.path).0 (parse_path d.path).1

  fresh-Ends :
      Ends db
        (some_result (store_row db fresh (fresh ∷ a.documents) a).0)
        a
        (store_row db fresh (fresh ∷ a.documents) a).1
        (accept (next_version d none) (view a.documents))
  fresh-Ends =
      unfold document_of new_row in
      store_row-Ends db fresh (fresh ∷ a.documents) a (view a.documents)
        (view-cons d (parse_path d.path).0 (parse_path d.path).1 a.documents)

  bumped-Ends :
      (q : Row)
      → find_row d.path a.documents ≡ some q
      → Ends db
          (some_result
            (store_row db (bump_row d q) (replace_row d.path (bump_row d q) a.documents) a).0)
          a
          (store_row db (bump_row d q) (replace_row d.path (bump_row d q) a.documents) a).1
          (accept (next_version d (some (document_of q))) (view a.documents))
  bumped-Ends q found =
      let at = find_row-path d.path a.documents q found in
      unfold document_of bump_row in
      store_row-Ends db _ _ a _ (
        subst
          (λ s.
            view (replace_row d.path (bump_row d q) a.documents)
            ≡ assign s (some (document_of (bump_row d q))) (view a.documents))
          (sym at) (view-replace d q a.documents found))

  pub insert_row-Ends :
      str_eq (parse_path d.path).0 "" ≡ false → Written insert_only (insert_row db (some d) a)
  insert_row-Ends good = elim (Option-cases (find_row d.path a.documents)) [
    | inl absent ↦ rw (view-none d.path a.documents absent, good, free absent) fresh-Ends
    | inr (q, found) ↦
        rw (view-some d.path a.documents found, good, taken found)
          (met (refuse-Meets already_exists a))
  ]
    where
      free :
          find_row d.path a.documents ≡ none
          → insert_row db (some d) a ≡ store_row db fresh (fresh ∷ a.documents) a
      free e = unfold insert_row insert_doc in rw (e, insert_row)

      taken :
          {q : Row}
          → find_row d.path a.documents ≡ some q
          → insert_row db (some d) a ≡ (err already_exists, a)
      taken e = unfold insert_row insert_doc in rw (e, insert_row)

  pub upsert_row-Ends :
      str_eq (parse_path d.path).0 "" ≡ false → Written upsert (upsert_row db (some d) a)
  upsert_row-Ends good = elim (Option-cases (find_row d.path a.documents)) [
    | inl absent ↦ rw (view-none d.path a.documents absent, good, free absent) fresh-Ends
    | inr (q, found) ↦
        rw (view-some d.path a.documents found, good, taken found) (bumped-Ends q found)
  ]
    where
      free :
          find_row d.path a.documents ≡ none
          → upsert_row db (some d) a ≡ store_row db fresh (fresh ∷ a.documents) a
      free e = unfold upsert_row upsert_doc in rw (e, upsert_row, upsert_doc)

      taken :
          {q : Row}
          → find_row d.path a.documents ≡ some q
          → upsert_row db (some d) a
            ≡ store_row db (bump_row d q) (replace_row d.path (bump_row d q) a.documents) a
      taken e = unfold upsert_row upsert_doc in rw (e, upsert_row, upsert_doc)

  pub update_row-Ends : Written update (update_row db (some d) a)
  update_row-Ends = elim (Option-cases (find_row d.path a.documents)) [
    | inl absent ↦
        rw (view-none d.path a.documents absent, free absent) (met (refuse-Meets not_found a))
    | inr (q, found) ↦ rw (view-some d.path a.documents found, taken found) (bumped-Ends q found)
  ]
    where
      free : find_row d.path a.documents ≡ none → update_row db (some d) a ≡ (err not_found, a)
      free e = unfold update_row update_doc in rw (e, update_row, update_doc)

      taken :
          {q : Row}
          → find_row d.path a.documents ≡ some q
          → update_row db (some d) a
            ≡ store_row db (bump_row d q) (replace_row d.path (bump_row d q) a.documents) a
      taken e = unfold update_row update_doc in rw (e, update_row, update_doc)
