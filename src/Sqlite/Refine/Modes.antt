-- ===== src/Sqlite/Refine/Modes.antt =====
-- The writing calls keep the promise, in each mode.
use embyr.Base.{
  String, ◌∷◌, none, some, true, false, ◌≡◌, refl, ap, sym, subst, str_eq, Bool-cases, Option-cases,
  inl, inr,
}
use embyr.Base.Result.{invalid_argument, not_found, already_exists, err}
use embyr.Store.{Document, WriteMode, upsert, update, insert_only}
use embyr.Store.Path.{parse_path}
use embyr.Sqlite.Table.{
  Row, document_of, find_row, new_row, bump_row, upsert_doc, insert_doc, update_doc, replace_row,
}
use embyr.Sqlite.Table.Laws.{find_row-path}
use embyr.Sqlite.Adapter.{Adapter, store_row, insert_new, write_mode}
use embyr.Sqlite.Spec.{assign, accept, next_version, spec_write}
use embyr.Sqlite.Refine.{
  view, some_result, Meets, view-replace, view-cons, view-none, view-some, store_row-Meets,
  refuse-Meets,
}

abbrev Written : WriteMode → Document → Adapter → Type 0
Written mode d a =
    Meets (some_result (write_mode mode d a).0) a (write_mode mode d a).1
      (spec_write mode d (view a.documents d.path) (view a.documents))

module _ (d : Document) (a : Adapter) where
  place : String × String
  place = parse_path d.path

  fresh : Row
  unfolding place
  fresh = new_row d place.0 place.1

  fresh-Meets :
      Meets
        (some_result (store_row fresh (fresh ∷ a.documents) place.0 place.1 a).0)
        a
        (store_row fresh (fresh ∷ a.documents) place.0 place.1 a).1
        (accept (next_version d none) (view a.documents))
  unfolding fresh place
  fresh-Meets =
      unfold document_of new_row in
      store_row-Meets _ _ _ _ a _ refl (view-cons d place.0 place.1 a.documents)

  bumped-Meets :
      (q : Row) (collection parent : String)
      → find_row d.path a.documents ≡ some q
      → parse_path d.path ≡ (collection, parent)
      → Meets
          (some_result
            (store_row
              (bump_row d q)
              (replace_row d.path (bump_row d q) a.documents)
              collection
              parent
              a).0)
          a
          (store_row
            (bump_row d q)
            (replace_row d.path (bump_row d q) a.documents)
            collection
            parent
            a).1
          (accept (next_version d (some (document_of q))) (view a.documents))
  bumped-Meets q c p found placed =
      let at = find_row-path d.path a.documents q found in
      unfold document_of bump_row in
      store_row-Meets _ _ _ _ a _ (subst (λ s. parse_path s ≡ (c, p)) (sym at) placed) (
        subst
          (λ s.
            view (replace_row d.path (bump_row d q) a.documents)
            ≡ assign s (some (document_of (bump_row d q))) (view a.documents))
          (sym at) (view-replace d q a.documents found))

  pub insert_new-Meets : Written insert_only d a
  unfolding place fresh
  insert_new-Meets = elim (Bool-cases (str_eq place.0 "")) [
    | inl bad ↦ elim (Option-cases (find_row d.path a.documents)) [
      | inl absent ↦
          rw (view-none d.path a.documents absent, bad, insert_bad bad) (refuse-Meets _ a _ refl)
      | inr (q, found) ↦
          rw (view-some d.path a.documents found, bad, insert_bad bad) (refuse-Meets _ a _ refl)
    ]
    | inr good ↦ elim (Option-cases (find_row d.path a.documents)) [
      | inl absent ↦
          rw (view-none d.path a.documents absent, good, insert_free good absent) fresh-Meets
      | inr (q, found) ↦
          rw (view-some d.path a.documents found, good, insert_taken good found)
            (refuse-Meets _ a _ refl)
    ]
  ]
    where
      insert_bad : str_eq place.0 "" ≡ true → write_mode insert_only d a ≡ (err invalid_argument, a)
      insert_bad e = unfold write_mode insert_new in rw e

      insert_free :
          str_eq place.0 "" ≡ false
          → find_row d.path a.documents ≡ none
          → write_mode insert_only d a ≡ store_row fresh (fresh ∷ a.documents) place.0 place.1 a
      insert_free e f = unfold write_mode insert_new insert_doc in rw (e, f)

      insert_taken :
          str_eq place.0 "" ≡ false
          → {q : Row} → find_row d.path a.documents ≡ some q
          → write_mode insert_only d a ≡ (err already_exists, a)
      insert_taken e f = unfold write_mode insert_new insert_doc in rw (e, f)

  upsert-Meets : Written upsert d a
  unfolding place fresh
  upsert-Meets = elim (Bool-cases (str_eq place.0 "")) [
    | inl bad ↦ rw (bad, upsert_bad bad) (refuse-Meets _ a _ refl)
    | inr good ↦ elim (Option-cases (find_row d.path a.documents)) [
      | inl absent ↦
          rw (view-none d.path a.documents absent, good, upsert_free good absent) fresh-Meets
      | inr (q, found) ↦
          rw (view-some d.path a.documents found, good, upsert_taken good found)
            (bumped-Meets q place.0 place.1 found refl)
    ]
  ]
    where
      upsert_bad : str_eq place.0 "" ≡ true → write_mode upsert d a ≡ (err invalid_argument, a)
      upsert_bad e = unfold write_mode in rw e

      upsert_free :
          str_eq place.0 "" ≡ false
          → find_row d.path a.documents ≡ none
          → write_mode upsert d a ≡ store_row fresh (fresh ∷ a.documents) place.0 place.1 a
      upsert_free e f = unfold write_mode upsert_doc in rw (e, f, upsert_doc)

      upsert_taken :
          str_eq place.0 "" ≡ false
          → {q : Row} → find_row d.path a.documents ≡ some q
          → write_mode upsert d a
            ≡ store_row
                (bump_row d q)
                (replace_row d.path (bump_row d q) a.documents)
                place.0
                place.1
                a
      upsert_taken e f = unfold write_mode upsert_doc in rw (e, f, upsert_doc)

  update-Meets : Written update d a
  unfolding place
  update-Meets = elim (Option-cases (find_row d.path a.documents)) [
    | inl absent ↦
        rw (view-none d.path a.documents absent, missing absent) (refuse-Meets _ a _ refl)
    | inr (q, found) ↦
        rw (view-some d.path a.documents found, present found)
          (bumped-Meets q (parse_path (bump_row d q).path).0 (parse_path (bump_row d q).path).1
            found
            (unfold bump_row in ap parse_path (sym (find_row-path d.path a.documents q found))))
  ]
    where
      missing : find_row d.path a.documents ≡ none → write_mode update d a ≡ (err not_found, a)
      missing f = unfold write_mode update_doc in rw (f, write_mode, update_doc)

      present :
          {q : Row}
          → find_row d.path a.documents ≡ some q
          → write_mode update d a
            ≡ store_row
                (bump_row d q)
                (replace_row d.path (bump_row d q) a.documents)
                (parse_path (bump_row d q).path).0
                (parse_path (bump_row d q).path).1
                a
      present f = unfold write_mode update_doc in rw (f, write_mode, update_doc)

pub write_mode-Meets : (mode : WriteMode) (d : Document) (a : Adapter) → Written mode d a
write_mode-Meets upsert d a = upsert-Meets d a
write_mode-Meets update d a = update-Meets d a
write_mode-Meets insert_only d a = insert_new-Meets d a
