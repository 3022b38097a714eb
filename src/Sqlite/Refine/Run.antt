-- ===== src/Sqlite/Refine/Run.antt =====
-- The calls that delete and read, and the whole adapter over sequences of calls.
use embyr.Base.{
  String, List, [], ◌∷◌, ◌++◌, map, Option, none, some, Bool, true, false, ◌≡◌, refl, ap, arith,
  Option-cases, inl, inr, if◌then◌else◌,
}
use embyr.Base.Result.{not_found, Result, ok, err}
use embyr.Store.{Document, DocChange}
use embyr.Sqlite.Table.{Row, document_of, find_row, delete_doc}
use embyr.Sqlite.Table.Laws.{delete_doc-none, delete_doc-some}
use embyr.Sqlite.Adapter.{
  Adapter, Subscriber, offer, notify_subscribers, create_document, get_document, write_mode,
  update_document, delete_document, delete_change,
}
use embyr.Sqlite.Spec.{Model, Op, create, write, delete, get, spec_delete, spec_get, spec, stamped}
use embyr.Sqlite.Refine.{
  view, apply, some_result, none_result, deliver, Meets, refuse-Meets, view-none, view-some,
  view-delete,
}
use embyr.Sqlite.Refine.Modes.{write_mode-Meets, insert_new-Meets}

module _ (path : String) (a : Adapter) where
  removed : Adapter
  removed =
      notify_subscribers (delete_change path)
        (record a { documents = (delete_doc path a.documents).1 })

  delete_document_absent :
      (must_exist : Bool)
      → find_row path a.documents ≡ none
      → delete_document path must_exist a ≡ (if must_exist then err not_found else ok tt, a)
  delete_document_absent true e = unfold delete_document in rw (delete_doc-none path a.documents e)
  delete_document_absent false e = unfold delete_document in rw (delete_doc-none path a.documents e)

  delete_document_found :
      (must_exist : Bool) {q : Row}
      → find_row path a.documents ≡ some q
      → delete_document path must_exist a ≡ (ok tt, removed)
  delete_document_found must {q} e =
      let some_gone = delete_doc-some path a.documents q e in
      unfold delete_document removed in ground arith

  delete-Meets :
      (must_exist : Bool)
      → Meets
          (none_result (delete_document path must_exist a).0)
          a
          (delete_document path must_exist a).1
          (spec_delete path must_exist (view a.documents path) (view a.documents))
  delete-Meets must = elim (Option-cases (find_row path a.documents)) [
    | inl absent ↦
        rw (view-none path a.documents absent, delete_document_absent must absent)
          (absent-Meets must)
    | inr (q, found) ↦
        rw (view-some path a.documents found, delete_document_found must found)
          (record {
            result = refl;
            documents = unfold removed notify_subscribers in view-delete path a.documents;
            subs = unfold removed notify_subscribers delete_change in refl;
            json_set = unfold removed notify_subscribers in refl;
            transactions = unfold removed notify_subscribers in refl;
          })
  ]
    where
      absent-Meets :
          (must_exist : Bool)
          → Meets
              (none_result (if must_exist then err not_found else ok tt))
              a
              a
              (spec_delete path must_exist none (view a.documents))
      absent-Meets true = refuse-Meets _ a _ refl
      absent-Meets false = record {
        result = refl;
        documents = refl;
        subs = refl;
        transactions = refl;
        json_set = refl;
      }

get-Meets :
    (path : String) (a : Adapter)
    → Meets
        (some_result (get_document path a).0)
        a
        (get_document path a).1
        (spec_get (view a.documents path) (view a.documents))
get-Meets path a = elim (Option-cases (find_row path a.documents)) [
  | inl absent ↦ rw (view-none path a.documents absent, get_absent absent) (refuse-Meets _ a _ refl)
  | inr (q, found) ↦
      rw (view-some path a.documents found, get_found found)
        (record {
          result = refl;
          documents = refl;
          subs = refl;
          transactions = refl;
          json_set = refl;
        })
]
  where
    get_absent : find_row path a.documents ≡ none → get_document path a ≡ (err not_found, a)
    get_absent e = unfold get_document in rw (e, get_document)

    get_found :
        {q : Row}
        → find_row path a.documents ≡ some q
        → get_document path a ≡ (ok (document_of q), a)
    get_found e = unfold get_document in rw (e, get_document)

-- Every call of the adapter does what the specification says of the documents that its table
-- holds: the same result, the same documents after it, and to every subscriber the same changes
-- are offered, each dropped only where the subscriber's buffer is full.
pub apply-Meets :
    (op : Op) (a : Adapter) → Meets (apply op a).0 a (apply op a).1 (spec op (view a.documents))
unfolding apply
apply-Meets (create now d) a =
    unfold create_document write_mode in insert_new-Meets (stamped now now d) a
apply-Meets (write now d mode) a = unfold update_document in write_mode-Meets mode _ a
apply-Meets (delete path must) a = delete-Meets path a must
apply-Meets (get path) a = get-Meets path a

-- A sequence of calls: the results in order, and the adapter after the last.
unfoldable pub run : List Op → Adapter → List (Result (Option Document)) × Adapter
run [] a = ([], a)
run (op ∷ ops) a = let (r, a') = apply op a in let (rs, a'') = run ops a' in (r ∷ rs, a'')

unfoldable pub spec_run : List Op → Model → List (Result (Option Document)) × Model × List DocChange
spec_run [] m = ([], m, [])
spec_run (op ∷ ops) m =
    let o = spec op m in
    let (rs, m', changes) = spec_run ops o.model in (o.result ∷ rs, m', o.changes ++ changes)

deliver-append :
    (xs ys : List DocChange) (subs : List Subscriber)
    → deliver (xs ++ ys) subs ≡ deliver ys (deliver xs subs)
deliver-append [] ys subs = refl
deliver-append (x ∷ xs) ys subs = deliver-append xs ys (map (offer x) subs)

-- Over any sequence of calls the adapter answers as the specification does, holds the documents
-- that the specification holds, and has offered its subscribers the specification's changes.
pub run-eq-spec_run :
    (ops : List Op) (a : Adapter)
    → let (rs, a') = run ops a in
      let (rs', m, changes) = spec_run ops (view a.documents) in
      (rs ≡ rs') × (view a'.documents ≡ m) × (a'.subs ≡ deliver changes a.subs)
unfolding run spec_run
run-eq-spec_run [] a = (refl, refl, refl)
run-eq-spec_run (op ∷ ops) a =
    let met = apply-Meets op a in
    let (rs, ms, ss) = rw met.documents at (run-eq-spec_run ops (apply op a).1) in
    (
      rw met.result (ap (λ l. (spec op (view a.documents)).result ∷ l) rs),
      ms,
      rw (deliver-append _ _ a.subs, ← met.subs) ss,
    )
