-- ===== src/Sqlite/Refine.antt =====
-- The adapter keeps the promise of `Spec`: the view of its table, and when a call keeps it.
pub mod Modes
pub mod Run
use mathlib.Core.Path.{fun_ext}
use mathlib.Core.Option
use embyr.Base.{
  String, List, [], ◌∷◌, map, Option, none, some, Bool, true, false, ◌≡◌, refl, ap, sym, subst,
  arith, str_eq, eq_iff, Bool-cases, Option-cases, inl, inr, if◌then◌else◌,
}
use embyr.Base.Result.{Code, invalid_argument, not_found, already_exists, Result, ok, err}
use embyr.Store.{Document, WriteMode, upsert, update, insert_only, DocChange}
use embyr.Store.Path.{parse_path}
use embyr.Sqlite.Table.{
  Row, document_of, find_row, new_row, bump_row, upsert_doc, insert_doc, update_doc, delete_doc,
  replace_row,
}
use embyr.Sqlite.Table.Laws.{
  find_row-path, find_row-replace_row, find_row-delete_doc, delete_doc-none, delete_doc-some,
}
use embyr.Sqlite.Adapter.{
  Adapter, Subscriber, offer, notify_subscribers, upsert_change, store_row, insert_new,
  create_document, get_document, write_mode, update_document, delete_document, delete_change,
  or_time,
}
use embyr.Sqlite.Spec.{
  Model, Outcome, Op, create, write, delete, get, assign, accept, refuse, next_version, change_of,
  spec_write, spec_delete, spec,
}

-- The documents that a table holds.
unfoldable pub view : List Row → Model
view rows path = Option.map document_of (find_row path rows)

abbrev pub some_result : Result Document → Result (Option Document)
some_result (ok d) = ok (some d)
some_result (err c) = err c

abbrev pub none_result : Result (Unit {0}) → Result (Option Document)
none_result (ok _) = ok none
none_result (err c) = err c

-- A call of the adapter.
unfoldable pub apply : Op → Adapter → Result (Option Document) × Adapter
unfolding create_document update_document delete_document get_document
apply (create now d) a = let (r, a') = create_document now d a in (some_result r, a')
apply (write now d mode) a = let (r, a') = update_document now d mode a in (some_result r, a')
apply (delete path must) a = let (r, a') = delete_document path must a in (none_result r, a')
apply (get path) a = let (r, a') = get_document path a in (some_result r, a')

-- Every subscriber is offered every change, in order.
abbrev pub deliver : List DocChange → List Subscriber → List Subscriber
deliver [] subs = subs
deliver (c ∷ cs) subs = deliver cs (map (offer c) subs)

-- A call ends as the specification says: in result, documents and changes.
pub record Meets (r : Result (Option Document)) (before after : Adapter) (o : Outcome)
    : Type 0 where
  pub result : r ≡ o.result
  pub documents : view after.documents ≡ o.model
  pub subs : after.subs ≡ deliver o.changes before.subs
  pub transactions : after.transactions ≡ before.transactions
  pub json_set : after.json_set ≡ before.json_set

pub view-replace :
    (d : Document) (q : Row) (rows : List Row)
    → find_row d.path rows ≡ some q
    → view (replace_row d.path (bump_row d q) rows)
      ≡ assign d.path (some (document_of (bump_row d q))) (view rows)
unfolding view
view-replace d q rows found = fun_ext λ other.
    let at = find_row-path d.path rows q found in
    rw (find_row-replace_row d.path other (bump_row d q) q rows found (unfold bump_row in at))
      (ground arith)

pub view-cons :
    (d : Document) (c p : String) (rows : List Row)
    → view (new_row d c p ∷ rows) ≡ assign d.path (some (document_of (new_row d c p))) (view rows)
unfolding view find_row new_row
view-cons d c p rows = fun_ext λ other. ground arith

pub view-delete :
    (path : String) (rows : List Row) → view (delete_doc path rows).1 ≡ assign path none (view rows)
unfolding view
view-delete path rows = fun_ext λ other. rw (find_row-delete_doc path other rows) (ground arith)

-- A row that a statement wrote is stored, returned and announced.
pub store_row-Meets :
    (r : Row) (rows : List Row) (collection parent : String) (a : Adapter) (m : Model)
    → parse_path r.path ≡ (collection, parent)
    → view rows ≡ assign r.path (some (document_of r)) m
    → Meets
        (some_result (store_row r rows collection parent a).0)
        a
        (store_row r rows collection parent a).1
        (accept (document_of r) m)
store_row-Meets r rows c p a m placed seen = record {
  result = unfold store_row in refl;
  documents = unfold store_row notify_subscribers in seen;
  subs = unfold store_row notify_subscribers document_of upsert_change in rw placed;
  transactions = unfold store_row notify_subscribers in refl;
  json_set = unfold store_row notify_subscribers in refl;
}

-- Nothing happened, and the call was refused.
pub refuse-Meets :
    (c : Code) (a : Adapter) (m : Model) → view a.documents ≡ m → Meets (err c) a a (refuse c m)
refuse-Meets c a m e = record {
  result = refl;
  documents = e;
  subs = refl;
  transactions = refl;
  json_set = refl;
}

pub view-none :
    (path : String) (rows : List Row) → find_row path rows ≡ none → view rows path ≡ none
unfolding view
view-none path rows e = rw e

pub view-some :
    (path : String) (rows : List Row) {q : Row}
    → find_row path rows ≡ some q
    → view rows path ≡ some (document_of q)
unfolding view
view-some path rows e = rw e
