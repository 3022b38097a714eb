-- ===== src/Sqlite/Adapter/Laws.antt =====
-- What the document operations keep: the table's well-formedness and the bound on the buffers.
use embyr.Base.{
  ℕ, ◌≤◌, String, Bool, List, [], ◌∷◌, map, refl, arith, str_eq, length, length-append,
  Option-cases, inl, inr, Bool-cases,
}
use embyr.Store.{Document, WriteMode, upsert, update, insert_only, DocChange}
use embyr.Store.Path.{parse_path}
use embyr.Sqlite.Table.{Row, insert_doc, upsert_doc, update_doc, delete_doc}
use embyr.Sqlite.Table.Laws.{
  AreValid, insert_doc-AreValid, upsert_doc-AreValid, update_doc-AreValid, AreValid-delete_doc,
}
use embyr.Sqlite.Adapter.{
  Adapter, Subscriber, buffer_size, offer, notify_subscribers, store_row, insert_new,
  create_document, write_mode, update_document, delete_document, delete_change, or_time,
}

-- No buffer holds more than its channel's capacity.
abbrev pub AreBounded : List Subscriber → Type 0
AreBounded [] = Unit
AreBounded (s ∷ subs) = (length s.waiting ≤ buffer_size) × AreBounded subs

pub record IsSound (a : Adapter) : Type 0 where
  pub rows : AreValid a.documents
  pub buffers : AreBounded a.subs

pub AreBounded-offer :
    (c : DocChange) (subs : List Subscriber) → AreBounded subs → AreBounded (map (offer c) subs)
unfolding offer
AreBounded-offer c [] h = tt
AreBounded-offer c (s ∷ subs) (h, hs) =
    (ground (arith, length-append {0} s.waiting (c ∷ [])), AreBounded-offer c subs hs)

notify-IsSound : (c : DocChange) (a : Adapter) → IsSound a → IsSound (notify_subscribers c a)
unfolding notify_subscribers
notify-IsSound c a h = record { rows = h.rows; buffers = AreBounded-offer c a.subs h.buffers }

store_row-IsSound :
    (r : Row) (rows : List Row) (collection parent : String) (a : Adapter)
    → IsSound a
    → AreValid rows
    → IsSound (store_row r rows collection parent a).1
unfolding store_row
store_row-IsSound r rows c p a h v = notify-IsSound _ _ (record { rows = v; buffers = h.buffers })

insert_new-IsSound : (d : Document) (a : Adapter) → IsSound a → IsSound (insert_new d a).1
insert_new-IsSound d a h = elim (Bool-cases (str_eq (parse_path d.path).0 "")) [
  | inl bad ↦ unfold insert_new in rw bad h
  | inr good ↦
      elim (Option-cases (insert_doc d (parse_path d.path).0 (parse_path d.path).1 a.documents)) [
        | inl taken ↦ unfold insert_new in rw (good, taken) h
        | inr ((r, rows), e) ↦
            unfold insert_new in
            rw (good, e)
              (store_row-IsSound r rows _ _ a h
                (insert_doc-AreValid d _ _ a.documents rows r h.rows refl e))
      ]
]

write_mode-IsSound :
    (mode : WriteMode) (d : Document) (a : Adapter) → IsSound a → IsSound (write_mode mode d a).1
write_mode-IsSound upsert d a h = elim (Bool-cases (str_eq (parse_path d.path).0 "")) [
  | inl bad ↦ unfold write_mode in rw bad h
  | inr good ↦
      unfold write_mode in
      rw good (
        store_row-IsSound (upsert_doc d (parse_path d.path).0 (parse_path d.path).1 a.documents).0 _
          _ _ a h (upsert_doc-AreValid d _ _ a.documents h.rows refl))
]
write_mode-IsSound update d a h = elim (Option-cases (update_doc d a.documents)) [
  | inl missing ↦ unfold write_mode in rw (missing, write_mode) h
  | inr ((r, rows), e) ↦
      unfold write_mode in
      rw (e, write_mode)
        (store_row-IsSound r rows _ _ a h (update_doc-AreValid d a.documents rows r h.rows e))
]
write_mode-IsSound insert_only d a h = unfold write_mode in insert_new-IsSound d a h

create_document-IsSound :
    (now : ℕ) (d : Document) (a : Adapter) → IsSound a → IsSound (create_document now d a).1
unfolding create_document
create_document-IsSound now d a h =
    insert_new-IsSound
      (record d { created_at = or_time d.created_at now; updated_at = or_time d.updated_at now }) a
      h

pub update_document-IsSound :
    (now : ℕ) (d : Document) (mode : WriteMode) (a : Adapter)
    → IsSound a
    → IsSound (update_document now d mode a).1
unfolding update_document
update_document-IsSound now d mode a h =
    write_mode-IsSound mode
      (record d {
        created_at = or_time d.created_at (or_time d.updated_at now);
        updated_at = or_time d.updated_at now;
      })
      a h

pub delete_document-IsSound :
    (path : String) (must_exist : Bool) (a : Adapter)
    → IsSound a
    → IsSound (delete_document path must_exist a).1
unfolding delete_document
delete_document-IsSound path must a h =
    let v = AreValid-delete_doc path a.documents h.rows in
    let quiet : IsSound (record a { documents = (delete_doc path a.documents).1 }) = record {
      rows = v;
      buffers = h.buffers;
    } in
    ground (
      arith,
      notify-IsSound (delete_change path) (record a { documents = (delete_doc path a.documents).1 })
          quiet,
    )

-- Creating, updating in any mode and deleting documents, whatever they answer, keeps the adapter
-- sound: one row for each path, each under the collection and parent that its path names and
-- with a version of at least 1, and no subscriber's buffer above its 64 places.
pub operations-IsSound :
    (now : ℕ) (d : Document) (mode : WriteMode) (path : String) (must_exist : Bool) (a : Adapter)
    → IsSound a
    → IsSound (create_document now d a).1
      × IsSound (update_document now d mode a).1
      × IsSound (delete_document path must_exist a).1
operations-IsSound now d mode path must a h = (
  create_document-IsSound now d a h,
  update_document-IsSound now d mode a h,
  delete_document-IsSound path must a h,
)
