-- ===== src/Sqlite/Table/Laws.antt =====
-- What each statement leaves under each path, and the well-formedness of the table.
use embyr.Base.{
  ◌≤◌, String, List, [], ◌∷◌, Option, none, some, ◌≡◌, refl, arith, str_eq, eq_iff, Option-cases,
  inl, inr, if◌then◌else◌,
}
use embyr.Store.{Document}
use embyr.Store.Path.{parse_path}
use embyr.Sqlite.Table.{
  Row, find_row, new_row, bump_row, replace_row, insert_doc, upsert_doc, update_doc, delete_doc,
}

-- A row is filed under its path, and has been written at least once.
pub record IsFiled (r : Row) : Type 0 where
  pub placed : parse_path r.path ≡ (r.collection, r.parent)
  pub written : 1 ≤ r.version

-- Every row is filed, and no path has two rows.
abbrev pub AreValid : List Row → Type 0
AreValid [] = Unit
AreValid (r ∷ rows) = IsFiled r × (find_row r.path rows ≡ none) × AreValid rows

pub find_row-path :
    (path : String) (rows : List Row) (r : Row) → find_row path rows ≡ some r → r.path ≡ path
unfolding find_row
find_row-path path [] r h = cc
find_row-path path (q ∷ rows) r h = ground (arith, eq_iff q.path path, find_row-path path rows r)

pub find_row-replace_row :
    (path other : String) (new r : Row) (rows : List Row)
    → find_row path rows ≡ some r
    → new.path ≡ path
    → find_row other (replace_row path new rows)
      ≡ (if str_eq path other then some new else find_row other rows)
unfolding find_row replace_row
find_row-replace_row path other new r [] h e = cc
find_row-replace_row path other new r (q ∷ rows) h e = ground (
  arith,
  eq_iff q.path path,
  eq_iff q.path other,
  eq_iff path other,
  eq_iff new.path other,
  find_row-replace_row path other new r rows,
)

pub find_row-delete_doc :
    (path other : String) (rows : List Row)
    → find_row other (delete_doc path rows).1
      ≡ (if str_eq path other then none else find_row other rows)
unfolding find_row delete_doc
find_row-delete_doc path other [] = ground arith
find_row-delete_doc path other (q ∷ rows) = ground (
  arith,
  eq_iff q.path path,
  eq_iff q.path other,
  eq_iff path other,
  find_row-delete_doc path other rows,
)

pub delete_doc-none :
    (path : String) (rows : List Row) → find_row path rows ≡ none → delete_doc path rows ≡ (0, rows)
unfolding find_row delete_doc
delete_doc-none path [] h = refl
delete_doc-none path (q ∷ rows) h = ground (arith, delete_doc-none path rows)

pub delete_doc-some :
    (path : String) (rows : List Row) (r : Row)
    → find_row path rows ≡ some r
    → 1 ≤ (delete_doc path rows).0
unfolding find_row delete_doc
delete_doc-some path [] r h = cc
delete_doc-some path (q ∷ rows) r h = ground (arith, delete_doc-some path rows r)

pub IsFiled-find_row :
    (path : String) (rows : List Row) (r : Row)
    → AreValid rows
    → find_row path rows ≡ some r
    → IsFiled r
unfolding find_row
IsFiled-find_row path [] r h e = cc
IsFiled-find_row path (q ∷ rows) r h e = ground (arith, IsFiled-find_row path rows r h.2)

AreValid-replace_row :
    (path : String) (new r : Row) (rows : List Row)
    → AreValid rows
    → find_row path rows ≡ some r
    → new.path ≡ path
    → IsFiled new
    → AreValid (replace_row path new rows)
unfolding find_row replace_row
AreValid-replace_row path new r [] h e p f = cc
AreValid-replace_row path new r (q ∷ rows) h e p f = ground (
  arith,
  eq_iff q.path path,
  eq_iff path q.path,
  find_row-replace_row path q.path new r rows,
  AreValid-replace_row path new r rows h.2,
)

pub AreValid-delete_doc :
    (path : String) (rows : List Row) → AreValid rows → AreValid (delete_doc path rows).1
unfolding delete_doc
AreValid-delete_doc path [] h = tt
AreValid-delete_doc path (q ∷ rows) h =
    ground (arith, find_row-delete_doc path q.path rows, AreValid-delete_doc path rows h.2)

-- An INSERT of a new path files the row; one of a path in the table is refused.
pub insert_doc_lem :
    (d : Document) (collection parent : String) (rows : List Row)
    → insert_doc d collection parent rows
      ≡ elim (find_row d.path rows) as (λ _. Option (Row × List Row)) [
        | none ↦ some (new_row d collection parent, new_row d collection parent ∷ rows)
        | some _ ↦ none
      ]
unfolding insert_doc
insert_doc_lem d collection parent rows = refl

pub insert_doc-AreValid :
    (d : Document) (collection parent : String) (rows t : List Row) (r : Row)
    → AreValid rows
    → parse_path d.path ≡ (collection, parent)
    → insert_doc d collection parent rows ≡ some (r, t)
    → AreValid t
unfolding insert_doc new_row
insert_doc-AreValid d c p rows t r h e k = elim (Option-cases (find_row d.path rows)) [
  | inl absent ↦ ground arith
  | inr (q, found) ↦ ground arith
]

pub upsert_doc-AreValid :
    (d : Document) (collection parent : String) (rows : List Row)
    → AreValid rows
    → parse_path d.path ≡ (collection, parent)
    → AreValid (upsert_doc d collection parent rows).1
unfolding upsert_doc new_row bump_row
upsert_doc-AreValid d c p rows h e = elim (Option-cases (find_row d.path rows)) [
  | inl absent ↦ ground arith
  | inr (q, found) ↦
      let filed = IsFiled-find_row d.path rows q h found in
      let at = find_row-path d.path rows q found in
      ground (
        arith,
        AreValid-replace_row d.path (bump_row d q) q rows h found at
            (record { placed = filed.placed; written = omega (arith, filed.written) }),
      )
]

pub update_doc-AreValid :
    (d : Document) (rows t : List Row) (r : Row)
    → AreValid rows
    → update_doc d rows ≡ some (r, t)
    → AreValid t
unfolding update_doc bump_row
update_doc-AreValid d rows t r h e = elim (Option-cases (find_row d.path rows)) [
  | inl absent ↦ ground arith
  | inr (q, found) ↦
      let filed = IsFiled-find_row d.path rows q h found in
      let at = find_row-path d.path rows q found in
      ground (
        arith,
        AreValid-replace_row d.path (bump_row d q) q rows h found at
            (record { placed = filed.placed; written = omega (arith, filed.written) }),
      )
]
