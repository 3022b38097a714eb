-- ===== src/Sqlite/Table.antt =====
-- The documents table of migrations/sqlite and the statements on it (the `sql…Doc` constants of
-- internal/store/sqlite/sqlite.go). The statements have their documented effect on the rows; the
-- order in which the table keeps its rows plays no part. Times are kept as numbers: RFC3339Nano
-- text in UTC gives the nanoseconds back.
pub mod Laws
use embyr.Base.{
  ℕ, suc, ◌+◌, String, Bool, true, false, List, [], ◌∷◌, Option, none, some, str_eq, if◌then◌else◌,
}
use embyr.Store.{Document}

pub record Row : Type 0 where
  pub path : String
  pub collection : String
  pub parent : String
  pub content : String
  pub created_at : ℕ
  pub updated_at : ℕ
  pub version : ℕ

-- What `scanDoc` makes of a row.
unfoldable pub document_of : Row → Document
document_of r = record {
  path = r.path;
  content = r.content;
  created_at = r.created_at;
  updated_at = r.updated_at;
  version = r.version;
}

-- The row of a path, which is the primary key.
unfoldable pub find_row : String → List Row → Option Row
find_row path [] = none
find_row path (r ∷ rows) = if str_eq r.path path then some r else find_row path rows

-- The values of an INSERT: version 1.
unfoldable pub new_row : Document → String → String → Row
new_row d collection parent = record {
  path = d.path;
  collection = collection;
  parent = parent;
  content = d.content;
  created_at = d.created_at;
  updated_at = d.updated_at;
  version = 1;
}

-- SET data, updated_at, version = version + 1.
unfoldable pub bump_row : Document → Row → Row
bump_row d r = record r { content = d.content; updated_at = d.updated_at; version = r.version + 1 }

unfoldable pub replace_row : String → Row → List Row → List Row
replace_row path new [] = []
replace_row path new (r ∷ rows) =
    if str_eq r.path path then new ∷ rows else r ∷ replace_row path new rows

-- `sqlInsertDoc`; `none` is a violated UNIQUE constraint.
unfoldable pub insert_doc : Document → String → String → List Row → Option (Row × List Row)
unfolding find_row new_row
insert_doc d collection parent rows = elim (find_row d.path rows) [
  | none ↦ some (new_row d collection parent, new_row d collection parent ∷ rows)
  | some _ ↦ none
]

-- `sqlUpsertDoc`: an existing row keeps its collection, parent and creation time.
unfoldable pub upsert_doc : Document → String → String → List Row → Row × List Row
unfolding find_row new_row bump_row replace_row
upsert_doc d collection parent rows = elim (find_row d.path rows) [
  | none ↦ (new_row d collection parent, new_row d collection parent ∷ rows)
  | some r ↦ (bump_row d r, replace_row d.path (bump_row d r) rows)
]

-- `sqlUpdateDoc`; `none` is a statement that returns no row.
unfoldable pub update_doc : Document → List Row → Option (Row × List Row)
unfolding find_row bump_row replace_row
update_doc d rows = elim (find_row d.path rows) [
  | none ↦ none
  | some r ↦ some (bump_row d r, replace_row d.path (bump_row d r) rows)
]

-- `sqlDeleteDoc`, with the number of rows affected.
unfoldable pub delete_doc : String → List Row → ℕ × List Row
delete_doc path [] = (0, [])
delete_doc path (r ∷ rows) =
    let (n, rest) = delete_doc path rows in
    if str_eq r.path path then (suc n, rest) else (n, r ∷ rest)
