-- ===== src/Sqlite/Paging.antt =====
-- Listing and querying in pages: `ListDocuments`, `QueryDocuments` and `ListCollectionIds` of
-- internal/store/sqlite/sqlite.go. Each fetches one row more than the page holds.
pub mod Laws
pub mod Walk
use embyr.Base.{
  ℕ, zero, suc, ◌+◌, String, Bool, true, false, List, [], ◌∷◌, Option, none, some, ◌&&◌, ◌||◌, ltb,
  length, take, drop, map, str_eq, if◌then◌else◌, all, leb, ◌==◌,
}
use Prim.Native.Char.{Char, code}
use embyr.Base.Int.{ℤ, pos, negsuc}
use embyr.Base.Result.{Code, invalid_argument, Result, ok, err}
use embyr.Text.{str_lt}
use embyr.Store.{Document, CompositeFilter, FieldFilter, OrderBy, Cursor, Query, ListPage}
use embyr.Store.Page.{encode_page_token, decode_page_token}
use embyr.Sqlite.Table.{Row, document_of}
use embyr.Sqlite.Adapter.{Adapter}

-- An int32 size, or the default where it is not positive.
unfoldable pub positive_or : ℕ → ℤ → ℕ
positive_or default (pos zero) = default
positive_or default (pos (suc n)) = suc n
positive_or default (negsuc n) = default

-- One page of the rows from an offset, and the token of the next page if a row is left.
unfoldable pub page_of {ℓ} : {A : Type ℓ} → ℕ → ℕ → List A → List A × List ℕ
page_of size offset rows =
    let fetched = take (size + 1) (drop offset rows) in
    if ltb size (length fetched)
    then (take size fetched, encode_page_token (offset + size))
    else (fetched, [])

-- ORDER BY path ASC, for rows of different paths.
insert_by_path : Row → List Row → List Row
insert_by_path r [] = r ∷ []
insert_by_path r (q ∷ rows) =
    if str_lt q.path r.path then q ∷ insert_by_path r rows else r ∷ q ∷ rows

unfoldable pub order_by_path : List Row → List Row
unfolding insert_by_path
order_by_path [] = []
order_by_path (r ∷ rows) = insert_by_path r (order_by_path rows)

-- WHERE parent = ?, and collection = ? unless the collection is empty.
unfoldable pub listed : String → String → Row → Bool
listed parent collection_id r =
    str_eq r.parent parent && (str_eq collection_id "" || str_eq r.collection collection_id)

unfoldable pub select_rows : (Row → Bool) → List Row → List Row
select_rows p [] = []
select_rows p (r ∷ rows) = let rest = select_rows p rows in if p r then r ∷ rest else rest

-- What `ListDocuments` pages through.
unfoldable pub listing : String → String → List Row → List Document
unfolding order_by_path listed select_rows
listing parent collection_id rows =
    map document_of (order_by_path (select_rows (listed parent collection_id) rows))

unfoldable pub list_documents : String → String → ℤ → List ℕ → Adapter → ListPage
unfolding positive_or page_of listing
list_documents parent collection_id page_size page_token a =
    let (docs, next) =
      page_of (positive_or 100 page_size) (decode_page_token page_token)
        (listing parent collection_id a.documents) in
    record { documents = docs; next_page_token = next }

-- SELECT DISTINCT collection … ORDER BY collection ASC.
insert_distinct : String → List String → List String
insert_distinct s [] = s ∷ []
insert_distinct s (t ∷ ts) =
    if str_eq s t then t ∷ ts else if str_lt t s then t ∷ insert_distinct s ts else s ∷ t ∷ ts

unfoldable pub collections_under : String → List Row → List String
unfolding insert_distinct
collections_under parent [] = []
collections_under parent (r ∷ rows) =
    let rest = collections_under parent rows in
    if str_eq r.parent parent then insert_distinct r.collection rest else rest

unfoldable pub list_collection_ids : String → ℤ → List ℕ → Adapter → List String × List ℕ
unfolding positive_or page_of collections_under
list_collection_ids parent page_size page_token a =
    page_of (positive_or 100 page_size) (decode_page_token page_token)
      (collections_under parent a.documents)

-- `validFieldPath`: a letter or '_', then letters, digits, '_' and '.'.
abbrev is_letter : ℕ → Bool
is_letter c = leb b'a' c && leb c b'z' || (leb b'A' c && leb c b'Z') || c == b'_'

abbrev is_path_char : ℕ → Bool
is_path_char c = is_letter c || (leb b'0' c && leb c b'9') || c == b'.'

unfoldable pub all_path_chars : String → Bool
all_path_chars String.[] = true
all_path_chars (String.◌∷◌ c s) = is_path_char (code c) && all_path_chars s

unfoldable pub valid_field_path : String → Bool
unfolding all_path_chars
valid_field_path String.[] = false
valid_field_path (String.◌∷◌ c s) = is_letter (code c) && all_path_chars s

-- What the SELECT statement is made of, without its LIMIT and OFFSET.
pub record Statement : Type 0 where
  pub parent : String
  pub collection_id : String
  pub filters : List FieldFilter
  pub order_by : List OrderBy
  pub start_cursor : Option Cursor
  pub end_cursor : Option Cursor

unfoldable pub filters_of : Option CompositeFilter → List FieldFilter
filters_of none = []
filters_of (some fs) = fs

-- Cursors are written only beside an ORDER BY clause.
unfoldable pub cursor_for : List OrderBy → Option Cursor → Option Cursor
cursor_for [] c = none
cursor_for (o ∷ os) c = c

unfoldable pub statement_of : Query → Statement
unfolding filters_of cursor_for
statement_of q = record {
  parent = q.parent;
  collection_id = q.collection_id;
  filters = filters_of q.filter;
  order_by = q.order_by;
  start_cursor = cursor_for q.order_by q.start_cursor;
  end_cursor = cursor_for q.order_by q.end_cursor;
}

-- The field paths of the filters and of the order are checked before anything runs.
unfoldable pub valid_statement : Statement → Bool
unfolding valid_field_path
valid_statement st =
    all (λ (f : FieldFilter). valid_field_path f.field) st.filters
    && all (λ (o : OrderBy). valid_field_path o.field) st.order_by

unfoldable pub has_cursor : Query → Bool
has_cursor q = elim q.start_cursor [
  | some _ ↦ true
  | none ↦ elim q.end_cursor [ some _ ↦ true | none ↦ false ]
]

-- `select` is SQLite: the rows of the table that a statement selects, in its order.
module _ (select : Statement → List Row → List Document) where
  unfoldable pub query_documents : Query → Adapter → Result ListPage
  unfolding positive_or page_of statement_of valid_statement has_cursor
  query_documents q a =
      let offset = if has_cursor q then 0 else decode_page_token q.page_token in
      let (docs, next) =
        page_of (positive_or 300 q.page_size) offset (select (statement_of q) a.documents) in
      if valid_statement (statement_of q)
      then ok (record { documents = docs; next_page_token = next })
      else err invalid_argument
