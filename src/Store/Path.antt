-- ===== src/Store/Path.antt =====
-- Document paths: `ParsePath` of internal/store/doc.go and `BuildPath` of internal/codec/doc.go.
pub mod Laws
use Prim.Native.Char.{Char}
use Prim.Native.String.{◌++◌ as str_append}
use embyr.Base.{
  ℕ, suc, ◌+◌, ◌-◌, ◌%◌, String, Bool, List, [], ◌∷◌, ◌++◌, Option, none, some, not, ◌||◌, ◌==◌,
  ltb, str_eq, length, get_or, take, drop, if◌then◌else◌,
}
use embyr.Text.{split_on, join, slash}
use mathlib.Core.Option

-- The index of the first part that is `word`.
unfoldable pub index_of : String → List String → Option ℕ
index_of word [] = none
index_of word (p ∷ ps) = if str_eq p word then some 0 else Option.map suc (index_of word ps)

-- The collection name and the parent path, from the parts up to "documents" and those after it.
-- Both are empty for what is no document path.
unfoldable pub collection_and_parent : List String → List String → String × String
unfolding join
collection_and_parent head relative =
    let n = length relative in
    if ltb n 2 || not (n % 2 == 0)
    then ("", "")
    else (get_or relative (n - 2) "", join slash (head ++ take (n - 2) relative))

unfoldable pub parse_parts : List String → String × String
unfolding index_of collection_and_parent
parse_parts parts = elim (index_of "documents" parts) [
  | none ↦ ("", "")
  | some docs_idx ↦ collection_and_parent (take (docs_idx + 1) parts) (drop (docs_idx + 1) parts)
]

unfoldable pub parse_path : String → String × String
unfolding parse_parts split_on
parse_path path = parse_parts (split_on slash path)

-- `parent + "/" + collectionID + "/" + docID`
unfoldable pub build_path : String → String → String → String
build_path parent collection_id doc_id =
    str_append parent (String.◌∷◌ slash (str_append collection_id (String.◌∷◌ slash doc_id)))
