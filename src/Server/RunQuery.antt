-- ===== src/Server/RunQuery.antt =====
-- `RunQuery` and its query loop (internal/server/handlers.go), over the SQLite backend. The
-- documents sent are the result; a page whose query fails, or with a document that does not decode,
-- ends the loop with its error. The stream takes what is sent.
pub mod Complete
use embyr.Base.{
  ℕ, zero, suc, String, Bool, true, false, ◌||◌, List, [], ◌∷◌, ◌++◌, Option, none, some,
  if◌then◌else◌, not, all,
}
use embyr.Base.Int.{ℤ, pos, negsuc}
use embyr.Base.Result.{Code, invalid_argument, internal, Result, ok, err}
use embyr.Proto.{Protobuf, StructuredQuery}
use embyr.Codec.Documents.{store_to_proto}
use embyr.Codec.Query.{query_from_structured_query}
use embyr.Store.{Document, Query, ListPage}
use embyr.Sqlite.Table.{Row}
use embyr.Sqlite.Adapter.{Adapter}
use embyr.Sqlite.Paging.{Statement, query_documents}

unfoldable pub is_empty : List ℕ → Bool
is_empty [] = true
is_empty (c ∷ t) = false

-- `limit > 0`
unfoldable pub is_positive : ℤ → Bool
is_positive (pos zero) = false
is_positive (pos (suc n)) = true
is_positive (negsuc n) = false

unfoldable pub prepend :
    List Document → Option (Result (List Document)) → Option (Result (List Document))
prepend docs none = none
prepend docs (some (ok more)) = some (ok (docs ++ more))
prepend docs (some (err e)) = some (err e)

-- The page size: a positive limit, or 300.
unfoldable pub query_page_size : Option ℤ → ℤ
query_page_size none = pos 300
query_page_size (some n) = if is_positive n then n else pos 300

-- `codec.StoreToProto` succeeds.
unfoldable pub decodes : Protobuf → Document → Bool
unfolding store_to_proto
decodes pb d = elim (store_to_proto pb d) [ none ↦ false | some p ↦ true ]

module _ (pb : Protobuf) (select : Statement → List Row → List Document) where
  -- The loop on `fuel` rounds; `none` means that the rounds ran out.
  unfoldable pub query_loop : ℕ → Query → List ℕ → Adapter → Option (Result (List Document))
  unfolding is_empty is_positive prepend decodes
  query_loop zero q token a = none
  query_loop (suc fuel) q token a =
      elim (query_documents select (record q { page_token = token }) a) [
        | err e ↦ some (err e)
        | ok page ↦
            let rest = query_loop fuel q page.next_page_token a in
            if not (all (decodes pb) page.documents)
            then some (err internal)
            else if is_empty page.next_page_token || is_positive q.limit
            then some (ok page.documents)
            else prepend page.documents rest
      ]

  -- The handler on `fuel` rounds.
  unfoldable pub run_query :
      ℕ → String → Option StructuredQuery → Adapter → Option (Result (List Document))
  unfolding is_positive query_page_size query_from_structured_query query_loop
  run_query fuel parent none a = some (err invalid_argument)
  run_query fuel parent (some sq) a =
      elim (query_from_structured_query pb parent sq (query_page_size sq.limit) []) [
        | err e ↦ some (err e)
        | ok q ↦ query_loop fuel q [] a
      ]
