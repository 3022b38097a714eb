-- ===== src/Server/RunQuery/Complete.antt =====
-- When the query loop of `RunQuery` sends every document, and when it does not end.
use embyr.Base.{
  all, all-take, all-drop, ℕ, zero, suc, ◌+◌, ◌-◌, ◌<◌, Bool, true, false, ◌||◌, List, [], ◌∷◌,
  none, some, ◌≡◌, ◌≢◌, refl, ◌∙◌, ap, arith, length, take, drop, take-drop_page, inl, inr,
  Bool-cases, ltb, ltb→lt,
}
use embyr.Base.Int.{ℤ, pos, negsuc, half_range}
use embyr.Base.Result.{Code, ok, err}
use embyr.Proto.{Protobuf}
use embyr.Store.{Document, Query, ListPage}
use embyr.Store.Page.{encode_page_token, decode_page_token, decode-encode_page_token}
use embyr.Sqlite.Table.{Row}
use embyr.Sqlite.Adapter.{Adapter}
use embyr.Sqlite.Paging.{
  Statement, statement_of, valid_statement, has_cursor, positive_or, page_of, query_documents,
}
use embyr.Sqlite.Paging.Laws.{page_of-more, page_of-last, page_of-documents}
use embyr.Server.RunQuery.{is_empty, is_positive, prepend, decodes, query_loop}

module _ (pb : Protobuf) (select : Statement → List Row → List Document) (q : Query)
    (a : Adapter) where
  -- The documents that the query selects, and the size of a page.
  abbrev pub selected : List Document
  selected = select (statement_of q) a.documents

  abbrev pub size : ℕ
  size = positive_or 300 q.page_size

  size_pos : (n : ℤ) → 0 < positive_or 300 n
  size_pos (pos zero) = unfold positive_or in omega arith
  size_pos (pos (suc n)) = unfold positive_or in omega arith
  size_pos (negsuc n) = unfold positive_or in omega arith

  abbrev page_from : ℕ → ListPage
  page_from offset = record {
    documents = (page_of size offset selected).0;
    next_page_token = (page_of size offset selected).1;
  }

  query_documents-page :
      (token : List ℕ)
      → valid_statement (statement_of q) ≡ true
      → has_cursor q ≡ false
      → query_documents select (record q { page_token = token }) a
        ≡ ok (page_from (decode_page_token token))
  query_documents-page token valid plain = unfold query_documents in rw (plain, valid)

  query_documents-cursor :
      (token : List ℕ)
      → valid_statement (statement_of q) ≡ true
      → has_cursor q ≡ true
      → query_documents select (record q { page_token = token }) a ≡ ok (page_from 0)
  query_documents-cursor token valid cursor = unfold query_documents in rw (cursor, valid)

  token-is_empty : (n : ℕ) → n < half_range → is_empty (encode_page_token n) ≡ false
  token-is_empty n h = nonempty (encode_page_token n) (decode-encode_page_token n h).1
    where
      nonempty : (t : List ℕ) → t ≢ [] → is_empty t ≡ false
      nonempty [] e = absurd (e refl)
      nonempty (c ∷ t) e = unfold is_empty in refl

  -- Another round that finds more rows.
  pub query_loop-more :
      (fuel : ℕ) (token : List ℕ) (page : ListPage)
      → query_documents select (record q { page_token = token }) a ≡ ok page
      → all (decodes pb) page.documents ≡ true
      → is_empty page.next_page_token ≡ false
      → is_positive q.limit ≡ false
      → query_loop pb select (suc fuel) q token a
        ≡ prepend page.documents (query_loop pb select fuel q page.next_page_token a)
  query_loop-more fuel token page e good more unlimited =
      unfold query_loop in rw (e, query_loop, good, more, unlimited)

  pub query_loop-last :
      (fuel : ℕ) (token : List ℕ) (page : ListPage)
      → query_documents select (record q { page_token = token }) a ≡ ok page
      → all (decodes pb) page.documents ≡ true
      → (is_empty page.next_page_token || is_positive q.limit) ≡ true
      → query_loop pb select (suc fuel) q token a ≡ some (ok page.documents)
  query_loop-last fuel token page e good last = unfold query_loop in rw (e, query_loop, good, last)

  pub query_loop-error :
      (fuel : ℕ) (token : List ℕ) (c : Code)
      → query_documents select (record q { page_token = token }) a ≡ err c
      → query_loop pb select (suc fuel) q token a ≡ some (err c)
  query_loop-error fuel token c e = unfold query_loop in rw (e, query_loop)

  -- From any offset, the loop sends all that is left.
  query_loop-from :
      (fuel offset : ℕ) (token : List ℕ)
      → valid_statement (statement_of q) ≡ true
      → has_cursor q ≡ false
      → all (decodes pb) selected ≡ true
      → is_positive q.limit ≡ false
      → length selected + size < half_range
      → length selected - offset < fuel
      → decode_page_token token ≡ offset
      → query_loop pb select fuel q token a ≡ some (ok (drop offset selected))
  query_loop-from zero offset token valid plain good unlimited fits enough at = absurd (omega arith)
  query_loop-from (suc fuel) offset token valid plain good unlimited fits enough at =
      elim (Bool-cases (ltb (offset + size) (length selected))) [
        | inl more ↦
            let lt = ltb→lt (offset + size) (length selected) more in
            let next = encode_page_token (offset + size) in
            let page : query_documents select (record q { page_token = token }) a
                ≡ ok (record {
                  documents = take size (drop offset selected);
                  next_page_token = next;
                }) =
              rw (
                query_documents-page token valid plain,
                at,
                page_of-more size offset selected lt,
              ) in
            let turn =
              query_loop-more fuel token _ page
                (all-take (decodes pb) size (drop offset selected)
                  (all-drop (decodes pb) offset selected good))
                (token-is_empty (offset + size) (omega arith)) unlimited in
            let pos = size_pos q.page_size in
            let ih =
              query_loop-from fuel (offset + size) next valid plain good unlimited fits
                (omega arith) (decode-encode_page_token (offset + size) (omega arith)).0 in
            turn
            ∙ rw ih (
                unfold prepend in
                ap (λ l. some (ok l)) (take-drop_page size offset (offset + size) selected refl))
        | inr done ↦
            let page : query_documents select (record q { page_token = token }) a
                ≡ ok (record { documents = drop offset selected; next_page_token = [] }) =
              rw (
                query_documents-page token valid plain,
                at,
                page_of-last size offset selected (ground arith),
              ) in
            query_loop-last fuel token _ page (all-drop (decodes pb) offset selected good)
              (unfold is_empty in refl)
      ]

  first_token : decode_page_token [] ≡ 0
  first_token = unfold decode_page_token in refl

  -- A cursor makes every round start at the first row again.
  query_loop-cursor :
      (fuel : ℕ) (token : List ℕ)
      → valid_statement (statement_of q) ≡ true
      → has_cursor q ≡ true
      → all (decodes pb) (take size selected) ≡ true
      → is_positive q.limit ≡ false
      → size < length selected
      → size < half_range
      → query_loop pb select fuel q token a ≡ none
  query_loop-cursor zero token valid cursor good unlimited many fits = unfold query_loop in refl
  query_loop-cursor (suc fuel) token valid cursor good unlimited many fits =
      let page : query_documents select (record q { page_token = token }) a
          ≡ ok (record {
            documents = take size selected;
            next_page_token = encode_page_token (0 + size);
          }) =
        rw
          (query_documents-cursor token valid cursor, page_of-more size 0 selected (omega arith)) in
      let turn =
        query_loop-more fuel token _ page good (token-is_empty (0 + size) (omega arith))
          unlimited in
      let ih =
        query_loop-cursor fuel (encode_page_token (0 + size)) valid cursor good unlimited many
          fits in
      turn ∙ rw ih (unfold prepend in refl)

  first_page :
      valid_statement (statement_of q) ≡ true
      → query_documents select (record q { page_token = [] }) a ≡ ok (page_from 0)
  first_page valid = elim (Bool-cases (has_cursor q)) [
    | inl cursor ↦ query_documents-cursor [] valid cursor
    | inr plain ↦ rw (query_documents-page [] valid plain, first_token)
  ]

-- `RunQuery` without cursors and without a limit, over documents that decode, ends, and sends every
-- document that the query selects, each once and in order: as many rounds as there are documents,
-- and one more, are enough. The offsets must stay within int64, and the stream takes every message.
pub query_loop_complete :
    (pb : Protobuf) (select : Statement → List Row → List Document) (q : Query) (a : Adapter)
    (fuel : ℕ)
    → valid_statement (statement_of q) ≡ true
    → has_cursor q ≡ false
    → all (decodes pb) (selected pb select q a) ≡ true
    → is_positive q.limit ≡ false
    → length (selected pb select q a) + size pb select q a < half_range
    → length (selected pb select q a) < fuel
    → query_loop pb select fuel q [] a ≡ some (ok (selected pb select q a))
query_loop_complete pb select q a fuel valid plain good unlimited fits enough =
    query_loop-from pb select q a fuel 0 [] valid plain good unlimited fits (omega arith)
      (first_token pb select q a)

-- With a limit `RunQuery` makes one round, with or without cursors, and sends the first
-- documents that the query selects, at most a page of them.
query_loop-limited :
    (pb : Protobuf) (select : Statement → List Row → List Document) (q : Query) (a : Adapter)
    (fuel : ℕ)
    → valid_statement (statement_of q) ≡ true
    → all (decodes pb) (take (size pb select q a) (selected pb select q a)) ≡ true
    → is_positive q.limit ≡ true
    → query_loop pb select (suc fuel) q [] a
      ≡ some (ok (take (size pb select q a) (selected pb select q a)))
query_loop-limited pb select q a fuel valid good limited =
    query_loop-last pb select q a fuel [] (page_from pb select q a 0)
      (first_page pb select q a valid)
      (rw (page_of-documents (size pb select q a) 0 (selected pb select q a)) good)
      (or_true (is_empty (page_from pb select q a 0).next_page_token) limited)
    ∙ ap (λ l. some (ok l)) (page_of-documents (size pb select q a) 0 (selected pb select q a))
  where
    or_true : (b : Bool) {c : Bool} → c ≡ true → (b || c) ≡ true
    or_true true e = refl
    or_true false e = e

-- `RunQuery` with a cursor, no limit and more matching documents than a page holds, of which those
-- of the first page decode, does not end: no number of rounds is enough, since the backend answers
-- every round with the first page. The stream takes every message.
pub query_loop-diverges :
    (pb : Protobuf) (select : Statement → List Row → List Document) (q : Query) (a : Adapter)
    → valid_statement (statement_of q) ≡ true
    → has_cursor q ≡ true
    → all (decodes pb) (take (size pb select q a) (selected pb select q a)) ≡ true
    → is_positive q.limit ≡ false
    → size pb select q a < length (selected pb select q a)
    → size pb select q a < half_range
    → (fuel : ℕ) → query_loop pb select fuel q [] a ≡ none
query_loop-diverges pb select q a valid cursor good unlimited many fits fuel =
    query_loop-cursor pb select q a fuel [] valid cursor good unlimited many fits
