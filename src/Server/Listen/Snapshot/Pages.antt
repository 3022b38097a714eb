-- ===== src/Server/Listen/Snapshot/Pages.antt =====
-- The loop over the pages of a query, in the snapshot of internal/server/listen.go.
use embyr.Base.{ℕ, arith, all, ◌+◌, ◌<◌, length, suc, true, false, ◌||◌, List, [], ◌≡◌, refl}
use embyr.Base.Int.{ℤ, half_range}
use embyr.Base.Result.{Code, ok, err}
use embyr.Store.{Document, Query, ListPage}
use embyr.Proto.{Protobuf, end}
use embyr.Server.RunQuery.{is_empty, is_positive, prepend, decodes, query_loop}
use embyr.Server.RunQuery.Complete.{
  selected, size, query_loop_complete, query_loop-more, query_loop-last, query_loop-error,
}
use embyr.Base.{
  ◌∷◌, Bool, Option, ap, sym, subst, append_assoc, Bool-cases, inl, inr, zero, none, some, ◌++◌,
}
use embyr.Base.Result.{Result, Result-cases}
use embyr.Codec.Documents.{decode_fields, store_to_proto}
use embyr.Sqlite.Table.{Row}
use embyr.Sqlite.Adapter.{Adapter}
use embyr.Sqlite.Paging.{Statement, statement_of, valid_statement, has_cursor, query_documents}
use embyr.Server.RunQuery.{is_empty, is_positive}
use embyr.Server.Listen.Messages.{
  TargetInfo, done, closed, panicked, unfinished, failed, Sent, follow,
}
use embyr.Server.Listen.Snapshot.{
  send_decoded, open_snapshot, seal_snapshot, send_contents, deliver_snapshot, send_documents,
  next_query, send_pages,
}

-- The rounds of the loop over pages.
module _ (select : Statement → List Row → List Document) (pb : Protobuf) (fuel : ℕ) (i : ℤ)
    (q : Query) (a : Adapter) where
  pub send_pages-error :
      (c : Code)
      → query_documents select q a ≡ err c
      → send_pages select pb (suc fuel) i q a ≡ ([], failed c)
  send_pages-error c e = unfold send_pages in rw (e, send_pages) refl

  pub send_pages-last :
      (page : ListPage)
      → query_documents select q a ≡ ok page
      → (is_empty page.next_page_token || is_positive q.limit) ≡ true
      → send_pages select pb (suc fuel) i q a ≡ send_documents pb i page.documents
  send_pages-last page e last = unfold send_pages in rw (e, send_pages, last) refl

  pub send_pages-more :
      (page : ListPage)
      → query_documents select q a ≡ ok page
      → (is_empty page.next_page_token || is_positive q.limit) ≡ false
      → send_pages select pb (suc fuel) i q a
        ≡ follow
            (send_documents pb i page.documents)
            (send_pages select pb fuel i (next_query q page.next_page_token) a)
  send_pages-more page e more = unfold send_pages in rw (e, send_pages, more) refl

follow_assoc : (s t u : Sent) → follow s (follow t u) ≡ follow (follow s t) u
unfolding follow
follow_assoc (rs, done) (ss, done) (ts, o) = ap (λ l. (l, o)) (sym (append_assoc rs ss ts))
follow_assoc (rs, done) (ss, closed) u = refl
follow_assoc (rs, done) (ss, panicked) u = refl
follow_assoc (rs, done) (ss, unfinished) u = refl
follow_assoc (rs, done) (ss, failed c) u = refl
follow_assoc (rs, closed) t u = refl
follow_assoc (rs, panicked) t u = refl
follow_assoc (rs, unfinished) t u = refl
follow_assoc (rs, failed c) t u = refl

follow_nothing : (s : Sent) → follow ([], done) s ≡ s
follow_nothing s = unfold follow in refl

send_documents-append :
    (pb : Protobuf) (i : ℤ) (ds es : List Document)
    → send_documents pb i (ds ++ es) ≡ follow (send_documents pb i ds) (send_documents pb i es)
unfolding send_documents
send_documents-append pb i [] es = sym (follow_nothing (send_documents pb i es))
send_documents-append pb i (d ∷ ds) es = rw (send_documents-append pb i ds es) (
    follow_assoc (send_decoded i (store_to_proto pb d)) (send_documents pb i ds)
      (send_documents pb i es))

or_false : (b c : Bool) → (b || c) ≡ false → (b ≡ false) × (c ≡ false)
or_false true c h = absurd cc
or_false false c h = (refl, h)

-- What a loop that succeeds has sent after its first page.
prepend-ok :
    (ds docs : List Document) (o : Option (Result (List Document)))
    → prepend ds o ≡ some (ok docs)
    → (rest : List Document) × (o ≡ some (ok rest)) × (ds ++ rest ≡ docs)
unfolding prepend
prepend-ok ds docs none h = absurd cc
prepend-ok ds docs (some (err c)) h = absurd cc
prepend-ok ds docs (some (ok rest)) h = (rest, refl, cc)

-- A runtime that decodes every document, for which the loop of `RunQuery` only selects.
abbrev lenient : Protobuf → Protobuf
lenient pb = record pb { unmarshal_fields = λ text. some end }

all-decodes : (pb : Protobuf) (ds : List Document) → all (decodes (lenient pb)) ds ≡ true
all-decodes pb [] = refl
all-decodes pb (d ∷ ds) = rw (decodes-lenient d, all-decodes pb ds) refl
  where
    decodes-lenient : (d : Document) → decodes (lenient pb) d ≡ true
    decodes-lenient d = unfold decodes store_to_proto decode_fields in ground arith

module _ (select : Statement → List Row → List Document) (pb : Protobuf) (i : ℤ) (q : Query)
    (a : Adapter) where
  -- Without cursors the loop sends what the loop of `RunQuery` does.
  send_pages-query_loop :
      (fuel : ℕ) (token : List ℕ) (docs : List Document)
      → query_loop (lenient pb) select fuel (next_query q []) token a ≡ some (ok docs)
      → send_pages select pb fuel i (next_query q token) a ≡ send_documents pb i docs
  send_pages-query_loop zero token docs h = absurd (unfold query_loop in cc)
  send_pages-query_loop (suc fuel) token docs h =
      let ih = λ (t : List ℕ). send_pages-query_loop fuel t in
      elim (Result-cases (query_documents select (next_query q token) a)) [
        | inl (c, e) ↦
            let k =
              rw (query_loop-error (lenient pb) select (next_query q []) a fuel token c e) at h in
            absurd cc
        | inr (page, e) ↦ elim (Bool-cases (is_empty page.next_page_token || is_positive q.limit)) [
          | inl last ↦
              let k =
                rw
                  (query_loop-last (lenient pb) select (next_query q []) a fuel token page e
                    (all-decodes pb page.documents) last)
                  at h in
              let same : page.documents ≡ docs = cc in
              rw (send_pages-last select pb fuel i (next_query q token) a page e last, same) refl
          | inr more ↦
              let (left, unlimited) = or_false _ (is_positive q.limit) more in
              let turn =
                query_loop-more (lenient pb) select (next_query q []) a fuel token page e
                  (all-decodes pb page.documents) left unlimited in
              let (rest, found, all_docs) = prepend-ok page.documents docs _ (rw turn at h) in
              rw
                (
                  send_pages-more select pb fuel i (next_query q token) a page e more,
                  ih page.next_page_token rest found,
                  ← all_docs,
                )
                (sym (send_documents-append pb i page.documents rest))
        ]
      ]

-- The snapshot of a query target without cursors and without a limit opens the target, sends every
-- document that the query selects, each once and in order, and seals the target; one that does
-- not decode ends it with an error. As many rounds as there are documents, and one more, are
-- enough. The offsets must stay within int64.
pub deliver_snapshot_complete :
    (select : Statement → List Row → List Document) (pb : Protobuf) (fuel : ℕ) (a : Adapter)
    (ti : TargetInfo) (q : Query)
    → ti.doc_paths ≡ []
    → ti.query ≡ some q
    → q.start_cursor ≡ none
    → q.end_cursor ≡ none
    → q.page_token ≡ []
    → valid_statement (statement_of q) ≡ true
    → is_positive q.limit ≡ false
    → length (selected pb select q a) + size pb select q a < half_range
    → length (selected pb select q a) < fuel
    → deliver_snapshot select pb fuel a ti
      ≡ follow (open_snapshot ti.target_id) (
          follow
            (send_documents pb ti.target_id (selected pb select q a))
            (seal_snapshot ti.target_id))
deliver_snapshot_complete select pb fuel a ti q no_paths queried start end_ first valid unlimited
      fits enough =
    let plain : q ≡ next_query q [] =
      λ i. record q { start_cursor = start i; end_cursor = end_ i; page_token = first i } in
    let sent =
      subst
        (λ p.
          send_pages select pb fuel ti.target_id p a
          ≡ send_documents pb ti.target_id (selected pb select p a))
        (sym plain)
        (send_pages-query_loop select pb ti.target_id q a fuel []
          (selected pb select (next_query q []) a)
          (query_loop_complete (lenient pb) select (next_query q []) a fuel
            (subst (λ p. valid_statement (statement_of p) ≡ true) plain valid)
            (unfold has_cursor in refl) (all-decodes pb (selected pb select (next_query q []) a))
            unlimited
            (subst (λ p. length (selected pb select p a) + size pb select p a < half_range) plain
              fits)
            (subst (λ p. length (selected pb select p a) < fuel) plain enough))) in
    unfold deliver_snapshot send_contents in rw (no_paths, queried, send_contents, sent) refl
