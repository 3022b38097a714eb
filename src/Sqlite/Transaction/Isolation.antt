-- ===== src/Sqlite/Transaction/Isolation.antt =====
-- A write between a transaction's read and its commit is not overwritten.
use Prim.Native.Char.{code}
use embyr.Base.{
  Bool, true, false, not, ◌&&◌, leb, ◌==◌, ℕ, ◌+◌, String, List, [], ◌∷◌, if◌then◌else◌, Option,
  none, some, ◌≡◌, ◌≢◌, refl, sym, ◌∙◌, ap, subst, arith, str_eq, eq_iff, eq_refl, Option-cases,
  Bool-cases, inl, inr,
}
use embyr.Base.Result.{aborted, not_found, Result, ok, err}
use embyr.Store.{Document, WriteMode, upsert, update, insert_only, WriteOp, CommitResult}
use embyr.Store.Path.{parse_path}
use embyr.Sqlite.Table.{Row, document_of, find_row}
use embyr.Sqlite.Table.Laws.{find_row-path}
use embyr.Sqlite.Adapter.{Adapter, TxRow, ReadValue, at_version, nested, update_document, or_time}
use embyr.Sqlite.Refine.{view, apply, Meets, some_result, view-some}
use embyr.Sqlite.Refine.Run.{apply-Meets}
use embyr.Sqlite.Spec.{Model, write, spec, spec_write, stamped, next_version}
use embyr.Sqlite.Transaction.{
  find_tx, json_path, record_read, recorded, versions_of, get_document_for_transaction,
  commit_transaction,
}
use embyr.Sqlite.Transaction.Laws.{
  AreCurrent, Commits, done, missing, garbled, stale, failed, commit_transaction-Commits,
}

abbrev pub lookup_read : String → List (String × ℕ) → Option ℕ
lookup_read path [] = none
lookup_read path ((p, v) ∷ reads) = if str_eq p path then some v else lookup_read path reads

-- The reads with another version under a key, as the column has them and decoded.
abbrev pub set_entry : String → ℕ → List (String × ReadValue) → List (String × ReadValue)
set_entry path v [] = (path, at_version v) ∷ []
set_entry path v ((p, u) ∷ reads) =
    if str_eq p path then (path, at_version v) ∷ reads else (p, u) ∷ set_entry path v reads

abbrev set_read : String → ℕ → List (String × ℕ) → List (String × ℕ)
set_read path v [] = (path, v) ∷ []
set_read path v ((p, u) ∷ reads) =
    if str_eq p path then (path, v) ∷ reads else (p, u) ∷ set_read path v reads

-- A character that a JSON path has no use for.
abbrev is_key_char : ℕ → Bool
is_key_char c =
    leb b' ' c && not (c == b'.') && not (c == b'[') && not (c == b'"') && not (c == b'\\')

abbrev all_key_chars : String → Bool
all_key_chars String.[] = true
all_key_chars (String.◌∷◌ c s) = is_key_char (code c) && all_key_chars s

-- A path that is a single key of a JSON path.
abbrev pub IsKey : String → Type 0
IsKey path = (all_key_chars path ≡ true) × (str_eq path "" ≡ false)

-- What SQLite documents of `json_set` for a single key: its value is replaced or added.
abbrev pub SetsKeys : Adapter → Type 0
SetsKeys a =
    (path : String) (reads : List (String × ReadValue)) (v : ℕ)
    → IsKey path
    → a.json_set reads (json_path path) v ≡ some (set_entry path v reads)

versions_of-set_entry :
    (path : String) (v : ℕ) (reads : List (String × ReadValue)) (rs : List (String × ℕ))
    → versions_of reads ≡ some rs
    → versions_of (set_entry path v reads) ≡ some (set_read path v rs)
unfolding versions_of
versions_of-set_entry path v [] rs h = let e : [] ≡ rs = cc in rw (← e) refl
versions_of-set_entry path v ((p, nested t) ∷ reads) rs h = absurd cc
versions_of-set_entry path v ((p, at_version u) ∷ reads) rs h =
    elim (Option-cases (versions_of reads)) [
      | inl bad ↦ absurd (ground arith)
      | inr (rest, good) ↦
          let same : some ((p, u) ∷ rest) ≡ some rs = ground arith in
          let e : (p, u) ∷ rest ≡ rs = cc in
          let ih = versions_of-set_entry path v reads rest good in
          rw (← e) (elim (Bool-cases (str_eq p path)) [
            | inl at ↦ rw (at, good, versions_of) refl
            | inr other ↦ rw (other, versions_of, ih) refl
          ])
    ]

lookup_read-set_read :
    (path : String) (v : ℕ) (reads : List (String × ℕ))
    → lookup_read path (set_read path v reads) ≡ some v
lookup_read-set_read path v [] = ground (arith, eq_refl path)
lookup_read-set_read path v ((p, u) ∷ reads) =
    ground (arith, eq_refl path, lookup_read-set_read path v reads)

-- The transactions after a read by the transaction `id`.
abbrev with_read : String → String → ℕ → List TxRow → List TxRow
with_read id path v [] = []
with_read id path v (t ∷ txs) =
    if str_eq t.id id
    then record t { reads = set_entry path v t.reads } ∷ txs
    else t ∷ with_read id path v txs

record_read-with_read :
    (a : Adapter) (id path : String) (v : ℕ) (txs : List TxRow)
    → SetsKeys a
    → IsKey path
    → record_read a id path v txs ≡ some (with_read id path v txs)
unfolding record_read
record_read-with_read a id path v [] sets key = refl
record_read-with_read a id path v (t ∷ txs) sets key =
    ground (arith, sets path t.reads v key, record_read-with_read a id path v txs sets key)

find_tx-with_read :
    (id path : String) (v : ℕ) (txs : List TxRow) (t : TxRow)
    → find_tx id txs ≡ some t
    → find_tx id (with_read id path v txs) ≡ some (record t { reads = set_entry path v t.reads })
unfolding find_tx
find_tx-with_read id path v [] t h = cc
find_tx-with_read id path v (u ∷ txs) t h = ground (arith, find_tx-with_read id path v txs t)

AreCurrent-lookup_read :
    (reads : List (String × ℕ)) (rows : List Row) (path : String) (v : ℕ)
    → AreCurrent reads rows
    → lookup_read path reads ≡ some v
    → (r : Row) × (find_row path rows ≡ some r) × (r.version ≡ v)
AreCurrent-lookup_read [] rows path v h e = cc
AreCurrent-lookup_read ((p, u) ∷ reads) rows path v ((r, found, same), h) e =
    elim (Bool-cases (str_eq p path)) [
      | inl at ↦ (r, ground (arith, eq_iff p path), ground arith)
      | inr other ↦ AreCurrent-lookup_read reads rows path v h (ground arith)
    ]

some_eq : {A : Type 0} {t u : A} → some u ≡ some t → u ≡ t
some_eq e = cc

-- A commit is refused, and changes nothing, when a document that the transaction read is gone or
-- has another version.
commit_transaction_stale :
    (now : ℕ) (id path : String) (ops : List WriteOp) (a : Adapter) (t : TxRow) (v : ℕ)
    (rs : List (String × ℕ))
    → find_tx id a.transactions ≡ some t
    → versions_of t.reads ≡ some rs
    → lookup_read path rs ≡ some v
    → ((r : Row) → find_row path a.documents ≡ some r → r.version ≢ v)
    → commit_transaction now id ops a ≡ (err aborted, a)
commit_transaction_stale now id path ops a t v rs known decoded read moved =
    let (r, b) = resolve (commit_transaction-Commits now id ops a) in λ i. (r i, b i)
  where
    reads_of : (u : TxRow) → find_tx id a.transactions ≡ some u → versions_of u.reads ≡ some rs
    reads_of u e =
        ap (λ (w : TxRow). versions_of w.reads) {x = u} {y = t} (some_eq (sym e ∙ known)) ∙ decoded

    not_current :
        (u : TxRow) (us : List (String × ℕ))
        → find_tx id a.transactions ≡ some u
        → versions_of u.reads ≡ some us
        → ¬ AreCurrent us a.documents
    not_current u us e f h =
        let same : rs ≡ us = some_eq (sym (reads_of u e) ∙ f) in
        let (r, found, at) =
          AreCurrent-lookup_read us a.documents path v h
            (subst (λ l. lookup_read path l ≡ some v) same read) in
        moved r found at

    resolve :
        {r : Result CommitResult} {b : Adapter}
        → Commits now id ops a r b
        → (r ≡ err aborted) × (b ≡ a)
    resolve (done u us rows e g current f) = absurd (not_current u us e g current)
    resolve (missing e) = absurd (let k : none ≡ some t = sym e ∙ known in cc)
    resolve (garbled u e bad) = absurd (let k : none ≡ some rs = sym bad ∙ reads_of u e in cc)
    resolve (stale u us e g old) = (refl, refl)
    resolve (failed u us e g current f) = absurd (not_current u us e g current)

-- A successful read in a transaction gives the row's version, and records it.
get_document_for_transaction_lem :
    (id path : String) (a b : Adapter) (d : Document)
    → SetsKeys a
    → IsKey path
    → get_document_for_transaction id path a ≡ (ok d, b)
    → (r : Row) × (find_row path a.documents ≡ some r)
      × (d.version ≡ r.version)
      × (b ≡ record a { transactions = with_read id path r.version a.transactions })
get_document_for_transaction_lem id path a b d sets key h =
    elim (Option-cases (find_row path a.documents)) [
      | inl absent ↦
          let bad : ◌≡◌ {A = Result Document × Adapter} (err not_found, a) (ok d, b) =
            sym (read_absent absent) ∙ h in
          cc
      | inr (r, found) ↦
          let good : ◌≡◌ {A = Result Document × Adapter}
              (
                ok (document_of r),
                record a { transactions = with_read id path r.version a.transactions },
              )
              (ok d, b) =
            sym (read_found r found) ∙ h in
          (r, found, unfold document_of in cc, cc)
    ]
  where
    read_absent :
        find_row path a.documents ≡ none
        → get_document_for_transaction id path a ≡ (err not_found, a)
    read_absent e = unfold get_document_for_transaction in ground arith

    read_found :
        (r : Row)
        → find_row path a.documents ≡ some r
        → get_document_for_transaction id path a ≡ (
          ok (document_of r),
          record a { transactions = with_read id path r.version a.transactions },
        )
    read_found r e =
        let wrote = record_read-with_read a id path r.version a.transactions sets key in
        unfold get_document_for_transaction recorded document_of in ground (arith, wrote)

-- A write that finds a document and succeeds leaves one more version of it.
spec_write-version :
    (mode : WriteMode) (d old : Document) (m : Model) {o : Option Document}
    → old.path ≡ d.path
    → (spec_write mode d (some old) m).result ≡ ok o
    → (n : Document) × ((spec_write mode d (some old) m).model d.path ≡ some n)
      × (n.version ≡ old.version + 1)
spec_write-version upsert d old m at h = elim (Bool-cases (str_eq (parse_path d.path).0 "")) [
  | inl bad ↦ ground arith
  | inr good ↦ (next_version d (some old), rw good (ground (arith, eq_iff old.path d.path)), refl)
]
spec_write-version update d old m at h =
    (next_version d (some old), ground (arith, eq_iff old.path d.path), refl)
spec_write-version insert_only d old m at h = ground arith

view-version :
    (rows : List Row) (path : String) (n : Document) (r : Row)
    → view rows path ≡ some n
    → find_row path rows ≡ some r
    → r.version ≡ n.version
unfolding view document_of
view-version rows path n r seen found =
    let same : ◌≡◌ {A = Option Document} (some (document_of r)) (some n) = rw found at seen in cc

apply_write :
    (now : ℕ) (d : Document) (mode : WriteMode) (b : Adapter)
    → apply (write now d mode) b
      ≡ (some_result (update_document now d mode b).0, (update_document now d mode b).1)
unfolding apply
apply_write now d mode b = refl

update_document-Meets :
    (now : ℕ) (d : Document) (mode : WriteMode) (b c : Adapter) (written : Document)
    → update_document now d mode b ≡ (ok written, c)
    → Meets (ok (some written)) b c (spec (write now d mode) (view b.documents))
update_document-Meets now d mode b c written e =
    rw (apply_write now d mode b, e) at (apply-Meets (write now d mode) b)

-- No lost updates: a transaction whose reads decode reads a document, then someone else writes
-- that document, in any mode, with success; whatever the transaction then commits is refused as
-- aborted, and the other write stays. The path is a single key for `json_set`: it has no '.' or
-- '[', quotes, backslashes or control characters.
pub no_lost_update :
    (now later : ℕ) (id path : String) (mode : WriteMode) (d read written : Document)
    (ops : List WriteOp) (a b c : Adapter) (t : TxRow) (rs : List (String × ℕ))
    → SetsKeys a
    → IsKey path
    → find_tx id a.transactions ≡ some t
    → versions_of t.reads ≡ some rs
    → get_document_for_transaction id path a ≡ (ok read, b)
    → d.path ≡ path
    → update_document now d mode b ≡ (ok written, c)
    → commit_transaction later id ops c ≡ (err aborted, c)
no_lost_update now later id path mode d read written ops a b c t rs sets key known decoded got at
      wrote =
    let (r, found, _, b_is) = get_document_for_transaction_lem id path a b read sets key got in
    let met : Meets (ok (some written)) b c (spec (write now d mode) (view b.documents)) =
      update_document-Meets now d mode b c written wrote in
    let found_b : find_row d.path b.documents ≡ some r = rw (at, b_is) found in
    let stay : c.transactions ≡ with_read id path r.version a.transactions =
      met.transactions ∙ ap (λ (x : Adapter). x.transactions) b_is in
    let known_c : find_tx id c.transactions
        ≡ some (record t { reads = set_entry path r.version t.reads }) =
      rw stay (find_tx-with_read id path r.version a.transactions t known) in
    commit_transaction_stale later id path ops c _ r.version (set_read path r.version rs) known_c
      (versions_of-set_entry path r.version t.reads rs decoded)
      (lookup_read-set_read path r.version rs) (newer r found_b met)
  where
    newer :
        (r : Row)
        → find_row d.path b.documents ≡ some r
        → Meets (ok (some written)) b c (spec (write now d mode) (view b.documents))
        → (q : Row) → find_row path c.documents ≡ some q
        → q.version ≢ r.version
    newer r found_b met q found_c same =
        let old = document_of r in
        let (n, seen, bumped) =
          spec_write-version mode (stamped (or_time d.updated_at now) now d) old (view b.documents)
            (unfold document_of in find_row-path d.path b.documents r found_b)
            (rw (view-some d.path b.documents found_b) at (sym met.result)) in
        let up : n.version ≡ r.version + 1 = unfold document_of in bumped in
        let docs = rw (view-some d.path b.documents found_b) at met.documents in
        let in_c : view c.documents d.path ≡ some n = ap (λ (m : Model). m d.path) docs ∙ seen in
        let there : q.version ≡ n.version =
          view-version c.documents path n q (subst (λ s. view c.documents s ≡ some n) at in_c)
            found_c in
        absurd (omega arith)
