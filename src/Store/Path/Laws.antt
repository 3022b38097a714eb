-- ===== src/Store/Path/Laws.antt =====
-- `ParsePath` inverts `BuildPath`.
use Prim.Native.String.{◌++◌ as str_append}
use mathlib.Core.Option
use embyr.Base.{
  ℕ, zero, suc, ◌+◌, ◌-◌, ◌%◌, ◌<◌, String, List, [], ◌∷◌, ◌++◌, none, some, ◌≡◌, refl, ap, arith,
  str_eq, inl, inr, Bool-cases, length, get_or, take, drop, length-append, take-append,
  take-append_le, drop-append_le, length-drop, take-append-drop, ◌∙◌,
}
use embyr.Text.{split_on, join, slash}
use embyr.Text.Split.{IsFree, split_on_of_IsFree, split_on-append, join-split_on}
use embyr.Store.Path.{index_of, collection_and_parent, parse_parts, parse_path, build_path}

-- A path under which collections can stand: it names the documents root, or a document, whose
-- segments after "documents" come in pairs.
abbrev pub IsParent : String → Type 0
IsParent parent =
    (i : ℕ) × (index_of "documents" (split_on slash parent) ≡ some i)
    × ((length (split_on slash parent) - (i + 1)) % 2 ≡ 0)

index_of-append :
    (w : String) (xs ys : List String) (i : ℕ)
    → index_of w xs ≡ some i
    → index_of w (xs ++ ys) ≡ some i
unfolding index_of
index_of-append w [] ys i h = cc
index_of-append w (x ∷ xs) ys i h = elim (Bool-cases (str_eq x w)) [
  | inl same ↦ rw same (rw same at h)
  | inr other ↦
      let (j, found, e) = (Option.map-eq-some_iff suc (index_of w xs)).0 (rw other at h) in
      rw (other, index_of-append w xs ys j found) (ap some e)
]

index_of-lt : (w : String) (xs : List String) (i : ℕ) → index_of w xs ≡ some i → i < length xs
unfolding index_of
index_of-lt w [] i h = cc
index_of-lt w (x ∷ xs) i h = elim (Bool-cases (str_eq x w)) [
  | inl same ↦ ground arith
  | inr other ↦
      let (j, found, e) = (Option.map-eq-some_iff suc (index_of w xs)).0 (rw other at h) in
      omega (arith, index_of-lt w xs j found, e)
]

get_or-append :
    (xs : List String) (y d : String) (ys : List String) (n : ℕ)
    → n ≡ length xs
    → get_or (xs ++ y ∷ ys) n d ≡ y
get_or-append [] y d ys zero e = refl
get_or-append [] y d ys (suc n) e = absurd (omega arith)
get_or-append (x ∷ xs) y d ys zero e = absurd (omega arith)
get_or-append (x ∷ xs) y d ys (suc n) e = get_or-append xs y d ys n (omega arith)

collection_and_parent-append :
    (head rel : List String) (collection_id doc_id : String)
    → length rel % 2 ≡ 0
    → collection_and_parent head (rel ++ collection_id ∷ doc_id ∷ [])
      ≡ (collection_id, join slash (head ++ rel))
collection_and_parent-append head rel c d even =
    let more : List String = c ∷ d ∷ [] in
    let n = length (rel ++ more) in
    let len : length (rel ++ more) ≡ length rel + 2 = length-append rel more in
    let name = get_or-append rel c "" (d ∷ []) (n - 2) (omega arith) in
    let rest = take-append rel more (n - 2) (omega arith) in
    unfold collection_and_parent in ground (arith, name, rest)

parse_parts_found :
    (ps : List String) (i : ℕ)
    → index_of "documents" ps ≡ some i
    → parse_parts ps ≡ collection_and_parent (take (i + 1) ps) (drop (i + 1) ps)
parse_parts_found ps i e = rw (unfold_parts ps, e)
  where
    unfold_parts :
        (qs : List String)
        → parse_parts qs ≡ elim (index_of "documents" qs) as (λ _. String × String) [
          | none ↦ ("", "")
          | some k ↦ collection_and_parent (take (k + 1) qs) (drop (k + 1) qs)
        ]
    unfold_parts qs = unfold parse_parts in refl

-- Two more segments after a parent's parts: the first is the collection, and the parts before
-- make up the parent again.
parse_parts-append :
    (ps : List String) (collection_id doc_id : String) (i : ℕ)
    → index_of "documents" ps ≡ some i
    → (length ps - (i + 1)) % 2 ≡ 0
    → parse_parts (ps ++ collection_id ∷ doc_id ∷ []) ≡ (collection_id, join slash ps)
parse_parts-append ps c d i found even =
    let more : List String = c ∷ d ∷ [] in
    let lt = index_of-lt "documents" ps i found in
    let head = take-append_le (i + 1) ps more (omega arith) in
    let rest = drop-append_le (i + 1) ps more (omega arith) in
    let split =
      collection_and_parent-append (take (i + 1) ps) (drop (i + 1) ps) c d
        (omega (arith, length-drop (i + 1) ps)) in
    let whole = take-append-drop (i + 1) ps in
    rw (
      parse_parts_found (ps ++ more) i (index_of-append "documents" ps more i found),
      head,
      rest,
      split,
      whole,
    )

split_on-build_path :
    (parent c d : String)
    → IsFree slash c
    → IsFree slash d
    → split_on slash (build_path parent c d) ≡ split_on slash parent ++ c ∷ d ∷ []
unfolding build_path
split_on-build_path parent c d hc hd = rw (
  split_on-append slash parent (str_append c (String.◌∷◌ slash d)),
  split_on-append slash c d,
  split_on_of_IsFree slash c hc,
  split_on_of_IsFree slash d hd,
)

parse_path_lem : (path : String) → parse_path path ≡ parse_parts (split_on slash path)
unfolding parse_path
parse_path_lem path = refl

-- `ParsePath` takes apart what `BuildPath` put together: under the documents root or under a
-- document, the collection and the parent come back, whatever the document's name, as long as
-- the two names hold no slash.
pub parse_path-build_path :
    (parent collection_id doc_id : String)
    → IsParent parent
    → IsFree slash collection_id
    → IsFree slash doc_id
    → parse_path (build_path parent collection_id doc_id) ≡ (collection_id, parent)
parse_path-build_path parent c d (i, found, even) hc hd =
    let parts : split_on slash (build_path parent c d) ≡ split_on slash parent ++ c ∷ d ∷ [] =
      split_on-build_path parent c d hc hd in
    parse_path_lem (build_path parent c d)
    ∙ ap parse_parts parts
    ∙ parse_parts-append (split_on slash parent) c d i found even
    ∙ ap (λ s. (c, s)) (join-split_on slash parent)
