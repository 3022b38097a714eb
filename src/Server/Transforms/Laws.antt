-- ===== src/Server/Transforms/Laws.antt =====
-- What field transforms do to the fields, and to arrays.
use embyr.Base.{
  ℕ, String, Bool, true, false, List, [], ◌∷◌, ◌++◌, Option, none, some, ◌≡◌, inl, inr, refl, subst,
  ◌∙◌, ◌||◌, All, arith, Bool-cases,
}
use embyr.Base.Int.{ℤ, ◌+ℤ◌, IsInt64, wrap64_of_IsInt64}
use embyr.Base.Result.{Result, ok, err}
use embyr.Text.{split_on, dot}
use embyr.Proto.{Value, Fields, integer, array, Float64, Protobuf}
use embyr.Proto.Dict.{array_of}
use embyr.Server.Mask.{nested_get_value, nested_set_value}
use embyr.Server.Mask.Laws.{AreApart, nested_set_value-apart, nested_set_value-same}
use embyr.Server.Transforms.{
  FieldTransform, increment, append_missing_elements, remove_all_from_array, incremented,
  existing_array, contains, missing, is_removed, kept, transformed, set_if_some, after, continue,
  apply_field_transforms,
}

-- The path of a transform parts from another one.
abbrev pub IsApartFrom : String → FieldTransform → Type 0
IsApartFrom fp t = AreApart (split_on dot t.field_path) (split_on dot fp)

set_if_some-apart :
    (p fp : String) (o : Option Value) (fields : Fields)
    → AreApart (split_on dot p) (split_on dot fp)
    → nested_get_value (set_if_some p o fields) fp ≡ nested_get_value fields fp
unfolding set_if_some
set_if_some-apart p fp none fields h = refl
set_if_some-apart p fp (some v) fields h = nested_set_value-apart p fp v fields h

after-ok :
    (reported : List (Option Value)) (r : Result (Fields × List (Option Value))) {out : Fields}
    {results : List (Option Value)}
    → after reported r ≡ ok (out, results)
    → (rest : List (Option Value)) × (r ≡ ok (out, rest))
unfolding after
after-ok reported (err e) h = absurd cc
after-ok reported (ok (o, rest)) h = (rest, cc)

continue-ok :
    (rest : Option Value → Result (Fields × List (Option Value)))
    (r : Result (Option Value × List (Option Value))) {out : Fields} {results : List (Option Value)}
    → continue rest r ≡ ok (out, results)
    → (set : Option Value) × (reported others : List (Option Value)) × (r ≡ ok (set, reported))
      × (rest set ≡ ok (out, others))
unfolding continue
continue-ok rest (err e) h = absurd cc
continue-ok rest (ok (set, reported)) h =
    let (others, k) = after-ok reported (rest set) h in (set, reported, others, refl, k)

-- A field whose path parts from every transform's path keeps its value.
pub transforms-untouched :
    (f : Float64) (pb : Protobuf) (now : ℕ) (fp : String) (curr : Fields) (ts : List FieldTransform)
    (fields : Fields) {out : Fields} {results : List (Option Value)}
    → apply_field_transforms f pb now curr fields ts ≡ ok (out, results)
    → All (IsApartFrom fp) ts
    → nested_get_value out fp ≡ nested_get_value fields fp
unfolding apply_field_transforms
transforms-untouched f pb now fp curr [] fields h hs = cc
transforms-untouched f pb now fp curr (t ∷ ts) fields h (apart, hs) =
    let (set, reported, others, e, k) =
      continue-ok _ (transformed f pb now (nested_get_value curr t.field_path) t.kind) h in
    transforms-untouched f pb now fp curr ts (set_if_some t.field_path set fields) k hs
    ∙ set_if_some-apart t.field_path fp set fields apart

-- The first transform of a field sets what it makes of the field's current value, and the others
-- keep it where their paths part from its path.
pub transforms-first :
    (f : Float64) (pb : Protobuf) (now : ℕ) (curr fields : Fields) (t : FieldTransform)
    (ts : List FieldTransform) {v : Value} {reported results : List (Option Value)} {out : Fields}
    → transformed f pb now (nested_get_value curr t.field_path) t.kind ≡ ok (some v, reported)
    → apply_field_transforms f pb now curr fields (t ∷ ts) ≡ ok (out, results)
    → All (IsApartFrom t.field_path) ts
    → nested_get_value out t.field_path ≡ some v
unfolding apply_field_transforms continue set_if_some
transforms-first f pb now curr fields t ts {v} {reported} {results} {out} e h hs =
    let (others, k) =
      after-ok reported
        (apply_field_transforms f pb now curr (nested_set_value fields t.field_path v) ts)
        {results = results}
        (subst
          (λ r.
            continue
              (λ set. apply_field_transforms f pb now curr (set_if_some t.field_path set fields) ts)
              r
            ≡ ok (out, results))
          e h) in
    transforms-untouched f pb now t.field_path curr ts _ k hs
    ∙ nested_set_value-same t.field_path v fields

-- An integer increment of an integer adds it, where the sum is in the range of int64.
pub increment_exact :
    (f : Float64) (pb : Protobuf) (now : ℕ) (i d : ℤ)
    → IsInt64 (i +ℤ d)
    → transformed f pb now (some (integer i)) (increment (integer d))
      ≡ ok (some (integer (i +ℤ d)), some (integer (i +ℤ d)) ∷ [])
unfolding transformed incremented
increment_exact f pb now i d h = rw (wrap64_of_IsInt64 (i +ℤ d) h) refl

contains-append :
    (pb : Protobuf) (xs ys : List Value) (v : Value)
    → contains pb (xs ++ ys) v ≡ (contains pb xs v || contains pb ys v)
unfolding contains
contains-append pb [] ys v = refl
contains-append pb (x ∷ xs) ys v = ground (arith, contains-append pb xs ys v)

All-imp :
    {A : Type 0} {P Q : A → Type 0} → ((x : A) → P x → Q x) → (xs : List A) → All P xs → All Q xs
All-imp h [] ps = tt
All-imp h (x ∷ xs) (p, ps) = (h x p, All-imp h xs ps)

or_weaken : (a b c : Bool) → (a || c) ≡ true → (a || (b || c)) ≡ true
or_weaken true b c h = refl
or_weaken false true c h = refl
or_weaken false false c h = h

-- A value of the incoming ones is in the existing array or among those it lacks.
missing-covers :
    (pb : Protobuf)
    → ((v : Value) → pb.equal v v ≡ true)
    → (existing incoming : List Value)
    → All
        (λ v. (contains pb existing v || contains pb (missing pb existing incoming) v) ≡ true)
        incoming
unfolding missing contains
missing-covers pb reflexive existing [] = tt
missing-covers pb reflexive existing (v ∷ vs) = elim (Bool-cases (contains pb existing v)) [
  | inl h ↦ (
    rw h refl,
    All-imp
        {Q = λ x. (contains pb existing x || contains pb (missing pb existing (v ∷ vs)) x) ≡ true}
        (λ x k. rw h k) vs (missing-covers pb reflexive existing vs),
  )
  | inr h ↦ (
    rw (h, reflexive v) refl,
    All-imp
        {Q = λ x. (contains pb existing x || contains pb (missing pb existing (v ∷ vs)) x) ≡ true}
        (λ x k. rw h (or_weaken (contains pb existing x) (pb.equal v x) _ k)) vs
        (missing-covers pb reflexive existing vs),
  )
]

missing-new :
    (pb : Protobuf) (existing incoming : List Value)
    → All (λ v. contains pb existing v ≡ false) (missing pb existing incoming)
unfolding missing
missing-new pb existing [] = tt
missing-new pb existing (v ∷ vs) = elim (Bool-cases (contains pb existing v)) [
  | inl h ↦ rw h (missing-new pb existing vs)
  | inr h ↦ rw h (h, missing-new pb existing vs)
]

missing-contained :
    (pb : Protobuf)
    → ((v : Value) → pb.equal v v ≡ true)
    → (existing incoming : List Value)
    → All (λ v. contains pb incoming v ≡ true) (missing pb existing incoming)
unfolding missing contains
missing-contained pb reflexive existing [] = tt
missing-contained pb reflexive existing (v ∷ vs) =
    let rest =
      All-imp {Q = λ x. contains pb (v ∷ vs) x ≡ true} (λ x k. or_weaken false (pb.equal v x) _ k)
        (missing pb existing vs) (missing-contained pb reflexive existing vs) in
    elim (Bool-cases (contains pb existing v)) [
      | inl h ↦ rw h rest
      | inr h ↦ rw h (rw (reflexive v) refl, rest)
    ]

-- Where `proto.Equal` is reflexive, `arrayUnion` sets the field to its current elements followed
-- by incoming values that were not among them, and the new array has every incoming value.
pub array_union_lem :
    (f : Float64) (pb : Protobuf) (now : ℕ) (curr : Option Value) (incoming : List Value)
    → ((v : Value) → pb.equal v v ≡ true)
    → (added : List Value) × (let v = array (array_of (existing_array curr ++ added)) in
        transformed f pb now curr (append_missing_elements incoming) ≡ ok (some v, some v ∷ []))
      × All (λ v. contains pb (existing_array curr) v ≡ false) added
      × All (λ v. contains pb incoming v ≡ true) added
      × All (λ v. contains pb (existing_array curr ++ added) v ≡ true) incoming
unfolding transformed
array_union_lem f pb now curr incoming reflexive =
    let existing = existing_array curr in
    let added = missing pb existing incoming in
    (
      added,
      refl,
      missing-new pb existing incoming,
      missing-contained pb reflexive existing incoming,
      All-imp (λ v h. contains-append pb existing added v ∙ h) incoming
          (missing-covers pb reflexive existing incoming),
    )

kept-clean :
    (pb : Protobuf) (to_remove es : List Value)
    → All (λ e. is_removed pb to_remove e ≡ false) (kept pb to_remove es)
unfolding kept
kept-clean pb to_remove [] = tt
kept-clean pb to_remove (e ∷ es) = elim (Bool-cases (is_removed pb to_remove e)) [
  | inl h ↦ rw h (kept-clean pb to_remove es)
  | inr h ↦ rw h (h, kept-clean pb to_remove es)
]

kept-covers :
    (pb : Protobuf)
    → ((v : Value) → pb.equal v v ≡ true)
    → (to_remove es : List Value)
    → All (λ e. (is_removed pb to_remove e || contains pb (kept pb to_remove es) e) ≡ true) es
unfolding kept contains
kept-covers pb reflexive to_remove [] = tt
kept-covers pb reflexive to_remove (e ∷ es) = elim (Bool-cases (is_removed pb to_remove e)) [
  | inl h ↦ (
    rw h refl,
    All-imp
        {Q = λ x. (is_removed pb to_remove x || contains pb (kept pb to_remove (e ∷ es)) x) ≡ true}
        (λ x k. rw h k) es (kept-covers pb reflexive to_remove es),
  )
  | inr h ↦ (
    rw (h, reflexive e) refl,
    All-imp
        {Q = λ x. (is_removed pb to_remove x || contains pb (kept pb to_remove (e ∷ es)) x) ≡ true}
        (λ x k. rw h (or_weaken (is_removed pb to_remove x) (pb.equal e x) _ k)) es
        (kept-covers pb reflexive to_remove es),
  )
]

-- Where `proto.Equal` is reflexive, `arrayRemove` on a field that is there sets it to an array in
-- which no element equals a value to remove, and every current element that equals none is in it.
pub array_remove_lem :
    (f : Float64) (pb : Protobuf) (now : ℕ) (curr : Value) (to_remove : List Value)
    → ((v : Value) → pb.equal v v ≡ true)
    → (left : List Value) × (let v = array (array_of left) in
        transformed f pb now (some curr) (remove_all_from_array to_remove)
        ≡ ok (some v, some v ∷ []))
      × All (λ e. is_removed pb to_remove e ≡ false) left
      × All
          (λ e. (is_removed pb to_remove e || contains pb left e) ≡ true)
          (existing_array (some curr))
unfolding transformed
array_remove_lem f pb now curr to_remove reflexive =
    let existing = existing_array (some curr) in
    (
      kept pb to_remove existing,
      refl,
      kept-clean pb to_remove existing,
      kept-covers pb reflexive to_remove existing,
    )
