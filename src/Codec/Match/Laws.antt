-- ===== src/Codec/Match/Laws.antt =====
-- The operators of filters against one another (`matchFieldFilter` of internal/codec/query.go).
use embyr.Base.{
  String, map, ◌≢◌, Bool-cases, inl, inr, Bool, true, false, ◌&&◌, ◌||◌, List, [], ◌∷◌, Option,
  none, some, ◌≡◌, ◌↔◌, refl, sym, arith, any, all, All,
}
use embyr.Base.Int.{ℤ, pos, negsuc, ltb_ℤ, eqb_ℤ, eqb_ℤ_iff}
use embyr.Proto.{Value, Fields, Float64, Protobuf}
use embyr.Store.{FilterValue, FilterOp, FieldFilter}
use embyr.Codec.Values.{filter_value_from_proto, array_vals}
use embyr.Codec.Match.{
  lookup_nested_field, filter_values_equal, filter_values_cmp, array_of, contains, contains_any,
  match_value, match_found, match_field_filter, matches_filter,
}

-- A comparison of a document's integer with an integer.
pub data Comparison : Type 0 where
  eq ne lt le gt ge : Comparison

abbrev pub op_of : Comparison → FilterOp
op_of eq = FilterOp.equal
op_of ne = FilterOp.not_equal
op_of lt = FilterOp.less_than
op_of le = FilterOp.less_than_or_equal
op_of gt = FilterOp.greater_than
op_of ge = FilterOp.greater_than_or_equal

-- What a comparison says of two integers.
abbrev pub Holds : Comparison → ℤ → ℤ → Type 0
Holds eq a b = a ≡ b
Holds ne a b = a ≢ b
Holds lt a b = ltb_ℤ a b ≡ true
Holds le a b = ltb_ℤ b a ≡ false
Holds gt a b = ltb_ℤ b a ≡ true
Holds ge a b = ltb_ℤ a b ≡ false

-- A filter on an integer field: its path, the integer there, and what it is compared with.
pub record IntegerFilter : Type 0 where
  pub field : String
  pub found : ℤ
  pub comparison : Comparison
  pub operand : ℤ

abbrev pub filter_of : IntegerFilter → FieldFilter
filter_of q = record { field = q.field; op = op_of q.comparison; value = FilterValue.int q.operand }

ltb_ℤ-asym : (a b : ℤ) → ltb_ℤ a b ≡ true → ltb_ℤ b a ≡ false
unfolding ltb_ℤ
ltb_ℤ-asym (pos m) (pos n) h = ground arith
ltb_ℤ-asym (pos m) (negsuc n) h = ground arith
ltb_ℤ-asym (negsuc m) (pos n) h = ground arith
ltb_ℤ-asym (negsuc m) (negsuc n) h = ground arith

match_value-Holds :
    (f : Float64) (c : Comparison) (a b : ℤ)
    → (match_value f (FilterValue.int a) (op_of c) (FilterValue.int b) ≡ true) ↔ Holds c a b
unfolding match_value filter_values_cmp filter_values_equal
match_value-Holds f eq a b = eqb_ℤ_iff a b
match_value-Holds f ne a b = (
  λ h same. ground (arith, (eqb_ℤ_iff a b).1 same),
  λ differ. elim (Bool-cases (eqb_ℤ a b)) [
    | inl e ↦ absurd (differ ((eqb_ℤ_iff a b).0 e))
    | inr e ↦ ground arith
  ],
)
match_value-Holds f lt a b = (λ h. ground arith, λ h. ground arith)
match_value-Holds f le a b = (λ h. ground (arith, ltb_ℤ-asym a b), λ h. ground arith)
match_value-Holds f gt a b =
    (λ h. ground (arith, ltb_ℤ-asym a b), λ h. ground (arith, ltb_ℤ-asym b a))
match_value-Holds f ge a b =
    (λ h. ground (arith, ltb_ℤ-asym a b), λ h. ground (arith, ltb_ℤ-asym a b))

and_iff :
    {P Q : Type 0} (a b : Bool) → ((a ≡ true) ↔ P) → ((b ≡ true) ↔ Q) → ((a && b) ≡ true) ↔ (P × Q)
and_iff true b (p, _) (q, q') = (λ h. (p refl, q h), λ (x, y). q' y)
and_iff false b (_, p') (q, q') = (λ h. absurd cc, λ (x, y). p' x)

match_field_filter-Holds :
    (f : Float64) (pb : Protobuf) (fields : Fields) (q : IntegerFilter)
    → lookup_nested_field fields q.field ≡ some (Value.integer q.found)
    → (match_field_filter f pb fields (filter_of q) ≡ true) ↔ Holds q.comparison q.found q.operand
match_field_filter-Holds f pb fields q here =
    unfold match_field_filter match_found filter_value_from_proto in
    rw (here, match_field_filter, match_found) (match_value-Holds f q.comparison q.found q.operand)

-- Filters that compare integer fields of a document with integers match it, together, exactly when
-- every one of the comparisons holds.
pub matches_filter-Holds :
    (f : Float64) (pb : Protobuf) (fields : Fields) (qs : List IntegerFilter)
    → All
        (λ (q : IntegerFilter). lookup_nested_field fields q.field ≡ some (Value.integer q.found))
        qs
    → (matches_filter f pb fields (some (map filter_of qs)) ≡ true)
      ↔ All (λ (q : IntegerFilter). Holds q.comparison q.found q.operand) qs
unfolding matches_filter
matches_filter-Holds f pb fields [] here = (λ h. tt, λ h. refl)
matches_filter-Holds f pb fields (q ∷ qs) (at, here) =
    and_iff (match_field_filter f pb fields (filter_of q))
      (all (match_field_filter f pb fields) (map filter_of qs))
      (match_field_filter-Holds f pb fields q at) (matches_filter-Holds f pb fields qs here)

-- On integers the operators are the order: exactly one of `<`, `==` and `>` matches, `<=` is `<`
-- or `==`, `>=` is `>` or `==`, and `==` is equality.
match_value-int :
    (f : Float64) (a b : ℤ)
    → let test : FilterOp → Bool = λ op. match_value f (FilterValue.int a) op (FilterValue.int b) in
      (test FilterOp.less_than_or_equal ≡ (test FilterOp.less_than || test FilterOp.equal))
      × (test FilterOp.greater_than_or_equal ≡ (test FilterOp.greater_than || test FilterOp.equal))
      × ((test FilterOp.less_than && test FilterOp.greater_than) ≡ false)
      × ((test FilterOp.equal ≡ true) ↔ (a ≡ b))
unfolding match_value filter_values_cmp filter_values_equal
match_value-int f a b = (ground arith, ground arith, ground arith, eqb_ℤ_iff a b)

any-false : {A : Type 0} (xs : List A) → any (λ _. false) xs ≡ false
any-false [] = refl
any-false (x ∷ xs) = any-false xs

or_swap : (a b c d : Bool) → ((a || b) || (c || d)) ≡ ((a || c) || (b || d))
or_swap true b c d = refl
or_swap false true true d = refl
or_swap false true false d = refl
or_swap false false c d = refl

any_or :
    {A : Type 0} (p q : A → Bool) (xs : List A) → any (λ x. p x || q x) xs ≡ (any p xs || any q xs)
any_or p q [] = refl
any_or p q (x ∷ xs) = rw (any_or p q xs) (or_swap (p x) (q x) (any p xs) (any q xs))

any_swap :
    {A B : Type 0} (r : A → B → Bool) (xs : List A) (ys : List B)
    → any (λ x. any (r x) ys) xs ≡ any (λ y. any (λ x. r x y) xs) ys
any_swap r [] ys = sym (any-false ys)
any_swap r (x ∷ xs) ys = rw (any_swap r xs ys) (sym (any_or (r x) (λ y. any (λ x'. r x' y) xs) ys))

contains_any_eq :
    (f : Float64) (els : Option (List FilterValue)) (ws : List FilterValue)
    → contains_any f els ws ≡ any (contains f els) ws
unfolding contains contains_any
contains_any_eq f none ws = sym (any-false ws)
contains_any_eq f (some els) ws = any_swap (filter_values_equal f) els ws

-- `array-contains-any` matches what `array-contains` matches for one of the candidates.
array_contains_any_eq :
    (f : Float64) (v w : FilterValue)
    → match_value f v FilterOp.array_contains_any w
      ≡ any (λ c. match_value f v FilterOp.array_contains c) (array_vals w)
unfolding match_value
array_contains_any_eq f v w = contains_any_eq f (array_of v) (array_vals w)
