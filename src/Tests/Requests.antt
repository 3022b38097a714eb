-- ===== src/Tests/Requests.antt =====
-- The handlers at concrete inputs.
use mathlib.Core.List.Memᴰ.{head, tail}
use embyr.Base.{
  Bool, str_eq, eq_refl, List, [], ◌∷◌, map, Option, none, some, ◌≡◌, refl, true, false, arith, inl,
  inr, ◌++◌, ◌||◌, All, ne_of_str_eq,
}
use embyr.Base.Int.{pos, negsuc, ◌+ℤ◌}
use embyr.Base.Result.{ok}
use embyr.Store.{Document, Query, FilterValue}
use embyr.Proto.{Protobuf, Value, end, field, integer, string, array}
use embyr.Proto.Dict.{array_of}
use embyr.Text.{split_on}
use embyr.Sqlite.Table.{Row, document_of}
use embyr.Sqlite.Paging.{Statement, statement_of, valid_statement, has_cursor, positive_or}
use embyr.Server.RunQuery.{query_loop, is_positive, decodes}
use embyr.Server.RunQuery.Complete.{selected, query_loop_complete, query_loop-diverges}
use embyr.Server.Mask.{apply_mask, nested_get_value}
use embyr.Server.Mask.Laws.{apply_mask-outside, apply_mask-inside}
use embyr.Server.Transforms.{
  FieldTransform, increment, append_missing_elements, remove_all_from_array, transformed,
  apply_field_transforms, existing_array, contains, is_removed,
}
use embyr.Server.Transforms.Laws.{
  transforms-untouched, transforms-first, increment_exact, array_union_lem, array_remove_lem,
}
use embyr.Server.Writes.{Write, update_document, delete_document}
use embyr.Server.Commit.{CommitRequest, commit, batch_write}
use embyr.Server.Commit.Laws.{Committed, commit-Committed, Isolated, batch_write-Isolated}
use embyr.Tests.{database, floats, runtime, document, incoming}

all_rows : Statement → List Row → List Document
all_rows st rows = map document_of rows

abbrev all_users : Query
all_users = record {
  parent = "projects/p/databases/d/documents";
  collection_id = "users";
  filter = none;
  order_by = [];
  limit = pos 0;
  start_cursor = none;
  end_cursor = none;
  page_token = [];
  page_size = pos 1;
}

abbrev users_from_a : Query
users_from_a = record all_users {
  start_cursor =
      some (record { values = FilterValue.string "a" ∷ []; before = true; is_end = false });
}

query_loop_complete_example :
    query_loop runtime all_rows 3 all_users [] database
    ≡ some (ok (selected runtime all_rows all_users database))
unfolding valid_statement has_cursor is_positive all_rows statement_of positive_or decodes
    document_of
query_loop_complete_example =
    query_loop_complete runtime all_rows all_users database 3 refl refl refl refl (omega arith)
      (omega arith)

query_loop-diverges_example : query_loop runtime all_rows 100 users_from_a [] database ≡ none
unfolding valid_statement has_cursor is_positive all_rows statement_of positive_or decodes
    document_of
query_loop-diverges_example =
    query_loop-diverges runtime all_rows users_from_a database refl refl refl refl (omega arith)
      (omega arith) 100

apply_mask-outside_example :
    nested_get_value (apply_mask document incoming ("profile.age" ∷ [])) "profile.name"
    ≡ nested_get_value document "profile.name"
unfolding split_on
apply_mask-outside_example =
    apply_mask-outside ("profile.age" ∷ []) "profile.name" document incoming
      (inr (refl, inl (ne_of_str_eq "age" "name" refl)), tt)

apply_mask-inside_example :
    nested_get_value (apply_mask document incoming ("visits" ∷ "profile.age" ∷ [])) "profile.age"
    ≡ nested_get_value incoming "profile.age"
unfolding split_on
apply_mask-inside_example =
    apply_mask-inside ("visits" ∷ "profile.age" ∷ []) "profile.age" document incoming
      (tail (head refl)) (inr (inl (ne_of_str_eq "visits" "profile" refl)), (inl refl, tt))

abbrev one_more_visit : FieldTransform
one_more_visit = record { field_path = "visits"; kind = increment (integer (pos 1)) }

transforms-untouched_example :
    nested_get_value (field "visits" (integer (pos 5)) end) "name" ≡ nested_get_value end "name"
unfolding apply_field_transforms split_on
transforms-untouched_example =
    transforms-untouched floats runtime 9000 "name" document (one_more_visit ∷ []) end
      {out = field "visits" (integer (pos 5)) end} {results = some (integer (pos 5)) ∷ []} refl
      (inl (ne_of_str_eq "visits" "name" refl), tt)

transforms-first_example :
    nested_get_value (field "visits" (integer (pos 5)) end) "visits" ≡ some (integer (pos 5))
unfolding apply_field_transforms transformed nested_get_value split_on
transforms-first_example =
    transforms-first floats runtime 9000 document end one_more_visit [] {v = integer (pos 5)}
      {reported = some (integer (pos 5)) ∷ []} {results = some (integer (pos 5)) ∷ []}
      {out = field "visits" (integer (pos 5)) end} refl refl tt

increment_exact_example :
    transformed floats runtime 9000 (some (integer (negsuc 4))) (increment (integer (pos 7)))
    ≡ ok (some (integer (negsuc 4 +ℤ pos 7)), some (integer (negsuc 4 +ℤ pos 7)) ∷ [])
unfolding ◌+ℤ◌
increment_exact_example = increment_exact floats runtime 9000 (negsuc 4) (pos 7) (omega arith)

abbrev tags : Option Value
tags = some (array (array_of (string "a" ∷ string "b" ∷ [])))

-- Texts are equal when they are the same, and other values all the same.
same_value : Value → Value → Bool
same_value (string s) (string t) = str_eq s t
same_value (string s) _ = false
same_value _ (string t) = false
same_value _ _ = true

same_value-reflexive : (v : Value) → same_value v v ≡ true
unfolding same_value
same_value-reflexive Value.unset = refl
same_value-reflexive Value.null = refl
same_value-reflexive (Value.boolean b) = refl
same_value-reflexive (Value.integer i) = refl
same_value-reflexive (Value.double d) = refl
same_value-reflexive (Value.timestamp t) = refl
same_value-reflexive (Value.string s) = eq_refl s
same_value-reflexive (Value.bytes bs) = refl
same_value-reflexive (Value.reference r) = refl
same_value-reflexive (Value.geo_point x y) = refl
same_value-reflexive (Value.array vs) = refl
same_value-reflexive (Value.map m) = refl

abbrev textual : Protobuf
unfolding same_value
textual = record runtime { equal = same_value }

abbrev more_tags : List Value
more_tags = string "b" ∷ string "c" ∷ []

array_union_example :
    (added : List Value) × (let v = array (array_of (existing_array tags ++ added)) in
      transformed floats textual 9000 tags (append_missing_elements more_tags)
      ≡ ok (some v, some v ∷ []))
    × All (λ v. contains textual (existing_array tags) v ≡ false) added
    × All (λ v. contains textual more_tags v ≡ true) added
    × All (λ v. contains textual (existing_array tags ++ added) v ≡ true) more_tags
unfolding textual same_value
array_union_example = array_union_lem floats textual 9000 tags more_tags same_value-reflexive

abbrev tag_array : Value
tag_array = array (array_of (string "a" ∷ string "b" ∷ []))

array_remove_example :
    (left : List Value) × (let v = array (array_of left) in
      transformed floats textual 9000 (some tag_array) (remove_all_from_array more_tags)
      ≡ ok (some v, some v ∷ []))
    × All (λ e. is_removed textual more_tags e ≡ false) left
    × All
        (λ e. (is_removed textual more_tags e || contains textual left e) ≡ true)
        (existing_array (some tag_array))
unfolding textual same_value
array_remove_example = array_remove_lem floats textual 9000 tag_array more_tags same_value-reflexive

abbrev bump_ada : Write
bump_ada = record {
  operation = update_document (record {
    name = "projects/p/databases/d/documents/users/ada";
    fields = end;
    create_time = 0;
    update_time = 0;
  });
  update_mask = [];
  update_transforms = one_more_visit ∷ [];
  current_document = none;
}

abbrev drop_nothing : Write
drop_nothing = record bump_ada { operation = delete_document "" }

abbrev request : CommitRequest
request = record { writes = bump_ada ∷ drop_nothing ∷ []; transaction = "" }

commit-Committed_example :
    Committed floats runtime 9000 request database (commit floats runtime 9000 request database)
commit-Committed_example = commit-Committed floats runtime 9000 request database

batch_write-Isolated_example :
    Isolated floats runtime 9000
      (drop_nothing ∷ bump_ada ∷ [])
      database
      (batch_write floats runtime 9000 (drop_nothing ∷ bump_ada ∷ []) database).0
      (batch_write floats runtime 9000 (drop_nothing ∷ bump_ada ∷ []) database).1
batch_write-Isolated_example =
    batch_write-Isolated floats runtime 9000 (drop_nothing ∷ bump_ada ∷ []) database
