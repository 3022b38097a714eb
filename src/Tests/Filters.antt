-- ===== src/Tests/Filters.antt =====
-- Filters at concrete inputs.
use embyr.Base.{List, [], ◌∷◌, ◌≡◌, ◌↔◌, All, some, map, refl, true}
use embyr.Base.Int.{pos}
use embyr.Codec.Match.{matches_filter, lookup_nested_field}
use embyr.Codec.Match.Laws.{IntegerFilter, filter_of, Holds, ge, lt, matches_filter-Holds}
use embyr.Tests.{floats, runtime, document}

abbrev adults : List IntegerFilter
adults =
    record { field = "profile.age"; found = pos 36; comparison = ge; operand = pos 18 }
    ∷ record { field = "visits"; found = pos 4; comparison = lt; operand = pos 9 }
    ∷ []

matches_filter-Holds_example :
    (matches_filter floats runtime document (some (map filter_of adults)) ≡ true)
    ↔ All (λ (q : IntegerFilter). Holds q.comparison q.found q.operand) adults
unfolding lookup_nested_field
matches_filter-Holds_example =
    matches_filter-Holds floats runtime document adults (refl, (refl, tt))
