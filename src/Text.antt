-- ===== src/Text.antt =====
-- The functions of Go's `strings` package that the program calls: Split, SplitN (through Split),
-- Join, TrimRight, and the order of strings. A text is a native String. Go compares strings
-- bytewise, which for UTF-8 is the order of the code points.
pub mod Split
use Prim.Native.Nat.{compare, Ordering}
use Prim.Native.Char.{Char, code}
use Prim.Native.String.{◌++◌ as str_append}
use embyr.Base.{ℕ, String, Bool, true, false, List, [], ◌∷◌, ◌==◌, ltb, if◌then◌else◌}

-- Puts a character in front of the first part.
abbrev pub grow : Char → List String → List String
grow c [] = (String.◌∷◌ c String.[]) ∷ []
grow c (p ∷ ps) = (String.◌∷◌ c p) ∷ ps

-- `strings.Split(s, sep)` for a separator of one character: never empty.
unfoldable pub split_on : Char → String → List String
split_on sep String.[] = String.[] ∷ []
split_on sep (String.◌∷◌ c s) =
    let parts = split_on sep s in if code c == code sep then String.[] ∷ parts else grow c parts

-- `strings.Join(parts, sep)` for a separator of one character.
unfoldable pub join : Char → List String → String
join sep [] = String.[]
join sep (p ∷ []) = p
join sep (p ∷ q ∷ ps) = str_append p (String.◌∷◌ sep (join sep (q ∷ ps)))

-- What stays of a text that begins with `c`, once the rest is trimmed.
keep_unless : Char → Char → String → String
keep_unless cut c String.[] = if code c == code cut then String.[] else String.◌∷◌ c String.[]
keep_unless cut c (String.◌∷◌ d t) = String.◌∷◌ c (String.◌∷◌ d t)

-- `strings.TrimRight(s, cutset)` for a cutset of one character.
unfoldable pub trim_right : Char → String → String
unfolding keep_unless
trim_right cut String.[] = String.[]
trim_right cut (String.◌∷◌ c s) = keep_unless cut c (trim_right cut s)

-- `s < t` on strings.
unfoldable pub str_lt : String → String → Bool
str_lt String.[] String.[] = false
str_lt String.[] (String.◌∷◌ d t) = true
str_lt (String.◌∷◌ c s) String.[] = false
str_lt (String.◌∷◌ c s) (String.◌∷◌ d t) =
    let rest = str_lt s t in
    elim (compare (code c) (code d)) [
      | Ordering.lt ↦ true
      | Ordering.eq ↦ rest
      | Ordering.gt ↦ false
    ]

abbrev pub space : Char
space = " "

abbrev pub slash : Char
slash = "/"

abbrev pub dot : Char
dot = "."
