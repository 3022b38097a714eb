-- ===== src/Store/Token.antt =====
-- The text of page tokens, byte by byte: what internal/store/page.go uses of Go's `strconv` and
-- `encoding/base64` (RawURLEncoding: the URL alphabet, no padding, line breaks skipped, spare
-- bits of the last character ignored).
pub mod Laws
use embyr.Base.{
  ℕ, zero, suc, ◌+◌, ◌-◌, ◌*◌, ◌/◌, ◌%◌, ◌^◌, Bool, List, [], ◌∷◌, Option, none, some, ◌&&◌, ◌||◌,
  ◌==◌, ltb, leb, if◌then◌else◌,
}
use embyr.Base.Int.{ℤ, pos, negsuc, half_range}

infixl 5 ◌>>=◌
abbrev pub ◌>>=◌ : {A B : Type 0} → Option A → (A → Option B) → Option B
none >>= f = none
some a >>= f = f a

-- The decimal digits of `n` in front of `acc`; `n + 1` rounds are enough.
digits_from : ℕ → ℕ → List ℕ → List ℕ
digits_from zero n acc = acc
digits_from (suc fuel) n acc =
    let more = digits_from fuel (n / 10) ((b'0' + n % 10) ∷ acc) in
    if ltb n 10 then (b'0' + n) ∷ acc else more

-- `strconv.Itoa` of a number that is not negative.
unfoldable pub itoa : ℕ → List ℕ
unfolding digits_from
itoa n = digits_from (suc n) n []

abbrev pub is_digit : ℕ → Bool
is_digit c = leb b'0' c && leb c b'9'

-- The number that the digits of `s` make up after `acc`.
read_digits : ℕ → List ℕ → Option ℕ
read_digits acc [] = some acc
read_digits acc (c ∷ s) = if is_digit c then read_digits (acc * 10 + (c - b'0')) s else none

-- At least one digit, and a value below `bound`.
read_below : ℕ → List ℕ → Option ℕ
read_below bound [] = none
read_below bound (c ∷ s) = do n ← read_digits 0 (c ∷ s); if ltb n bound then some n else none

abbrev negate : ℕ → ℤ
negate zero = pos 0
negate (suc n) = negsuc n

-- `strconv.Atoi`: an optional sign, then digits; out of the range of int64 is an error.
unfoldable pub atoi : List ℕ → Option ℤ
unfolding read_digits read_below
atoi [] = none
atoi (c ∷ s) =
    if c == b'-'
    then (do n ← read_below (half_range + 1) s; some (negate n))
    else if c == b'+'
    then (do n ← read_below half_range s; some (pos n))
    else (do n ← read_below half_range (c ∷ s); some (pos n))

-- The URL alphabet: A-Z a-z 0-9 - _.
unfoldable pub char_of : ℕ → ℕ
char_of v =
    if ltb v 26
    then b'A' + v
    else if ltb v 52
    then b'a' + (v - 26)
    else if ltb v 62
    then b'0' + (v - 52)
    else if v == 62
    then b'-'
    else b'_'

unfoldable pub value_of : ℕ → Option ℕ
value_of c =
    if leb b'A' c && leb c b'Z'
    then some (c - b'A')
    else if leb b'a' c && leb c b'z'
    then some (c - b'a' + 26)
    else if is_digit c
    then some (c - b'0' + 52)
    else if c == b'-'
    then some 62
    else if c == b'_'
    then some 63
    else none

unfoldable pub encode64 : List ℕ → List ℕ
encode64 [] = []
encode64 (a ∷ []) = char_of (a / 4) ∷ char_of (a % 4 * 16) ∷ []
encode64 (a ∷ b ∷ []) = char_of (a / 4) ∷ char_of (a % 4 * 16 + b / 16) ∷ char_of (b % 16 * 4) ∷ []
encode64 (a ∷ b ∷ c ∷ s) =
    char_of (a / 4)
    ∷ char_of (a % 4 * 16 + b / 16)
    ∷ char_of (b % 16 * 4 + c / 64)
    ∷ char_of (c % 64)
    ∷ encode64 s

skip_breaks : List ℕ → List ℕ
skip_breaks [] = []
skip_breaks (c ∷ s) = let rest = skip_breaks s in if c == 10 || c == 13 then rest else c ∷ rest

-- Two, three or four characters' values give one, two or three bytes.
abbrev pub bytes_of_2 : Option ℕ → Option ℕ → Option (List ℕ)
bytes_of_2 x y = do p ← x; q ← y; some ((p * 4 + q / 16) ∷ [])

abbrev pub bytes_of_3 : Option ℕ → Option ℕ → Option ℕ → Option (List ℕ)
bytes_of_3 x y z = do p ← x; q ← y; r ← z; some ((p * 4 + q / 16) ∷ (q % 16 * 16 + r / 4) ∷ [])

abbrev pub bytes_of_4 :
    Option ℕ → Option ℕ → Option ℕ → Option ℕ → Option (List ℕ) → Option (List ℕ)
bytes_of_4 x y z w more = do
  p ← x
  q ← y
  r ← z
  t ← w
  rest ← more
  some ((p * 4 + q / 16) ∷ (q % 16 * 16 + r / 4) ∷ (r % 4 * 64 + t) ∷ rest)

decode_quads : List ℕ → Option (List ℕ)
decode_quads [] = some []
decode_quads (x ∷ []) = none
decode_quads (x ∷ y ∷ []) = bytes_of_2 (value_of x) (value_of y)
decode_quads (x ∷ y ∷ z ∷ []) = bytes_of_3 (value_of x) (value_of y) (value_of z)
decode_quads (x ∷ y ∷ z ∷ w ∷ s) =
    bytes_of_4 (value_of x) (value_of y) (value_of z) (value_of w) (decode_quads s)

unfoldable pub decode64 : List ℕ → Option (List ℕ)
unfolding skip_breaks decode_quads
decode64 s = decode_quads (skip_breaks s)
