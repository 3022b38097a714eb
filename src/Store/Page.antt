-- ===== src/Store/Page.antt =====
-- internal/store/page.go: page tokens.
use embyr.Base.{ℕ, ◌<◌, List, [], ◌∷◌, Option, none, some, ◌≡◌, ◌≢◌, refl, ◌∙◌}
use embyr.Base.Int.{ℤ, pos, negsuc, half_range}
use embyr.Store.Token.{itoa, atoi, encode64, decode64}
use embyr.Store.Token.Laws.{
  decode64-encode64, AreBytes-itoa, atoi-itoa, itoa-ne-nil, encode64-ne-nil,
}

unfoldable pub encode_page_token : ℕ → List ℕ
encode_page_token offset = encode64 (itoa offset)

-- The offset in the bytes of a decoded token; 0 for what is no number or is negative.
offset_of : Option ℤ → ℕ
offset_of none = 0
offset_of (some (pos n)) = n
offset_of (some (negsuc n)) = 0

decoded : Option (List ℕ) → ℕ
unfolding offset_of
decoded none = 0
decoded (some bytes) = offset_of (atoi bytes)

unfoldable pub decode_page_token : List ℕ → ℕ
unfolding decoded
decode_page_token [] = 0
decode_page_token (c ∷ token) = decoded (decode64 (c ∷ token))

decode_page_token_lem : (t : List ℕ) → t ≢ [] → decode_page_token t ≡ decoded (decode64 t)
unfolding decode_page_token
decode_page_token_lem [] h = absurd (h refl)
decode_page_token_lem (c ∷ t) h = refl

-- A token is never empty, so a page with a token is never taken for the last one.
pub encode_page_token-ne-nil : (offset : ℕ) → encode_page_token offset ≢ []
unfolding encode_page_token
encode_page_token-ne-nil n e = encode64-ne-nil (itoa n) (itoa-ne-nil n) e

-- Every offset that an int64 can hold comes back from its page token, and the token of a page
-- is never the empty one, which stands for the first page.
pub decode-encode_page_token :
    (offset : ℕ)
    → offset < half_range
    → (decode_page_token (encode_page_token offset) ≡ offset) × (encode_page_token offset ≢ [])
unfolding decoded
decode-encode_page_token n h = (
  decode_page_token_lem (encode_page_token n) (encode_page_token-ne-nil n)
      ∙ unfold encode_page_token in
        rw (decode64-encode64 (itoa n) (AreBytes-itoa n), atoi-itoa n h),
  encode_page_token-ne-nil n,
)
