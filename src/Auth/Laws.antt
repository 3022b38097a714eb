-- ===== src/Auth/Laws.antt =====
-- Which calls the interceptors let through.
use Prim.Native.String.{◌++◌ as str_append}
use embyr.Base.{ℕ, suc, String, true, List, ◌∷◌, Option, none, some, ◌≡◌, ◌⊎◌}
use embyr.Base.Result.{Result, ok}
use embyr.Text.{space}
use embyr.Auth.{
  Context, TokenInfo, google_token_info, is_for, equal_fold, Google, Mode, key, no_auth, google,
  mtls,
}

-- The first value of the header is the token behind `Bearer `, in upper or lower case.
abbrev pub Bears : String → Option (List String) → Type 0
Bears token metadata =
    (scheme : String) × (vs : List String) × (metadata
      ≡ some (str_append scheme (String.◌∷◌ space token) ∷ vs))
    × (equal_fold scheme "bearer" ≡ true)

-- Google vouches for a token by its two answers: it is an ID token of the project, or it is refused
-- as an ID token and taken as an access token.
abbrev pub Vouched : String → Result (Option TokenInfo) → Result (Option TokenInfo) → Type 0
Vouched project as_id as_access =
    ((info : TokenInfo) × (as_id ≡ ok (some info)) × (is_for project info ≡ true))
    ⊎ ((as_id ≡ ok none) × ((info : TokenInfo) × (as_access ≡ ok (some info))))

-- The calls that a mode admits.
abbrev pub Admits : Google → Mode → Context → Type 0
Admits g no_auth ctx = Unit
Admits g (key k) ctx = Bears k ctx.metadata
Admits g (google project) ctx =
    (token : String) × Bears token ctx.metadata
    × Vouched project (google_token_info (g "id_token" token))
        (google_token_info (g "access_token" token))
Admits g mtls ctx = (n : ℕ) × (ctx.peer ≡ some (some (suc n)))
