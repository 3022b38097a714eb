-- ===== src/Auth.antt =====
-- The interceptors of internal/auth/interceptor.go. The context of a call is what the program reads
-- of it; the handler is a function of any result. The answers of Google's tokeninfo endpoint and
-- the files of certificates are parameters; the errors of `New` have no gRPC code.
pub mod Laws
use Prim.Native.Char.{Char, code}
use embyr.Base.{
  ℕ, ◌+◌, String, Bool, true, false, ◌&&◌, ◌||◌, List, [], ◌∷◌, Option, none, some, leb, ◌==◌,
  str_eq, if◌then◌else◌,
}
use embyr.Base.Result.{Code, unauthenticated, internal, unknown, Result, ok, err}
use embyr.Text.{space}
use embyr.Config.{Config}

-- The metadata, with the values of `authorization`, and the peer: whether it is known, and for a
-- TLS connection the number of its verified chains.
pub record Context : Type 0 where
  pub metadata : Option (List String)
  pub peer : Option (Option ℕ)

-- `strings.SplitN(s, " ", 2)`, cut at the first space; `none` where there is no space.
unfoldable pub cut_space : String → Option (String × String)
cut_space String.[] = none
cut_space (String.◌∷◌ c s) =
    let rest = cut_space s in
    if code c == code space
    then some (String.[], s)
    else elim rest [ none ↦ none | some (left, right) ↦ some (String.◌∷◌ c left, right) ]

-- A letter in lower case. Of the letters of "bearer" none folds to a letter outside ASCII.
unfoldable pub fold : ℕ → ℕ
fold c = if leb b'A' c && leb c b'Z' then c + 32 else c

-- `strings.EqualFold`, against a text in lower case.
unfoldable pub equal_fold : String → String → Bool
unfolding fold
equal_fold String.[] String.[] = true
equal_fold String.[] (String.◌∷◌ d t) = false
equal_fold (String.◌∷◌ c s) String.[] = false
equal_fold (String.◌∷◌ c s) (String.◌∷◌ d t) =
    let rest = equal_fold s t in if fold (code c) == code d then rest else false

-- The token of a header value.
unfoldable pub token_of : Option (String × String) → Result String
unfolding equal_fold
token_of none = err unauthenticated
token_of (some (scheme, token)) =
    if equal_fold scheme "bearer" then ok token else err unauthenticated

unfoldable pub bearer_token : Option (List String) → Result String
unfolding cut_space token_of
bearer_token none = err unauthenticated
bearer_token (some []) = err unauthenticated
bearer_token (some (v ∷ vs)) = token_of (cut_space v)

unfoldable pub check_key : String → Result String → Result (Unit {0})
check_key key (err e) = err e
check_key key (ok token) = if str_eq token key then ok tt else err unauthenticated

unfoldable pub validate_key : String → Context → Result (Unit {0})
unfolding bearer_token check_key
validate_key key ctx = check_key key (bearer_token ctx.metadata)

-- `tokenInfo`
pub record TokenInfo : Type 0 where
  pub audience : String
  pub aud : String
  pub azp : String

-- What a request to the endpoint comes to: no response, a body that cannot be read, or a status
-- and what the body parses to.
pub data Answer : Type 0 where
  no_response unread : Answer
  response : ℕ → Option TokenInfo → Answer

-- The endpoint: the answer to a parameter and a token.
abbrev pub Google : Type 0
Google = String → String → Answer

-- `googleTokenInfo`: an error, `none` for a refusal, or the token's info.
unfoldable pub google_token_info : Answer → Result (Option TokenInfo)
google_token_info no_response = err unauthenticated
google_token_info unread = err internal
google_token_info (response status none) = if status == 200 then err internal else ok none
google_token_info (response status (some info)) = if status == 200 then ok (some info) else ok none

unfoldable pub is_for : String → TokenInfo → Bool
is_for project info =
    str_eq info.audience project || str_eq info.azp project || str_eq info.aud project

-- The second attempt, as an access token.
unfoldable pub check_access : Result (Option TokenInfo) → Result (Unit {0})
check_access (err e) = err e
check_access (ok none) = err unauthenticated
check_access (ok (some info)) = ok tt

-- The first attempt, as an ID token, in front of the second.
unfoldable pub check_id :
    String → Result (Option TokenInfo) → Result (Option TokenInfo) → Result (Unit {0})
unfolding is_for check_access
check_id project (err e) access = err e
check_id project (ok none) access = check_access access
check_id project (ok (some info)) access =
    if is_for project info then ok tt else err unauthenticated

unfoldable pub check_google : Google → String → Result String → Result (Unit {0})
unfolding google_token_info check_id
check_google google project (err e) = err e
check_google google project (ok token) =
    check_id project (google_token_info (google "id_token" token))
      (google_token_info (google "access_token" token))

unfoldable pub validate_google_token : Google → String → Context → Result (Unit {0})
unfolding bearer_token check_google
validate_google_token google project ctx = check_google google project (bearer_token ctx.metadata)

unfoldable pub check_peer : Option (Option ℕ) → Result (Unit {0})
check_peer none = err unauthenticated
check_peer (some none) = err unauthenticated
check_peer (some (some chains)) = if chains == 0 then err unauthenticated else ok tt

unfoldable pub validate_mtls : Context → Result (Unit {0})
unfolding check_peer
validate_mtls ctx = check_peer ctx.peer

-- The mode of the interceptors that `New` builds.
pub data Mode : Type 0 where
  no_auth mtls : Mode
  key google : String → Mode

-- `buildMTLSCreds`, for what the files hold: `load` says whether the certificates load.
unfoldable pub mtls_mode : (Config → Bool) → Config → Result Mode
mtls_mode load cfg =
    if str_eq cfg.auth.mtls_ca_cert ""
    then err unknown
    else if str_eq cfg.server.tls_cert "" || str_eq cfg.server.tls_key ""
    then err unknown
    else if load cfg
    then ok mtls
    else err unknown

-- `New`
unfoldable pub new : (Config → Bool) → Config → Result Mode
unfolding mtls_mode
new load cfg =
    if str_eq cfg.auth.mode "none" || str_eq cfg.auth.mode ""
    then ok no_auth
    else if str_eq cfg.auth.mode "key"
    then (if str_eq cfg.auth.key "" then err unknown else ok (key cfg.auth.key))
    else if str_eq cfg.auth.mode "google"
    then (if str_eq cfg.auth.google_project_id ""
        then err unknown
        else ok (google cfg.auth.google_project_id))
    else if str_eq cfg.auth.mode "mtls"
    then mtls_mode load cfg
    else err unknown

unfoldable pub authorize : Google → Mode → Context → Result (Unit {0})
unfolding validate_key validate_google_token validate_mtls
authorize g no_auth ctx = ok tt
authorize g (key k) ctx = validate_key k ctx
authorize g (google project) ctx = validate_google_token g project ctx
authorize g mtls ctx = validate_mtls ctx

-- An interceptor of either kind: the handler is called where the check passes.
unfoldable pub guarded : {A : Type 0} → Result (Unit {0}) → Result A → Result A
guarded (err e) handled = err e
guarded (ok _) handled = handled

unfoldable pub intercept : {A : Type 0} → Google → Mode → Context → Result A → Result A
unfolding authorize guarded
intercept g mode ctx handled = guarded (authorize g mode ctx) handled
