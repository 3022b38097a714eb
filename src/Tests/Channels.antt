-- ===== src/Tests/Channels.antt =====
-- WebChannel sessions, credentials and configurations at concrete inputs.
use embyr.Base.{
  ◌⊎◌, ℕ, String, List, [], ◌∷◌, ◌++◌, ◌≤◌, subst, Option, none, some, ◌≡◌, ◌↔◌, refl, arith,
  length,
}
use embyr.Base.Int.{pos}
use embyr.Base.Result.{ok}
use embyr.Store.Token.{itoa}
use embyr.Webchannel.Channel.{
  Channel, listen, Session, Form, frame, message, noop, noop_chunk, pump, log_of, log_idx, drain,
  get, handle_forward, no_reply,
}
use embyr.Webchannel.Channel.Laws.{numbered, pumped, IsNew, drain_exact, drain-noop_chunk}
use embyr.Webchannel.Channel.Retry.{handle_forward-twice}
use embyr.Config.{Config, validate}
use embyr.Config.Laws.{IsValid, validate_iff}
use embyr.Auth.{response, Context, Google, key}

-- A session whose requests are texts, with a bridge of the Listen channel.
abbrev session : Session String
session = record {
  id = "s1";
  seq = 2;
  listen_log = record { entries = [] };
  write_log = record { entries = [] };
  listen_bridge = some [];
  write_bridge = none;
  seen_rids = [];
}

session-IsNew : IsNew listen session
unfolding log_of
session-IsNew = record { empty = refl; first = refl }

abbrev responses : List (List ℕ)
responses = (b'1' ∷ []) ∷ (b'2' ∷ []) ∷ []

drain_exact_example :
    let (chunks, idx) = drain listen (log_idx (itoa 2)) (pumped listen responses session) in
    chunks ++ (drain listen idx (pumped listen (responses ++ (b'3' ∷ []) ∷ []) session)).0
    ≡ numbered 3 ((b'2' ∷ []) ∷ (b'3' ∷ []) ∷ [])
drain_exact_example =
    drain_exact listen session 2 responses ((b'3' ∷ []) ∷ []) session-IsNew (omega arith)
      (omega arith)

drain-noop_chunk_example :
    let (chunk, quiet) = noop_chunk (pumped listen responses session) in
    (chunk ≡ frame (message 4 noop))
    × ((log_of listen (pump listen (b'3' ∷ []) quiet)).entries
        ≡ numbered 2 responses ++ frame (message 5 (b'3' ∷ [])) ∷ [])
    × ((drain listen (log_idx (itoa 4)) (pump listen (b'3' ∷ []) quiet)).0 ≡ [])
drain-noop_chunk_example =
    drain-noop_chunk listen session responses (b'3' ∷ []) session-IsNew (omega arith)

abbrev form : Option Form
form = some (record { post_keys = "req0___data__" ∷ "count" ∷ []; value = λ i. "add" })

abbrev read_text : Channel → String → Option String
read_text ch s = some s

handle_forward-twice_example :
    let first = handle_forward read_text listen "s2" "s1" "7" form none (session ∷ []) in
    let second = handle_forward read_text listen "s2" "s1" "7" form (some 0) first.1 in
    (second.1 ≡ first.1) × ((first.0 ≡ no_reply) ⊎ (second ≡ first))
handle_forward-twice_example =
    handle_forward-twice read_text listen "s2" "s1" "7" form none (some 0) (session ∷ []) refl
      bounded
  where
    bounded : (s : Session String) → get "s1" (session ∷ []) ≡ some s → length s.seen_rids ≤ 16
    bounded s h =
        let k : some session ≡ some s = unfold get in h in
        let e : session ≡ s = cc in subst (λ t. length t.seen_rids ≤ 16) e (omega arith)

abbrev call : Context
call = record { metadata = some ("bEARER abc" ∷ []); peer = none }

abbrev nobody : Google
nobody = λ param token. response 400 none

abbrev defaults : Config
defaults = record {
  server = record {
    grpc_port = pos 8080;
    rest_port = pos 8081;
    tls_cert = "";
    tls_key = "";
    allowed_origins = [];
  };
  auth = record { mode = "none"; key = ""; google_project_id = ""; mtls_ca_cert = "" };
  transactions = record { ttl = pos 60000000000; sweep_interval = pos 30000000000 };
}

validate_iff_example : (validate defaults ≡ ok tt) ↔ IsValid defaults
validate_iff_example = validate_iff defaults
