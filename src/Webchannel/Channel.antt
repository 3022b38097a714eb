-- ===== src/Webchannel/Channel.antt =====
-- The sessions of internal/webchannel/session.go and the handlers of internal/webchannel/handler.go,
-- for the Listen and the Write channel: forward posts, the pump of responses into the log, and the
-- back channel, which is resumed from the log. `R` is the type of the requests that a channel's
-- bridge carries, and `unmarshal` is protojson. The context of a post may end while its requests
-- are sent to the bridge; the contexts of bridges and back channels, and headers, are left out. Sequence numbers stay below 2^63.
pub mod Laws
pub mod Retry
use embyr.Base.{
  take, ltb, ℕ, zero, suc, ◌+◌, ◌-◌, String, Bool, true, false, List, [], ◌∷◌, ◌++◌, Option, none,
  some, leb, length, str_eq, if◌then◌else◌,
}
use embyr.Base.Int.{ℤ, pos, negsuc, sub_ℕ}
use embyr.Store.Token.{itoa, atoi}
use embyr.Webchannel.Session.{MsgLog, append, from, seen_rid}

pub data Channel : Type 0 where
  listen write : Channel

-- `Session`. A bridge is the list of the requests that were sent to it.
pub record Session (R : Type 0) : Type 0 where
  pub id : String
  pub seq : ℕ
  pub listen_log : MsgLog
  pub write_log : MsgLog
  pub listen_bridge : Option (List R)
  pub write_bridge : Option (List R)
  pub seen_rids : List String

-- `<length>\n<json>`
unfoldable pub frame : List ℕ → List ℕ
unfolding itoa
frame json = itoa (length json) ++ 10 ∷ json

-- `[[seq,[data]]]`
unfoldable pub message : ℕ → List ℕ → List ℕ
unfolding itoa
message seq data_ = b'[' ∷ b'[' ∷ itoa seq ++ b',' ∷ b'[' ∷ data_ ++ b']' ∷ b']' ∷ b']' ∷ []

abbrev pub noop : List ℕ
noop = b'"' ∷ b'n' ∷ b'o' ∷ b'o' ∷ b'p' ∷ b'"' ∷ []

-- The form of a post: the keys of its body, and the value of `req<i>___data__`.
pub record Form : Type 0 where
  pub post_keys : List String
  pub value : ℕ → String

-- `strings.HasSuffix`
unfoldable pub has_suffix : String → String → Bool
has_suffix String.[] suffix = str_eq String.[] suffix
has_suffix (String.◌∷◌ c s) suffix =
    let rest = has_suffix s suffix in if str_eq (String.◌∷◌ c s) suffix then true else rest

unfoldable pub count_data : List String → ℕ
unfolding has_suffix
count_data [] = 0
count_data (k ∷ keys) =
    let rest = count_data keys in if has_suffix k "___data__" then suc rest else rest

module _ {R : Type 0} where
  unfoldable pub log_of : Channel → Session R → MsgLog
  log_of listen s = s.listen_log
  log_of write s = s.write_log

  unfoldable pub with_log : Channel → MsgLog → Session R → Session R
  with_log listen log s = record s { listen_log = log }
  with_log write log s = record s { write_log = log }

  unfoldable pub bridge_of : Channel → Session R → Option (List R)
  bridge_of listen s = s.listen_bridge
  bridge_of write s = s.write_bridge

  unfoldable pub with_bridge : Channel → List R → Session R → Session R
  with_bridge listen reqs s = record s { listen_bridge = some reqs }
  with_bridge write reqs s = record s { write_bridge = some reqs }

  -- `NewSession`
  unfoldable pub new_session : String → Session R
  new_session id = record {
    id = id;
    seq = 0;
    listen_log = record { entries = [] };
    write_log = record { entries = [] };
    listen_bridge = none;
    write_bridge = none;
    seen_rids = [];
  }

  -- `FormatConnectChunk`, for what it does to the session: its chunk has the numbers 0 and 1.
  unfoldable pub connect : Session R → Session R
  connect s = record s { seq = 2 }

  -- `FormatDataChunk`
  unfoldable pub format_data_chunk : List ℕ → Session R → List ℕ × Session R
  unfolding frame message
  format_data_chunk data_ s = (frame (message s.seq data_), record s { seq = s.seq + 1 })

  -- `FormatNoopChunk` of `NextNoopSeq`
  unfoldable pub noop_chunk : Session R → List ℕ × Session R
  unfolding frame message
  noop_chunk s = (frame (message s.seq noop), record s { seq = s.seq + 1 })

  -- The pump: a response, as JSON, becomes a chunk of the log.
  unfoldable pub pump : Channel → List ℕ → Session R → Session R
  unfolding format_data_chunk append log_of with_log
  pump ch data_ s =
      let (chunk, s') = format_data_chunk data_ s in with_log ch (append chunk (log_of ch s')) s'

  -- The sessions by their identifiers.
  unfoldable pub get : String → List (Session R) → Option (Session R)
  get id [] = none
  get id (s ∷ sessions) = if str_eq s.id id then some s else get id sessions

  unfoldable pub put : Session R → List (Session R) → List (Session R)
  put new [] = []
  put new (s ∷ sessions) =
      let rest = put new sessions in if str_eq s.id new.id then new ∷ rest else s ∷ rest

  -- A request that is a text and decodes.
  unfoldable pub add_request : Option R → List R → List R
  add_request none reqs = reqs
  add_request (some r) reqs = r ∷ reqs

module _ {R : Type 0} (unmarshal : Channel → String → Option R) where
  -- The values from number `i` on.
  unfoldable pub read_values : Channel → Form → ℕ → ℕ → List R
  unfolding add_request
  read_values ch form zero i = []
  read_values ch form (suc n) i =
      let rest = read_values ch form n (suc i) in
      if str_eq (form.value i) "" then rest else add_request (unmarshal ch (form.value i)) rest

  -- `parseForwardBody` and `parseWriteForwardBody`; a body that does not parse has no requests.
  unfoldable pub parse_forward_body : Channel → Option Form → List R
  unfolding count_data read_values
  parse_forward_body ch none = []
  parse_forward_body ch (some form) = read_values ch form (count_data form.post_keys) 0

-- The answer to a post: an error, the chunk that connects, the status with its last number, or
-- none where the context of the post ended.
pub data Reply : Type 0 where
  bad_request : Reply
  connected : String → Reply
  acknowledged : ℤ → Reply
  no_reply : Reply

-- `formatForwardPostStatus`
unfoldable pub post_status : {R : Type 0} → Session R → Reply
post_status s = acknowledged (sub_ℕ s.seq 1)

-- The requests that the bridge takes, and whether the context of the post ended before it took all:
-- it ends after `some n` sends, or not at all.
unfoldable pub sends : {R : Type 0} → Option ℕ → List R → List R × Bool
sends none reqs = (reqs, false)
sends (some n) reqs = (take n reqs, ltb n (length reqs))

module _ {R : Type 0} (unmarshal : Channel → String → Option R) where
  -- A post to a session: a repeated one is answered, but its requests are not sent again.
  unfoldable pub post :
      Channel
      → String
      → Option Form
      → Option ℕ
      → Session R
      → List R
      → List (Session R)
      → Reply × List (Session R)
  unfolding seen_rid parse_forward_body with_bridge put post_status sends
  post ch rid form ends s reqs sessions =
      let (seen, rids) = seen_rid rid s.seen_rids in
      let s' : Session R = record s { seen_rids = rids } in
      if seen
      then (post_status s', put s' sessions)
      else let (got, cut) = sends ends (parse_forward_body unmarshal ch form) in
        let s'' = with_bridge ch (reqs ++ got) s' in
        (if cut then no_reply else post_status s'', put s'' sessions)

  unfoldable pub post_to :
      Channel
      → String
      → Option Form
      → Option ℕ
      → Option (Session R)
      → List (Session R)
      → Reply × List (Session R)
  unfolding bridge_of post
  post_to ch rid form ends none sessions = (bad_request, sessions)
  post_to ch rid form ends (some s) sessions = elim (bridge_of ch s) [
    | none ↦ (bad_request, sessions)
    | some reqs ↦ post ch rid form ends s reqs sessions
  ]

  -- `handleForward`: without a session but with a request number, a new session `id` is made.
  unfoldable pub handle_forward :
      Channel
      → String
      → String
      → String
      → Option Form
      → Option ℕ
      → List (Session R)
      → Reply × List (Session R)
  unfolding new_session connect with_bridge parse_forward_body get post_to sends
  handle_forward ch id sid rid form ends sessions =
      let (got, cut) = sends ends (parse_forward_body unmarshal ch form) in
      let s = with_bridge ch got (new_session id) in
      if str_eq sid ""
      then (if str_eq rid ""
          then post_to ch rid form ends (get sid sessions) sessions
          else if cut
          then (no_reply, s ∷ sessions)
          else (connected id, connect s ∷ sessions))
      else post_to ch rid form ends (get sid sessions) sessions

-- Where a back channel resumes the log: `AID` is the number that the client acknowledged.
unfoldable pub log_idx : List ℕ → ℕ
unfolding atoi
log_idx aid = elim (atoi aid) [
  | some (pos n) ↦ if leb 2 n then n - 1 else 0
  | some (negsuc n) ↦ 0
  | none ↦ 0
]

-- One turn of `handleBack`: the chunks from the index on are written, and the index moves on.
unfoldable pub drain : {R : Type 0} → Channel → ℕ → Session R → List (List ℕ) × ℕ
unfolding from log_of
drain ch idx s = let chunks = from (pos idx) (log_of ch s) in (chunks, idx + length chunks)

-- The session of a back channel and the index it starts from; `none` is a bad request.
unfoldable pub open_back :
    {R : Type 0} → Channel → String → List ℕ → List (Session R) → Option (Session R × ℕ)
unfolding get bridge_of log_idx
open_back ch sid aid sessions = elim (get sid sessions) [
  | none ↦ none
  | some s ↦ elim (bridge_of ch s) [ none ↦ none | some reqs ↦ some (s, log_idx aid) ]
]
