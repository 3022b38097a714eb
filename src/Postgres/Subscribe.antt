-- ===== src/Postgres/Subscribe.antt =====
-- `Subscribe` of internal/store/postgres/postgres.go: the goroutine that listens for notifications
-- on a connection of its own, and connects again when it loses it. Its turns are events; the
-- channel blocks when it is full, so that what is sent on it is what the reader receives.
pub mod Laws
use embyr.Base.{
  ℕ, ◌*◌, ◌+◌, ltb, String, List, [], ◌∷◌, ◌++◌, Option, none, some, if◌then◌else◌, str_eq,
}
use embyr.Store.{DocChange, DocChangeKind, upserted, deleted}

-- The fields of a notification's JSON text.
pub record Payload : Type 0 where
  pub path : String
  pub collection : String
  pub parent : String
  pub kind : String
  pub version : ℕ
  pub content : String

-- Before a connection, before LISTEN on it, waiting for notifications, and after the end.
pub data Phase : Type 0 where
  connecting connected listening closed : Phase

-- `backoff` is in seconds, and so are the `waits` before each further attempt to connect, the
-- oldest first.
pub record Subscriber : Type 0 where
  pub phase : Phase
  pub backoff : ℕ
  pub waits : List ℕ
  pub received : List DocChange

-- What the calls of the driver answer; `none` is a payload that is not JSON.
pub data Event : Type 0 where
  connect_error connect_success listen_error listen_success : Event
  notification : Option Payload → Event
  notification_error cancellation : Event

unfoldable pub subscribe : Subscriber
subscribe = record { phase = connecting; backoff = 1; waits = []; received = [] }

unfoldable pub kind_of : String → DocChangeKind
kind_of kind = if str_eq kind "delete" then deleted else upserted

unfoldable pub change_of : Payload → DocChange
unfolding kind_of
change_of p = record {
  path = p.path;
  collection = p.collection;
  parent = p.parent;
  kind = kind_of p.kind;
  version = p.version;
  content = p.content;
}

-- After a wait, the next one is twice as long, unless it was 30 seconds or more.
unfoldable pub next_backoff : ℕ → ℕ
next_backoff backoff = if ltb backoff 30 then backoff * 2 else backoff

unfoldable pub receive : Option Payload → Subscriber → Subscriber
unfolding change_of
receive none s = s
receive (some p) s = record s { received = s.received ++ change_of p ∷ [] }

-- One turn in a phase. An event that the phase does not wait for changes nothing.
unfoldable pub turn : Phase → Event → Subscriber → Subscriber
unfolding next_backoff receive
turn connecting connect_error s = record s {
  backoff = next_backoff s.backoff;
  waits = s.waits ++ s.backoff ∷ [];
}
turn connecting connect_success s = record s { phase = connected; backoff = 1 }
turn connecting cancellation s = record s { phase = closed }
turn connected listen_error s = record s { phase = connecting }
turn connected listen_success s = record s { phase = listening }
turn connected cancellation s = record s { phase = closed }
turn listening (notification p) s = receive p s
turn listening notification_error s = record s { phase = connecting }
turn listening cancellation s = record s { phase = closed }
turn _ _ s = s

unfoldable pub run : List Event → Subscriber → Subscriber
unfolding turn
run [] s = s
run (e ∷ es) s = run es (turn s.phase e s)
