-- ===== src/Webchannel/Session.antt =====
-- `MsgLog`, `SeenRID` and the gRPC-Web frames of internal/webchannel/session.go. Bytes are numbers.
pub mod Laws
use embyr.Base.{
  ℕ, zero, suc, ◌+◌, ◌-◌, ◌*◌, ◌/◌, ◌%◌, ◌^◌, String, Bool, true, false, List, [], ◌∷◌, ◌++◌,
  Option, none, some, ltb, length, take, drop, any, str_eq, if◌then◌else◌,
}
use embyr.Base.Int.{ℤ, pos, negsuc}

-- `MsgLog`, without the channel that wakes up readers.
pub record MsgLog : Type 0 where
  pub entries : List (List ℕ)

unfoldable pub append : List ℕ → MsgLog → MsgLog
append chunk ml = record { entries = ml.entries ++ chunk ∷ [] }

-- `From`: a negative index is 0.
unfoldable pub from : ℤ → MsgLog → List (List ℕ)
from (pos n) ml = drop n ml.entries
from (negsuc n) ml = ml.entries

abbrev pub rid_window_size : ℕ
rid_window_size = 16

-- The newest requests that the window has room for.
unfoldable pub window : List String → List String
window rids =
    if ltb rid_window_size (length rids) then drop (length rids - rid_window_size) rids else rids

-- `SeenRID` on `seenRIDs`: whether the request was seen, and the window afterwards.
unfoldable pub seen_rid : String → List String → Bool × List String
unfolding window
seen_rid rid seen_rids =
    if any (λ seen. str_eq seen rid) seen_rids
    then (true, seen_rids)
    else (false, window (seen_rids ++ rid ∷ []))

-- The big-endian bytes of a uint32.
unfoldable pub put_uint32 : ℕ → List ℕ
put_uint32 n = n / 16777216 % 256 ∷ n / 65536 % 256 ∷ n / 256 % 256 ∷ n % 256 ∷ []

unfoldable pub uint32 : ℕ → ℕ → ℕ → ℕ → ℕ
uint32 a b c d = a * 16777216 + b * 65536 + c * 256 + d

-- `EncodeGRPCWebFrame`
unfoldable pub encode_grpc_web_frame : List ℕ → List ℕ
unfolding put_uint32
encode_grpc_web_frame proto = 0 ∷ put_uint32 (length proto % 4294967296) ++ proto

-- The payload of a frame, an error, or a panic of the slice whose end wrapped around.
pub data Decoded : Type 0 where
  payload : List ℕ → Decoded
  malformed out_of_range : Decoded

-- `DecodeGRPCWebFrame`. The end of the slice, `5+length`, is a uint32.
unfoldable pub decode_grpc_web_frame : List ℕ → Decoded
unfolding uint32
decode_grpc_web_frame (flag ∷ a ∷ b ∷ c ∷ d ∷ body) =
    let n = uint32 a b c d in
    let slice_end = (5 + n) % 4294967296 in
    if ltb (length body) n
    then malformed
    else if ltb slice_end 5
    then out_of_range
    else payload (take (slice_end - 5) body)
decode_grpc_web_frame _ = malformed
