-- ===== src/Webchannel/Session/Laws.antt =====
-- Frames come back, retries are recognised, and a reader that goes on misses nothing.
use embyr.Base.{
  ℕ, ◌+◌, ◌-◌, ◌/◌, ◌%◌, ◌≤◌, ◌<◌, String, Bool, true, List, [], ◌∷◌, ◌++◌, ◌≡◌, ◌∙◌, refl, ap,
  arith, length, length-append, length-drop, take, take-append, drop-append, drop-append_le, any,
  str_eq, eq_refl, ltb, Bool-cases, inl, inr,
}
use embyr.Base.Int.{pos}
use embyr.Webchannel.Session.{
  MsgLog, append, from, rid_window_size, window, seen_rid, put_uint32, uint32,
  encode_grpc_web_frame, decode_grpc_web_frame, payload,
}

uint32-put_uint32 :
    (n : ℕ)
    → n < 4294967296
    → uint32 (n / 16777216 % 256) (n / 65536 % 256) (n / 256 % 256) (n % 256) ≡ n
unfolding uint32
uint32-put_uint32 n h = omega arith

small : (n : ℕ) → n < 4294967296 → n % 4294967296 ≡ n
small n h = omega arith

-- The header of a frame announces the length `n` of its body.
decode-header :
    (n : ℕ) (body : List ℕ)
    → n + 5 < 4294967296
    → n ≤ length body
    → decode_grpc_web_frame (0 ∷ put_uint32 n ++ body) ≡ payload (take n body)
unfolding decode_grpc_web_frame put_uint32
decode-header n body h k =
    rw (uint32-put_uint32 n (omega arith), small (5 + n) (omega arith)) (ground arith)

-- A message whose frame is shorter than 2^32 bytes comes back from its frame, also when other bytes follow it.
pub decode-encode_grpc_web_frame :
    (proto rest : List ℕ)
    → length proto + 5 < 4294967296
    → decode_grpc_web_frame (encode_grpc_web_frame proto ++ rest) ≡ payload proto
unfolding encode_grpc_web_frame put_uint32
decode-encode_grpc_web_frame proto rest h = rw (small (length proto) (omega arith)) (
    decode-header (length proto) (proto ++ rest) h (omega (arith, length-append proto rest))
    ∙ ap (λ l. payload l) (take-append proto rest (length proto) refl))

any-append :
    {A : Type 0} (p : A → Bool) (xs : List A) (y : A) → p y ≡ true → any p (xs ++ y ∷ []) ≡ true
any-append p [] y h = rw h refl
any-append p (x ∷ xs) y h = ground (arith, any-append p xs y h)

-- The window keeps the request that came last, and no more than its places.
any-window :
    (rid : String) (rids : List String)
    → length rids ≤ rid_window_size
    → any (λ seen. str_eq seen rid) (window (rids ++ rid ∷ [])) ≡ true
unfolding window
any-window rid rids h = elim (Bool-cases (ltb rid_window_size (length (rids ++ rid ∷ [])))) [
  | inl full ↦
      rw
        (
          full,
          drop-append_le (length (rids ++ rid ∷ []) - rid_window_size) rids (rid ∷ [])
              (omega (arith, length-append rids (rid ∷ []))),
        )
        (any-append (λ seen. str_eq seen rid) _ rid (eq_refl rid))
  | inr room ↦ rw room (any-append (λ seen. str_eq seen rid) rids rid (eq_refl rid))
]

length-window : (rids : List String) → length (window rids) ≤ rid_window_size
unfolding window
length-window rids = ground (arith, length-drop (length rids - rid_window_size) rids)

-- A request that was just answered is recognised, and the window never grows above its 16 places.
pub seen_rid_lem :
    (rid : String) (seen_rids : List String)
    → length seen_rids ≤ rid_window_size
    → ((seen_rid rid (seen_rid rid seen_rids).1).0 ≡ true)
      × (length (seen_rid rid seen_rids).1 ≤ rid_window_size)
unfolding seen_rid
seen_rid_lem rid seen_rids h = elim (Bool-cases (any (λ seen. str_eq seen rid) seen_rids)) [
  | inl old ↦ (rw (old, seen_rid, old) refl, rw old h)
  | inr new ↦
      (rw (new, any-window rid seen_rids h) refl, rw new (length-window (seen_rids ++ rid ∷ [])))
]

-- A reader that has read from an index up to the end and reads on from there after another
-- message gets that message and nothing else.
from-append :
    (ml : MsgLog) (n : ℕ) (chunk : List ℕ)
    → n ≤ length ml.entries
    → (from (pos n) (append chunk ml) ≡ from (pos n) ml ++ chunk ∷ [])
      × (from (pos (n + length (from (pos n) ml))) (append chunk ml) ≡ chunk ∷ [])
unfolding from append
from-append ml n chunk h = (
  drop-append_le n ml.entries (chunk ∷ []) h,
  drop-append ml.entries (chunk ∷ []) _ (omega (arith, length-drop n ml.entries)),
)
