-- ===== src/Server/Listen/Stream.antt =====
-- The loop of `Listen` (internal/server/listen.go): one step for each case of its select. The map
-- of targets is a list, whose order stands for the order in which a range visits the map.
pub mod Current
pub mod Turns
pub mod Live
pub mod Recover
use embyr.Base.{
  ℕ, String, Bool, true, false, List, [], ◌∷◌, ◌++◌, map, Option, none, some, any, get_or,
  if◌then◌else◌,
}
use embyr.Base.Int.{ℤ, pos, eqb_ℤ}
use embyr.Base.Result.{Code, invalid_argument, Result, ok, err}
use embyr.Proto.{Float64, Protobuf, StructuredQuery}
use embyr.Store.{Document, Query, DocChange}
use embyr.Codec.Query.{query_from_structured_query}
use embyr.Sqlite.Table.{Row}
use embyr.Sqlite.Adapter.{Adapter}
use embyr.Sqlite.Paging.{Statement}
use embyr.Listen.Registry.{Subscription, received, check_overflowed}
use embyr.Server.Listen.Messages.{
  TargetInfo, no_change, remove, reset, target_change, done, closed, failed, Sent, follow,
}
use embyr.Server.Listen.Snapshot.{deliver_snapshot}
use embyr.Server.Listen.Changes.{fan_out}

-- `Target.TargetType`: a query has a parent and perhaps a structured query.
pub data TargetType : Type 0 where
  no_type : TargetType
  documents : List String → TargetType
  query : String → Option StructuredQuery → TargetType

-- `ListenRequest.TargetChange`
pub data ListenRequest : Type 0 where
  no_target : ListenRequest
  add_target : ℤ → TargetType → ListenRequest
  remove_target : ℤ → ListenRequest

-- What the stream holds: its targets and its subscription.
pub record Stream : Type 0 where
  pub targets : List TargetInfo
  pub subscription : Subscription

unfoldable pub has_target : ℤ → List TargetInfo → Bool
has_target id targets = any (λ (ti : TargetInfo). eqb_ℤ ti.target_id id) targets

unfoldable pub delete_target : ℤ → List TargetInfo → List TargetInfo
delete_target id [] = []
delete_target id (ti ∷ targets) =
    let rest = delete_target id targets in if eqb_ℤ ti.target_id id then rest else ti ∷ rest

unfoldable pub put_target : TargetInfo → List TargetInfo → List TargetInfo
unfolding delete_target
put_target ti targets = ti ∷ delete_target ti.target_id targets

-- The query of a target that has a collection to read from.
unfoldable pub query_target : ℤ → String → List String → Result Query → Result TargetInfo
query_target id parent from (err e) = err e
query_target id parent from (ok q) = ok (record {
  parent = parent;
  collection_id = get_or from 0 "";
  target_id = id;
  query = some q;
  doc_paths = [];
})

-- The guard on the collections of a structured query.
unfoldable pub structured_target :
    Protobuf → ℤ → String → StructuredQuery → List String → Result TargetInfo
unfolding query_target query_from_structured_query
structured_target pb id parent sq [] = err invalid_argument
structured_target pb id parent sq (c ∷ cs) =
    query_target id parent (c ∷ cs) (query_from_structured_query pb parent sq (pos 300) [])

unfoldable pub target_info : Protobuf → ℤ → TargetType → Result TargetInfo
unfolding structured_target
target_info pb id no_type = err invalid_argument
target_info pb id (documents paths) =
    ok (record { parent = ""; collection_id = ""; target_id = id; query = none; doc_paths = paths })
target_info pb id (query parent none) = err invalid_argument
target_info pb id (query parent (some sq)) = structured_target pb id parent sq sq.from

-- The case that the select takes. A broken stream has the error of its receive or its context.
pub data Event : Type 0 where
  request : ListenRequest → Event
  change : Event
  tick : Event
  end_of_stream : Event
  broken : Code → Event

-- A target that is added again is removed first.
unfoldable pub announce_removal : ℤ → List TargetInfo → Sent
unfolding has_target
announce_removal id targets =
    if has_target id targets then (target_change remove (id ∷ []) false ∷ [], done) else ([], done)

unfoldable pub send_reset : List TargetInfo → Sent
send_reset targets =
    (target_change reset (map (λ (ti : TargetInfo). ti.target_id) targets) false ∷ [], done)

module _ (select : Statement → List Row → List Document) (f : Float64) (pb : Protobuf)
    (fuel : ℕ) where
  -- The new target is entered before its snapshot.
  unfoldable pub enter : Adapter → Result TargetInfo → Stream → Sent × Stream
  unfolding deliver_snapshot put_target
  enter a (err e) s = (([], failed e), s)
  enter a (ok ti) s =
      (deliver_snapshot select pb fuel a ti, record s { targets = put_target ti s.targets })

  unfoldable pub handle_request : Adapter → ListenRequest → Stream → Sent × Stream
  unfolding announce_removal delete_target target_info enter follow
  handle_request a no_target s = (([], done), s)
  handle_request a (remove_target id) s = (
    (target_change remove (id ∷ []) false ∷ [], done),
    record s { targets = delete_target id s.targets },
  )
  handle_request a (add_target id tt') s =
      let (sent, s') =
        enter a (target_info pb id tt') (record s { targets = delete_target id s.targets }) in
      (follow (announce_removal id s.targets) sent, s')

  unfoldable pub snapshots : Adapter → List TargetInfo → Sent
  unfolding deliver_snapshot follow
  snapshots a [] = ([], done)
  snapshots a (ti ∷ targets) = follow (deliver_snapshot select pb fuel a ti) (snapshots a targets)

  -- RESET, and every target's snapshot again.
  unfoldable pub resnapshot : Adapter → List TargetInfo → Sent
  unfolding send_reset snapshots follow
  resnapshot a targets = follow (send_reset targets) (snapshots a targets)

  -- A change that was received: after an overflow it only leads to new snapshots.
  unfoldable pub take_change : Adapter → DocChange → Subscription → Stream → Sent × Stream
  unfolding check_overflowed resnapshot fan_out
  take_change a c subscription s =
      let (overflowed, sub) = check_overflowed subscription in
      let s' : Stream = record s { subscription = sub } in
      if overflowed then (resnapshot a s.targets, s') else (fan_out f pb a c s.targets, s')

  -- One turn of the loop. The case of a change is taken only when one waits.
  unfoldable pub step : Adapter → Event → Stream → Sent × Stream
  unfolding handle_request received take_change
  step a (request req) s = handle_request a req s
  step a change s = elim (received s.subscription) [
    | none ↦ (([], done), s)
    | some (c, sub) ↦ take_change a c sub s
  ]
  step a tick s = ((target_change no_change [] false ∷ [], done), s)
  step a end_of_stream s = (([], closed), s)
  step a (broken e) s = (([], failed e), s)
