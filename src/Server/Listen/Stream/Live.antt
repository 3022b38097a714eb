-- ===== src/Server/Listen/Stream/Live.antt =====
-- A client of a Listen stream (internal/server/listen.go) ends up with what is stored: calls of the
-- adapter, whose changes the registry sends to the stream's subscription, between turns of the
-- loop.
use embyr.Base.{ℕ, String, true, false, List, [], ◌∷◌, Option, none, ◌≡◌, refl, any, str_eq}
use embyr.Base.Int.{ℤ, eqb_ℤ_iff}
use embyr.Proto.{ProtoDocument, Float64, Protobuf}
use embyr.Store.{Document}
use embyr.Sqlite.Table.{Row}
use embyr.Sqlite.Adapter.{Adapter}
use embyr.Sqlite.Paging.{Statement}
use embyr.Sqlite.Spec.{Op}
use embyr.Sqlite.Refine.{view, apply}
use embyr.Listen.Registry.Laws.{sent}
use embyr.Server.Listen.Messages.{TargetInfo, done, Sent, follow}
use embyr.Server.Listen.Stream.{
  add_target, documents, Stream, Event, request, step, handle_request, enter, target_info,
  delete_target, announce_removal,
}
use embyr.Server.Listen.Snapshot.Read.{proto_of}
use embyr.Server.Listen.View.{Leads-follow, shown, shown-append, follow-done, follow-append}
use embyr.Server.Listen.Watch.{put_target-Watches}
use embyr.Server.Listen.Snapshot.Own.{deliver_snapshot-own}
use embyr.Server.Listen.Stream.Current.{after_call, Current, call-Current}
use embyr.Server.Listen.Stream.Turns.{IsElsewhere, Turns, event-Turns}

-- A call of the adapter by anyone, or a turn of the loop.
pub data Move : Type 0 where
  call : Op → Move
  event : Event → Move

module _ (select : Statement → List Row → List Document) (f : Float64) (pb : Protobuf)
    (fuel : ℕ) where
  -- What the stream sends in the course of some moves, and what there is after them.
  unfoldable pub live : List Move → Adapter → Stream → Sent × Adapter × Stream
  unfolding apply step follow
  live [] a s = (([], done), a, s)
  live (call op ∷ moves) a s = live moves (apply op a).1 (after_call op a s)
  live (event e ∷ moves) a s =
      let (sent, s') = step select f pb fuel a e s in
      let (rest, a', s'') = live moves a s' in (follow sent rest, a', s'')

  -- No change is dropped on the way.
  abbrev pub IsCalm : List Move → Adapter → Stream → Type 0
  IsCalm [] a s = Unit
  IsCalm (call op ∷ moves) a s =
      ((after_call op a s).subscription.overflowed ≡ false)
      × IsCalm moves (apply op a).1 (after_call op a s)
  IsCalm (event e ∷ moves) a s = IsCalm moves a (step select f pb fuel a e s).1

-- No request is about the target.
abbrev pub AreElsewhere : ℤ → List Move → Type 0
AreElsewhere id [] = Unit
AreElsewhere id (call op ∷ moves) = AreElsewhere id moves
AreElsewhere id (event e ∷ moves) = IsElsewhere id e × AreElsewhere id moves

module _ (select : Statement → List Row → List Document) (f : Float64) (pb : Protobuf) (fuel : ℕ)
    (id : ℤ) (path : String) where
  -- A turn in front of what keeps the invariant.
  turn-Current :
      (first rest : Sent) (a b : Adapter) (s s' : Stream) (v : Option ProtoDocument)
      → Turns select f pb fuel id path a v (first, s)
      → (follow first rest).1 ≡ done
      → ((w : Option ProtoDocument)
          → Current pb id path a s w
          → rest.1 ≡ done
          → Current pb id path b s' (shown id path rest.0 w))
      → Current pb id path b s' (shown id path (follow first rest).0 v)
  turn-Current first rest a b s s' v (w, leads, cur) end_ k =
      let (before, after) = follow-done first rest end_ in
      rw
        (follow-append first rest before, shown-append id path first.0 rest.0 v, leads.shows before)
        (k w cur after)

  -- The invariant after some moves, from what the client then shows.
  live-Current :
      (moves : List Move) (a : Adapter) (s : Stream) (v : Option ProtoDocument)
      → Current pb id path a s v
      → AreElsewhere id moves
      → IsCalm select f pb fuel moves a s
      → (live select f pb fuel moves a s).0.1 ≡ done
      → Current pb id path
          (live select f pb fuel moves a s).1
          (live select f pb fuel moves a s).2
          (shown id path (live select f pb fuel moves a s).0.0 v)
  unfolding live
  live-Current [] a s v cur off calm end_ = cur
  live-Current (call op ∷ moves) a s v cur off (calm, rest) end_ =
      live-Current moves (apply op a).1 (after_call op a s) v
        (call-Current pb id path op a s v cur calm) off rest end_
  live-Current (event e ∷ moves) a s v cur (off, offs) calm end_ =
      turn-Current _ _ a _ (step select f pb fuel a e s).1 _ v
        (event-Turns select f pb fuel id path e a s v off cur) end_
        (λ w next later.
          live-Current moves a (step select f pb fuel a e s).1 w next offs calm later)

  -- Adding the target leads to what is stored.
  add_target-Turns :
      (paths : List String) (a : Adapter) (s : Stream) (v : Option ProtoDocument)
      → any (λ p. str_eq p path) paths ≡ true
      → s.subscription.waiting ≡ []
      → s.subscription.overflowed ≡ false
      → Turns select f pb fuel id path a v
          (step select f pb fuel a (request (add_target id (documents paths))) s)
  add_target-Turns paths a s v listed idle calm =
      unfold step handle_request target_info enter in
      (
        proto_of pb (view a.documents path),
        Leads-follow id path (announce_removal id s.targets) _ (record { shows = λ k. refl })
            (deliver_snapshot-own id path id ((eqb_ℤ_iff id id).1 refl) pb a select fuel ti _ refl
              listed),
        record {
          watched = put_target-Watches path ti (delete_target id s.targets) refl listed;
          calm = calm;
          accounted = rw idle refl;
        },
      )
    where
      ti : TargetInfo
      ti = record {
        parent = "";
        collection_id = "";
        target_id = id;
        query = none;
        doc_paths = paths;
      }

-- The moves of a client that adds a target of documents first.
abbrev pub added : ℤ → List String → List Move → List Move
added id paths moves = event (request (add_target id (documents paths))) ∷ moves

-- A client adds a target of documents, and goes on while others write: once no change waits any
-- more, it shows for each of the target's paths exactly the document that is stored there, or
-- none. The calls and the turns of the loop may come in any order, with requests about other
-- targets among them, as long as each change of a call reaches the registry before the next move,
-- no change is dropped, and the stream does not end.
pub live-shows :
    (select : Statement → List Row → List Document) (f : Float64) (pb : Protobuf) (fuel : ℕ)
    (id : ℤ) (path : String) (paths : List String) (moves : List Move) (a : Adapter) (s : Stream)
    (v : Option ProtoDocument)
    → any (λ p. str_eq p path) paths ≡ true
    → s.subscription.waiting ≡ []
    → s.subscription.overflowed ≡ false
    → AreElsewhere id moves
    → IsCalm select f pb fuel (added id paths moves) a s
    → (live select f pb fuel (added id paths moves) a s).0.1 ≡ done
    → (live select f pb fuel (added id paths moves) a s).2.subscription.waiting ≡ []
    → shown id path (live select f pb fuel (added id paths moves) a s).0.0 v
      ≡ proto_of pb (view (live select f pb fuel (added id paths moves) a s).1.documents path)
unfolding live
live-shows select f pb fuel id path paths moves a s v listed idle calm off calms end_ drained =
    let e = request (add_target id (documents paths)) in
    let last =
      turn-Current select f pb fuel id path _ _ a _ (step select f pb fuel a e s).1 _ v
        (add_target-Turns select f pb fuel id path paths a s v listed idle calm) end_
        (λ w next later.
          live-Current select f pb fuel id path moves a (step select f pb fuel a e s).1 w next off
            calms later) in
    rw drained at last.accounted
