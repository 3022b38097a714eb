-- ===== src/Server/Listen/Stream/Turns.antt =====
-- The turns of the loop of Listen (internal/server/listen.go) keep the invariant of its clients.
use embyr.Base.{
  ℕ, String, false, List, [], ◌∷◌, Option, none, some, ◌≡◌, refl, str_eq-cases, inl, inr,
  Bool-cases, Option-cases,
}
use embyr.Base.Int.{ℤ, eqb_ℤ}
use embyr.Base.Result.{Result-cases}
use embyr.Proto.{ProtoDocument, Float64, Protobuf}
use embyr.Store.{Document, DocChange, DocChangeKind}
use embyr.Sqlite.Table.{Row}
use embyr.Sqlite.Adapter.{Adapter}
use embyr.Sqlite.Paging.{Statement}
use embyr.Sqlite.Refine.{view}
use embyr.Listen.Registry.{Subscription, received, check_overflowed}
use embyr.Server.Listen.Messages.{TargetInfo, done, Sent}
use embyr.Server.Listen.Stream.{
  ListenRequest, no_target, add_target, remove_target, TargetType, Stream, Event, request, change,
  tick, end_of_stream, broken, step, handle_request, enter, target_info, delete_target, take_change,
  announce_removal, has_target,
}
use embyr.Server.Listen.Snapshot.Read.{proto_of}
use embyr.Server.Listen.View.{Leads, Leads-follow, shown}
use embyr.Server.Listen.Watch.{
  Agrees, Watches-delete_target, Watches-put_target, target_info-target_id,
}
use embyr.Server.Listen.Snapshot.Other.{deliver_snapshot-other}
use embyr.Server.Listen.Changes.Laws.{fan_out-off, fan_out-own}
use embyr.Server.Listen.Changes.{fan_out}
use embyr.Server.Listen.Stream.Current.{newer, newest, Accounts, Current}

-- No request about the target.
abbrev pub IsElsewhere : ℤ → Event → Type 0
IsElsewhere id (request (add_target i t)) = eqb_ℤ i id ≡ false
IsElsewhere id (request (remove_target i)) = eqb_ℤ i id ≡ false
IsElsewhere id (request no_target) = Unit
IsElsewhere id change = Unit
IsElsewhere id tick = Unit
IsElsewhere id end_of_stream = Unit
IsElsewhere id (broken e) = Unit

module _ (select : Statement → List Row → List Document) (f : Float64) (pb : Protobuf) (fuel : ℕ)
    (id : ℤ) (path : String) where
  -- Where the turn leads the client, with the invariant after it.
  abbrev pub Turns : Adapter → Option ProtoDocument → Sent × Stream → Type 0
  Turns a v r = (w : Option ProtoDocument) × Leads id path v r.0 w × Current pb id path a r.1 w

  enter-Turns :
      (a : Adapter) (i : ℤ) (t : TargetType) (s : Stream) (v : Option ProtoDocument)
      → eqb_ℤ i id ≡ false
      → Current pb id path a s v
      → Turns a v (enter select f pb fuel a (target_info pb i t) s)
  enter-Turns a i t s v other cur = elim (Result-cases (target_info pb i t)) [
    | inl (c, e) ↦ unfold enter in rw (e, enter) (v, record { shows = λ k. absurd cc }, cur)
    | inr (ti, e) ↦
        let at = target_info-target_id pb i t ti e in
        unfold enter in
        rw (e, enter)
          (
            v,
            deliver_snapshot-other id path i other pb select fuel a ti v at,
            record {
              watched = Watches-put_target id path ti s.targets (rw at other) cur.watched;
              calm = cur.calm;
              accounted = cur.accounted;
            },
          )
  ]

  announce_removal-other :
      (i : ℤ) (targets : List TargetInfo) (v : Option ProtoDocument)
      → eqb_ℤ i id ≡ false
      → Leads id path v (announce_removal i targets) v
  announce_removal-other i targets v other = elim (Bool-cases (has_target i targets)) [
    | inl known ↦ unfold announce_removal in rw known (record { shows = λ k. rw other refl })
    | inr fresh ↦ unfold announce_removal in rw fresh (record { shows = λ k. refl })
  ]

  deleted-Current :
      (i : ℤ) (a : Adapter) (s : Stream) (v : Option ProtoDocument)
      → eqb_ℤ i id ≡ false
      → Current pb id path a s v
      → Current pb id path a (record s { targets = delete_target i s.targets }) v
  deleted-Current i a s v other cur = record {
    watched = Watches-delete_target id i path s.targets other cur.watched;
    calm = cur.calm;
    accounted = cur.accounted;
  }

  request-Turns :
      (req : ListenRequest) (a : Adapter) (s : Stream) (v : Option ProtoDocument)
      → IsElsewhere id (request req)
      → Current pb id path a s v
      → Turns a v (handle_request select f pb fuel a req s)
  unfolding handle_request
  request-Turns no_target a s v h cur = (v, record { shows = λ k. refl }, cur)
  request-Turns (remove_target i) a s v other cur =
      (v, record { shows = λ k. rw other refl }, deleted-Current i a s v other cur)
  request-Turns (add_target i t) a s v other cur =
      let (w, leads, cur') =
        enter-Turns a i t (record s { targets = delete_target i s.targets }) v other
          (deleted-Current i a s v other cur) in
      (w, Leads-follow id path _ _ (announce_removal-other i s.targets v other) leads, cur')

  take_change-calm :
      (c : DocChange) (cs : List DocChange) (a : Adapter) (s : Stream)
      → s.subscription.overflowed ≡ false
      → take_change select f pb fuel a c (record s.subscription { waiting = cs }) s ≡ (
        fan_out f pb a c s.targets,
        record s { subscription = record s.subscription { waiting = cs; overflowed = false } },
      )
  take_change-calm c cs a s calm = unfold take_change check_overflowed in rw calm refl

  step-idle :
      (a : Adapter) (s : Stream)
      → s.subscription.waiting ≡ []
      → step select f pb fuel a change s ≡ (([], done), s)
  step-idle a s e = unfold step in rw (received-empty s.subscription e, step) refl
    where
      received-empty : (sub : Subscription) → sub.waiting ≡ [] → received sub ≡ none
      received-empty sub k = unfold received in rw (k, received) refl

  pub step-change :
      (c : DocChange) (cs : List DocChange) (a : Adapter) (s : Stream)
      → s.subscription.waiting ≡ c ∷ cs
      → step select f pb fuel a change s
        ≡ take_change select f pb fuel a c (record s.subscription { waiting = cs }) s
  step-change c cs a s e = unfold step received in rw (e, received, step) refl

  -- A change that is received, with those that wait behind it.
  received-Turns :
      (c : DocChange) (cs : List DocChange) (a : Adapter) (s : Stream) (v : Option ProtoDocument)
      → Current pb id path a s v
      → s.subscription.waiting ≡ c ∷ cs
      → Turns a v (take_change select f pb fuel a c (record s.subscription { waiting = cs }) s)
  received-Turns c cs a s v cur first =
      rw (take_change-calm c cs a s cur.calm) (elim (str_eq-cases c.path path) [
        | inl (here, at) ↦ elim (Option-cases (newest path cs)) [
          | inl last ↦
              let agrees : Agrees c.kind (view a.documents path) =
                rw (first, last, here) at cur.accounted in
              (
                proto_of pb (view a.documents path),
                fan_out-own id path f pb a c s.targets v cur.watched at agrees,
                next _ (rw last refl),
              )
          | inr (kind, later) ↦ (
            shown id path (fan_out f pb a c s.targets).0 v,
            record { shows = λ k. refl },
            next _ (rw later (rw (first, later) at cur.accounted)),
          )
        ]
        | inr (off, _) ↦ (
          v,
          fan_out-off id path f pb a c s.targets v off,
          next v (rw (first, off, newer_off (newest path cs)) at cur.accounted),
        )
      ])
    where
      next :
          (w : Option ProtoDocument)
          → Accounts pb (view a.documents path) w (newest path cs)
          → Current pb id path a
              (record s {
                subscription = record s.subscription { waiting = cs; overflowed = false };
              })
              w
      next w h = record { watched = cur.watched; calm = refl; accounted = h }

      newer_off : (o : Option DocChangeKind) → newer o false c.kind ≡ o
      newer_off none = refl
      newer_off (some k) = refl

  -- Every turn of the loop keeps the invariant.
  pub event-Turns :
      (e : Event) (a : Adapter) (s : Stream) (v : Option ProtoDocument)
      → IsElsewhere id e
      → Current pb id path a s v
      → Turns a v (step select f pb fuel a e s)
  event-Turns (request req) a s v h cur = unfold step in request-Turns req a s v h cur
  event-Turns change a s v h cur = turn s.subscription.waiting refl
    where
      turn :
          (cs : List DocChange)
          → s.subscription.waiting ≡ cs
          → Turns a v (step select f pb fuel a change s)
      turn [] e = rw (step-idle a s e) (v, record { shows = λ k. refl }, cur)
      turn (c ∷ cs) e = rw (step-change c cs a s e) (received-Turns c cs a s v cur e)
  event-Turns tick a s v h cur = unfold step in (v, record { shows = λ k. refl }, cur)
  event-Turns end_of_stream a s v h cur = unfold step in (v, record { shows = λ k. absurd cc }, cur)
  event-Turns (broken e) a s v h cur = unfold step in (v, record { shows = λ k. absurd cc }, cur)
