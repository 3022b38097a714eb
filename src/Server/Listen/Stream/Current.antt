-- ===== src/Server/Listen/Stream/Current.antt =====
-- The invariant of a Listen stream (internal/server/listen.go) and a client that watches a path:
-- what the client shows is what is stored, but for the changes that wait. Calls of the adapter
-- keep it; the goroutine of internal/server/server.go that passes the changes on from the adapter
-- to the registry is taken to keep up with the calls.
use embyr.Base.{
  append-nil, String, Bool, false, List, [], ◌∷◌, ◌++◌, Option, none, some, ◌≡◌, refl, subst, arith,
  str_eq, str_eq-cases, inl, inr, if◌then◌else◌, Bool-cases,
}
use embyr.Base.Int.{ℤ}
use embyr.Proto.{ProtoDocument, Protobuf}
use embyr.Store.{Document, DocChange, DocChangeKind}
use embyr.Sqlite.Adapter.{Adapter}
use embyr.Sqlite.Spec.{Outcome, Op, spec}
use embyr.Sqlite.Refine.{view, apply}
use embyr.Sqlite.Refine.Run.{apply-Meets}
use embyr.Listen.Registry.Laws.{sent, sent_lem}
use embyr.Server.Listen.Stream.{Stream}
use embyr.Server.Listen.Snapshot.Read.{proto_of}
use embyr.Server.Listen.Announce.{Announces, spec-Announces}
use embyr.Server.Listen.Watch.{Agrees, Watches}

-- The stream after the changes of a call were dispatched.
abbrev pub after_call : Op → Adapter → Stream → Stream
after_call op a s = record s {
  subscription = sent (spec op (view a.documents)).changes s.subscription;
}

-- The newest kind of the changes of a path that wait.
abbrev pub newer : Option DocChangeKind → Bool → DocChangeKind → Option DocChangeKind
newer (some k) here kind = some k
newer none here kind = if here then some kind else none

abbrev pub newest : String → List DocChange → Option DocChangeKind
newest path [] = none
newest path (c ∷ cs) = newer (newest path cs) (str_eq c.path path) c.kind

newest-append :
    (path : String) (cs : List DocChange) (c : DocChange)
    → newest path (cs ++ c ∷ []) ≡ (if str_eq c.path path then some c.kind else newest path cs)
newest-append path [] c = ground arith
newest-append path (b ∷ cs) c =
    let ih = newest-append path cs c in
    elim (Bool-cases (str_eq c.path path)) [
      | inl here ↦ rw (ih, here) refl
      | inr off ↦ rw (ih, off) refl
    ]

-- What waits accounts for the difference between what is shown and what is stored.
abbrev pub Accounts :
    Protobuf → Option Document → Option ProtoDocument → Option DocChangeKind → Type 0
Accounts pb o v none = v ≡ proto_of pb o
Accounts pb o v (some k) = Agrees k o

module _ (pb : Protobuf) (id : ℤ) (path : String) where
  -- The target watches the path, no change was dropped, and what is shown is stored but for what
  -- waits.
  pub record Current (a : Adapter) (s : Stream) (v : Option ProtoDocument) : Type 0 where
    pub watched : Watches id path s.targets
    pub calm : s.subscription.overflowed ≡ false
    pub accounted : Accounts pb (view a.documents path) v (newest path s.subscription.waiting)

  -- A call keeps it, if no change of the call is dropped.
  pub call-Current :
      (op : Op) (a : Adapter) (s : Stream) (v : Option ProtoDocument)
      → Current a s v
      → (after_call op a s).subscription.overflowed ≡ false
      → Current (apply op a).1 (after_call op a s) v
  call-Current op a s v cur calm = record {
    watched = cur.watched;
    calm = calm;
    accounted =
        rw
          (
            sent_lem (spec op (view a.documents)).changes s.subscription calm,
            (apply-Meets op a).documents,
          )
          (still (spec op (view a.documents)) (spec-Announces op (view a.documents)));
  }
    where
      still :
          (o : Outcome)
          → Announces (view a.documents) o
          → Accounts pb (o.model path) v (newest path (s.subscription.waiting ++ o.changes))
      still o (inl (quiet, same)) =
          rw (quiet, same, append-nil s.subscription.waiting) cur.accounted
      still o (inr (c, only, agrees, others)) =
          rw (only, newest-append path s.subscription.waiting c)
            (elim (str_eq-cases c.path path) [
              | inl (here, at) ↦ rw here (subst (λ p. Agrees c.kind (o.model p)) at agrees)
              | inr (off, _) ↦ rw (off, others path off) cur.accounted
            ])
