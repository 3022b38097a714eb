-- ===== src/Listen/Registry.antt =====
-- `Registry` of internal/listen/registry.go. A subscription's channel is the list of the changes
-- that wait in its buffer. The lock makes each call one step. A call of `Cancel` after the first,
-- which would close a closed channel, is not modelled.
pub mod Laws
use embyr.Base.{
  ℕ, ◌+◌, ◌%◌, ◌^◌, Bool, true, false, List, [], ◌∷◌, ◌++◌, map, Option, none, some, ◌==◌, ltb,
  length, if◌then◌else◌,
}
use embyr.Store.{DocChange}

pub record Subscription : Type 0 where
  pub id : ℕ
  pub waiting : List DocChange
  pub overflowed : Bool

pub record Registry : Type 0 where
  pub subs : List Subscription
  pub next : ℕ

-- The capacity of a channel.
abbrev pub capacity : ℕ
capacity = 64

unfoldable pub subscribe_with_signal : Registry → ℕ × Registry
subscribe_with_signal r = (
  r.next,
  record {
    subs = r.subs ++ record { id = r.next; waiting = []; overflowed = false } ∷ [];
    next = (r.next + 1) % 2 ^ 64;
  },
)

-- The non-blocking send: a full buffer raises the flag.
unfoldable pub send : DocChange → Subscription → Subscription
send c s =
    if ltb (length s.waiting) capacity
    then record s { waiting = s.waiting ++ c ∷ [] }
    else record s { overflowed = true }

unfoldable pub dispatch : DocChange → Registry → Registry
unfolding send
dispatch c r = record r { subs = map (send c) r.subs }

-- One receive from a channel that holds a change.
unfoldable pub received : Subscription → Option (DocChange × Subscription)
received s = elim s.waiting [ [] ↦ none | c ∷ cs ↦ some (c, record s { waiting = cs }) ]

-- `Overflowed`: the flag is read and cleared.
unfoldable pub check_overflowed : Subscription → Bool × Subscription
check_overflowed s = (s.overflowed, record s { overflowed = false })

unfoldable pub cancel : ℕ → List Subscription → List Subscription
cancel id [] = []
cancel id (s ∷ subs) = let rest = cancel id subs in if s.id == id then rest else s ∷ rest
