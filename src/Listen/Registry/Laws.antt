-- ===== src/Listen/Registry/Laws.antt =====
-- No change is lost without a signal.
use embyr.Base.{
  ◌+◌, ◌≤◌, true, false, List, [], ◌∷◌, ◌++◌, ◌≡◌, refl, inl, inr, append-nil, append_assoc, arith,
  length, length-append, ltb, Bool-cases, ◌∙◌, sym,
}
use embyr.Store.{DocChange}
use embyr.Listen.Registry.{Subscription, capacity, send}

-- The sends of a sequence of changes to one subscription, with no receive between them.
abbrev pub sent : List DocChange → Subscription → Subscription
sent [] s = s
sent (c ∷ cs) s = sent cs (send c s)

send-room :
    (c : DocChange) (s : Subscription)
    → ltb (length s.waiting) capacity ≡ true
    → send c s ≡ record s { waiting = s.waiting ++ c ∷ [] }
send-room c s e = unfold send in rw e refl

send-full :
    (c : DocChange) (s : Subscription)
    → ltb (length s.waiting) capacity ≡ false
    → send c s ≡ record s { overflowed = true }
send-full c s e = unfold send in rw e refl

-- A flag that is up stays up.
sent_raised :
    (cs : List DocChange) (s : Subscription) → s.overflowed ≡ true → (sent cs s).overflowed ≡ true
sent_raised [] s h = h
sent_raised (c ∷ cs) s h = elim (Bool-cases (ltb (length s.waiting) capacity)) [
  | inl room ↦ sent_raised cs (send c s) (rw (send-room c s room) h)
  | inr full ↦ sent_raised cs (send c s) (rw (send-full c s full) refl)
]

-- Both laws at once, for the recursion.
sent_both :
    (cs : List DocChange) (s : Subscription)
    → ((sent cs s).overflowed ≡ false → (sent cs s).waiting ≡ s.waiting ++ cs)
      × (length s.waiting + length cs ≤ capacity → (sent cs s).overflowed ≡ s.overflowed)
sent_both [] s = (λ h. sym (append-nil s.waiting), λ h. refl)
sent_both (c ∷ cs) s = elim (Bool-cases (ltb (length s.waiting) capacity)) [
  | inl room ↦
      let next : Subscription = record s { waiting = s.waiting ++ c ∷ [] } in
      let (kept, quiet) = sent_both cs next in
      rw (sent, send-room c s room)
        (
          λ h. kept h ∙ append_assoc s.waiting (c ∷ []) cs,
          λ h. quiet (omega (arith, length-append s.waiting (c ∷ []))),
        )
  | inr full ↦
      let up = sent_raised cs (record s { overflowed = true }) refl in
      rw (sent, send-full c s full) (λ h. absurd cc, λ h. absurd (ground arith))
]

-- Whatever changes are dispatched to a subscription between two receives: if its flag is down
-- afterwards, then all of them wait in its buffer, in order, after those that waited before.
pub sent_lem :
    (cs : List DocChange) (s : Subscription)
    → (sent cs s).overflowed ≡ false
    → (sent cs s).waiting ≡ s.waiting ++ cs
sent_lem cs s h = (sent_both cs s).0 h

-- Changes that fit into the buffer, after those that wait there, leave the flag as it was.
overflowed-sent :
    (cs : List DocChange) (s : Subscription)
    → length s.waiting + length cs ≤ capacity
    → (sent cs s).overflowed ≡ s.overflowed
overflowed-sent cs s h = (sent_both cs s).1 h
