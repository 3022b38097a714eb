-- ===== src/Postgres/Subscribe/Laws.antt =====
-- A subscriber of PostgreSQL through an outage of its connection.
use embyr.Base.{
  ℕ, zero, suc, ◌^◌, ◌≤◌, min, String, List, [], ◌∷◌, ◌++◌, map, some, ◌≡◌, refl, ◌∙◌, ap, sym,
  arith, append-nil, append_assoc,
}
use embyr.Store.{DocChange, DocChangeKind, upserted, deleted}
use embyr.Postgres.Subscribe.{
  connecting, listening, Subscriber, Event, connect_error, connect_success, listen_success,
  notification, notification_error, kind_of, change_of, next_backoff, receive, turn, run,
}

-- The notification of a change, with the texts that the trigger writes.
abbrev pub kind_text : DocChangeKind → String
kind_text upserted = "upsert"
kind_text deleted = "delete"

abbrev pub arrival : DocChange → Event
arrival c = notification (
    some (record {
      path = c.path;
      collection = c.collection;
      parent = c.parent;
      kind = kind_text c.kind;
      version = c.version;
      content = c.content;
    }))

-- `n` attempts to connect that fail.
abbrev pub failures : ℕ → List Event
failures zero = []
failures (suc n) = connect_error ∷ failures n

run-append : (es fs : List Event) (s : Subscriber) → run (es ++ fs) s ≡ run fs (run es s)
unfolding run
run-append [] fs s = refl
run-append (e ∷ es) fs s = run-append es fs (turn s.phase e s)

kind_of-kind_text : (k : DocChangeKind) → kind_of (kind_text k) ≡ k
unfolding kind_of
kind_of-kind_text upserted = refl
kind_of-kind_text deleted = refl

-- While it listens, a subscriber receives every change.
run-arrivals :
    (cs : List DocChange) (s : Subscriber)
    → s.phase ≡ listening
    → run (map arrival cs) s ≡ record s { received = s.received ++ cs }
unfolding run
run-arrivals [] s on = ap (λ l. record s { received = l }) (sym (append-nil s.received))
run-arrivals (c ∷ cs) s on =
    let next : Subscriber = record s { received = s.received ++ c ∷ [] } in
    let first : turn s.phase (arrival c) s ≡ next =
      rw on (unfold turn receive change_of in rw (kind_of-kind_text c.kind) refl) in
    ap (λ t. run (map arrival cs) t) first
    ∙ run-arrivals cs next on
    ∙ ap (λ l. record s { received = l }) (append_assoc s.received (c ∷ []) cs)

-- The waits of `n` failures in a row, from a backoff on, and the backoff after them.
waits_from : ℕ → ℕ → List ℕ
waits_from zero b = []
waits_from (suc n) b = b ∷ waits_from n (next_backoff b)

after_failures : ℕ → ℕ → ℕ
after_failures zero b = b
after_failures (suc n) b = after_failures n (next_backoff b)

run-failures :
    (n : ℕ) (s : Subscriber)
    → s.phase ≡ connecting
    → run (failures n) s
      ≡ record s { backoff = after_failures n s.backoff; waits = s.waits ++ waits_from n s.backoff }
unfolding run after_failures waits_from
run-failures zero s off = ap (λ l. record s { waits = l }) (sym (append-nil s.waits))
run-failures (suc n) s off =
    let next : Subscriber = record s {
      backoff = next_backoff s.backoff;
      waits = s.waits ++ s.backoff ∷ [];
    } in
    let first : turn s.phase connect_error s ≡ next = rw off (unfold turn in refl) in
    ap (λ t. run (failures n) t) first
    ∙ run-failures n next off
    ∙ ap (λ l. record s { backoff = after_failures n (next_backoff s.backoff); waits = l })
        (append_assoc s.waits (s.backoff ∷ []) (waits_from n (next_backoff s.backoff)))

-- The waits of an outage, in seconds: 1, 2, 4, and so on up to 32.
abbrev pub doubling : ℕ → ℕ → List ℕ
doubling k zero = []
doubling k (suc n) = min (2 ^ k) 32 ∷ doubling (suc k) n

power_pos : (n : ℕ) → 1 ≤ 2 ^ n
power_pos zero = omega arith
power_pos (suc n) = omega (arith, power_pos n)

min-power : (n : ℕ) → min (2 ^ suc (suc (suc (suc (suc n))))) 32 ≡ 32
min-power n = omega (arith, power_pos n)

next_backoff-doubling : (k : ℕ) → next_backoff (min (2 ^ k) 32) ≡ min (2 ^ suc k) 32
unfolding next_backoff
next_backoff-doubling zero = refl
next_backoff-doubling (suc zero) = refl
next_backoff-doubling (suc (suc zero)) = refl
next_backoff-doubling (suc (suc (suc zero))) = refl
next_backoff-doubling (suc (suc (suc (suc zero)))) = refl
next_backoff-doubling (suc (suc (suc (suc (suc n))))) = rw (min-power n, min-power (suc n)) refl

waits_from-doubling : (n k : ℕ) → waits_from n (min (2 ^ k) 32) ≡ doubling k n
unfolding waits_from
waits_from-doubling zero k = refl
waits_from-doubling (suc n) k =
    rw (next_backoff-doubling k) (ap (λ l. min (2 ^ k) 32 ∷ l) (waits_from-doubling n (suc k)))

-- A new connection: LISTEN, then the changes that arrive.
abbrev pub session : List DocChange → List Event
session cs = connect_success ∷ listen_success ∷ map arrival cs

run-session :
    (cs : List DocChange) (s : Subscriber)
    → s.phase ≡ connecting
    → run (session cs) s
      ≡ record { phase = listening; backoff = 1; waits = s.waits; received = s.received ++ cs }
run-session cs s off =
    let next : Subscriber = record s { phase = listening; backoff = 1 } in
    let first : run (session cs) s ≡ run (map arrival cs) next = unfold run turn in rw off refl in
    first ∙ run-arrivals cs next refl

-- A connection that is lost after some changes, and `n` attempts to connect again that fail.
abbrev pub outage : List DocChange → ℕ → List Event
outage before n = session before ++ notification_error ∷ failures n

run-outage :
    (before : List DocChange) (n : ℕ) (s : Subscriber)
    → s.phase ≡ connecting
    → run (outage before n) s ≡ record {
      phase = connecting;
      backoff = after_failures n 1;
      waits = s.waits ++ doubling 0 n;
      received = s.received ++ before;
    }
run-outage before n s off =
    let lost : Subscriber = record {
      phase = connecting;
      backoff = 1;
      waits = s.waits;
      received = s.received ++ before;
    } in
    run-append (session before) (notification_error ∷ failures n) s
    ∙ ap (λ t. run (notification_error ∷ failures n) t) (run-session before s off)
    ∙ unfold run turn in
      refl
      ∙ run-failures n lost refl
      ∙ ap (λ l. record lost { backoff = after_failures n 1; waits = s.waits ++ l })
          (waits_from-doubling n 0)

-- A subscriber that is not connected receives, in order, every change that arrives on its
-- connections, those before and those after an outage. In the outage it waits after each attempt
-- that fails, for 1, 2, 4, 8, 16 seconds, and for 32 seconds from then on.
pub run-outage_recovers :
    (before after : List DocChange) (n : ℕ) (s : Subscriber)
    → s.phase ≡ connecting
    → ((run (outage before n) s).waits ≡ s.waits ++ doubling 0 n)
      × ((run (outage before n ++ session after) s).phase ≡ listening)
      × ((run (outage before n ++ session after) s).received ≡ s.received ++ before ++ after)
run-outage_recovers before after n s off =
    let down = run-outage before n s off in
    let up =
      run-append (outage before n) (session after) s
      ∙ ap (λ t. run (session after) t) down
      ∙ run-session after _ refl in
    (
      ap (λ (t : Subscriber). t.waits) down,
      ap (λ (t : Subscriber). t.phase) up,
      ap (λ (t : Subscriber). t.received) up,
    )
