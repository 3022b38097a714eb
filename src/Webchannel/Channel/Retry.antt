-- ===== src/Webchannel/Channel/Retry.antt =====
-- A forward post that is repeated (internal/webchannel/handler.go).
use embyr.Base.{
  ℕ, ◌⊎◌, if◌then◌else◌, ◌≤◌, String, true, false, List, [], ◌∷◌, ◌++◌, Option, none, some, ◌≡◌,
  refl, sym, ap, ◌∙◌, length, any, str_eq, str_eq-cases, eq_refl, Bool-cases, Option-cases, inl,
  inr,
}
use embyr.Webchannel.Session.{rid_window_size, seen_rid}
use embyr.Webchannel.Session.Laws.{seen_rid_lem}
use embyr.Webchannel.Channel.{
  Channel, listen, write, Session, Form, bridge_of, with_bridge, get, put, Reply, bad_request,
  no_reply, sends, post_status, post, post_to, parse_forward_body, handle_forward,
}

seen_rid-again :
    (rid : String) (rids : List String)
    → (seen_rid rid rids).0 ≡ true
    → (seen_rid rid rids).1 ≡ rids
seen_rid-again rid rids h = elim (Bool-cases (any (λ seen. str_eq seen rid) rids)) [
  | inl old ↦ unfold seen_rid in rw old refl
  | inr new ↦ absurd (let k : false ≡ true = unfold seen_rid in (rw new at h) in cc)
]

module _ {R : Type 0} where
  get-id :
      (id : String) (sessions : List (Session R)) (s : Session R)
      → get id sessions ≡ some s
      → s.id ≡ id
  unfolding get
  get-id id [] s h = absurd cc
  get-id id (t ∷ sessions) s h =
      let rest = get-id id sessions s in
      elim (str_eq-cases t.id id) [
        | inl (here, at) ↦
            let same : some t ≡ some s = rw here at h in let e : t ≡ s = cc in rw (← e) at
        | inr (off, _) ↦ rest (rw off at h)
      ]

  get-put :
      (sessions : List (Session R)) (s t : Session R)
      → get t.id sessions ≡ some s
      → get t.id (put t sessions) ≡ some t
  unfolding get put
  get-put [] s t h = absurd cc
  get-put (q ∷ sessions) s t h =
      let rest = get-put sessions s t in
      elim (str_eq-cases q.id t.id) [
        | inl (here, at) ↦ rw (here, eq_refl t.id) refl
        | inr (off, _) ↦ rw (off, off) (rest (rw off at h))
      ]

  put-put : (sessions : List (Session R)) (t : Session R) → put t (put t sessions) ≡ put t sessions
  unfolding put
  put-put [] t = refl
  put-put (q ∷ sessions) t =
      let rest = put-put sessions t in
      elim (str_eq-cases q.id t.id) [
        | inl (here, at) ↦ rw (here, eq_refl t.id) (ap (λ l. t ∷ l) rest)
        | inr (off, _) ↦ rw (off, off) (ap (λ l. q ∷ l) rest)
      ]

  with_bridge-fields :
      (ch : Channel) (reqs : List R) (s : Session R)
      → ((with_bridge ch reqs s).id ≡ s.id)
        × ((with_bridge ch reqs s).seen_rids ≡ s.seen_rids)
        × (bridge_of ch (with_bridge ch reqs s) ≡ some reqs)
  unfolding with_bridge bridge_of
  with_bridge-fields listen reqs s = (refl, refl, refl)
  with_bridge-fields write reqs s = (refl, refl, refl)

  module _ (unmarshal : Channel → String → Option R) (ch : Channel) (rid : String)
      (form : Option Form) where
    -- The session after requests that are new.
    abbrev accepted : Option ℕ → Session R → List R → Session R
    accepted ends s reqs =
        with_bridge ch (reqs ++ (sends ends (parse_forward_body unmarshal ch form)).0)
          (record s { seen_rids = (seen_rid rid s.seen_rids).1 })

    post-new :
        (ends : Option ℕ) (s : Session R) (reqs : List R) (sessions : List (Session R))
        → (seen_rid rid s.seen_rids).0 ≡ false
        → post unmarshal ch rid form ends s reqs sessions ≡ (
          if (sends ends (parse_forward_body unmarshal ch form)).1
              then no_reply
              else post_status (accepted ends s reqs),
          put (accepted ends s reqs) sessions,
        )
    post-new ends s reqs sessions h = unfold post in rw h refl

    post-old :
        (ends : Option ℕ) (s : Session R) (reqs : List R) (sessions : List (Session R))
        → (seen_rid rid s.seen_rids).0 ≡ true
        → post unmarshal ch rid form ends s reqs sessions ≡ (post_status s, put s sessions)
    post-old ends s reqs sessions h =
        unfold post in
        rw h (
          ap
            (λ rids. (
              post_status (record s { seen_rids = rids }),
              put (record s { seen_rids = rids }) sessions,
            ))
            (seen_rid-again rid s.seen_rids h))

    post_to-none :
        (ends : Option ℕ) (s : Session R) (sessions : List (Session R))
        → bridge_of ch s ≡ none
        → post_to unmarshal ch rid form ends (some s) sessions ≡ (bad_request, sessions)
    post_to-none ends s sessions h = unfold post_to in rw (h, post_to) refl

    post_to-some :
        (ends : Option ℕ) (s : Session R) (reqs : List R) (sessions : List (Session R))
        → bridge_of ch s ≡ some reqs
        → post_to unmarshal ch rid form ends (some s) sessions
          ≡ post unmarshal ch rid form ends s reqs sessions
    post_to-some ends s reqs sessions h = unfold post_to in rw (h, post_to) refl

    -- A post to a session that has seen the request.
    post_to-seen :
        (ends : Option ℕ) (s : Session R) (reqs : List R) (sessions : List (Session R))
        → bridge_of ch s ≡ some reqs
        → (seen_rid rid s.seen_rids).0 ≡ true
        → post_to unmarshal ch rid form ends (some s) sessions ≡ (post_status s, put s sessions)
    post_to-seen ends s reqs sessions h seen =
        post_to-some ends s reqs sessions h ∙ post-old ends s reqs sessions seen

    -- The session that a post leaves answers the same post again, and stays.
    post_to-again :
        (ends : Option ℕ) (sid : String) (s t : Session R) (reqs : List R)
        (sessions : List (Session R))
        → get sid sessions ≡ some s
        → t.id ≡ s.id
        → bridge_of ch t ≡ some reqs
        → (seen_rid rid t.seen_rids).0 ≡ true
        → post_to unmarshal ch rid form ends (get sid (put t sessions)) (put t sessions)
          ≡ (post_status t, put t sessions)
    post_to-again ends sid s t reqs sessions found same h seen =
        let at : sid ≡ t.id = sym (same ∙ get-id sid sessions s found) in
        rw
          (
            at,
            get-put sessions s t (rw (← at) found),
            post_to-seen ends t reqs (put t sessions) h seen,
            put-put sessions t,
          )
          refl

    nobody :
        (ends : Option ℕ) (sessions : List (Session R))
        → post_to unmarshal ch rid form ends none sessions ≡ (bad_request, sessions)
    nobody ends sessions = unfold post_to in refl

    -- A post whose answer is `r`, and which changes nothing when it comes again; unless its context
    -- ended, it is answered alike.
    abbrev IsSettled :
        Option ℕ → Option ℕ → String → List (Session R) → Reply × List (Session R) → Type 0
    IsSettled ends later sid sessions r =
        (post_to unmarshal ch rid form ends (get sid sessions) sessions ≡ r)
        × ((post_to unmarshal ch rid form later (get sid r.1) r.1).1 ≡ r.1)
        × ((r.0 ≡ no_reply) ⊎ (post_to unmarshal ch rid form later (get sid r.1) r.1 ≡ r))

    alike :
        (ends later : Option ℕ) (sid : String) (sessions : List (Session R))
        {r : Reply × List (Session R)}
        → post_to unmarshal ch rid form ends (get sid sessions) sessions ≡ r
        → post_to unmarshal ch rid form later (get sid r.1) r.1 ≡ r
        → IsSettled ends later sid sessions r
    alike ends later sid sessions first again = (first, ap (λ q. q.1) again, inr again)

    settled :
        (ends later : Option ℕ) (sid : String) (sessions : List (Session R))
        → ((s : Session R) → get sid sessions ≡ some s → length s.seen_rids ≤ rid_window_size)
        → (r : Reply × List (Session R)) × IsSettled ends later sid sessions r
    settled ends later sid sessions bounded = elim (Option-cases (get sid sessions)) [
      | inl absent ↦ (
        (bad_request, sessions),
        alike ends later sid sessions (rw absent (nobody ends sessions))
            (rw absent (nobody later sessions)),
      )
      | inr (s, found) ↦ elim (Option-cases (bridge_of ch s)) [
        | inl other ↦ (
          (bad_request, sessions),
          alike ends later sid sessions (rw found (post_to-none ends s sessions other))
              (rw found (post_to-none later s sessions other)),
        )
        | inr (reqs, h) ↦ elim (Bool-cases (seen_rid rid s.seen_rids).0) [
          | inl seen ↦ (
            (post_status s, put s sessions),
            alike ends later sid sessions (rw found (post_to-seen ends s reqs sessions h seen))
                (post_to-again later sid s s reqs sessions found refl h seen),
          )
          | inr new ↦
              let t = accepted ends s reqs in
              let more = reqs ++ (sends ends (parse_forward_body unmarshal ch form)).0 in
              let (same, rids, bridge) =
                with_bridge-fields ch more
                  (record s { seen_rids = (seen_rid rid s.seen_rids).1 }) in
              let again =
                post_to-again later sid s t more sessions found same bridge
                  (rw rids (seen_rid_lem rid s.seen_rids (bounded s found)).0) in
              let first = post_to-some ends s reqs sessions h ∙ post-new ends s reqs sessions new in
              elim (Bool-cases (sends ends (parse_forward_body unmarshal ch form)).1) [
                | inl cut ↦ (
                  (no_reply, put t sessions),
                  (rw found (first ∙ rw cut refl), ap (λ q. q.1) again, inl refl),
                )
                | inr whole ↦ (
                  (post_status t, put t sessions),
                  alike ends later sid sessions (rw found (first ∙ rw whole refl)) again,
                )
              ]
        ]
      ]
    ]

-- A forward post to a session that comes again, at once, leaves all sessions as they are, so that
-- no request reaches the bridge twice; and it gets the answer that the first one got, unless the
-- context of the first one ended while its requests were sent, when the bridge is left with those
-- sent before. The session must not remember more requests than its window has places.
pub handle_forward-twice :
    {R : Type 0} (unmarshal : Channel → String → Option R) (ch : Channel) (id sid rid : String)
    (form : Option Form) (ends later : Option ℕ) (sessions : List (Session R))
    → str_eq sid "" ≡ false
    → ((s : Session R) → get sid sessions ≡ some s → length s.seen_rids ≤ rid_window_size)
    → let first = handle_forward unmarshal ch id sid rid form ends sessions in
      let second = handle_forward unmarshal ch id sid rid form later first.1 in
      (second.1 ≡ first.1) × ((first.0 ≡ no_reply) ⊎ (second ≡ first))
handle_forward-twice unmarshal ch id sid rid form ends later sessions known bounded =
    let (r, (first, same, answer)) =
      settled unmarshal ch rid form ends later sid sessions bounded in
    unfold handle_forward in rw (known, first) (same, answer)
