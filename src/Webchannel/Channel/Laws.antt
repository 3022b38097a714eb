-- ===== src/Webchannel/Channel/Laws.antt =====
-- What a back channel delivers, from the number that its client acknowledged.
use embyr.Base.{
  ℕ, zero, suc, ◌+◌, ◌-◌, ◌≤◌, ◌<◌, List, [], ◌∷◌, ◌++◌, ◌≡◌, refl, sym, ◌∙◌, ap, arith, append-nil,
  append_assoc, length, length-append, length-drop, drop, drop_all, drop-append, drop-append_le,
}
use embyr.Base.Int.{half_range}
use embyr.Store.Token.{itoa}
use embyr.Store.Token.Laws.{atoi-itoa}
use embyr.Webchannel.Session.{from}
use embyr.Webchannel.Channel.{
  Channel, listen, write, Session, frame, message, log_of, noop_chunk, noop, pump, log_idx, drain,
}

-- The chunks of some messages, with their numbers from `n` on.
abbrev pub numbered : ℕ → List (List ℕ) → List (List ℕ)
numbered n [] = []
numbered n (d ∷ ds) = frame (message n d) ∷ numbered (suc n) ds

-- Responses, pumped one after the other.
abbrev pub pumped : {R : Type 0} → Channel → List (List ℕ) → Session R → Session R
pumped ch [] s = s
pumped ch (d ∷ ds) s = pumped ch ds (pump ch d s)

length-numbered : (n : ℕ) (ds : List (List ℕ)) → length (numbered n ds) ≡ length ds
length-numbered n [] = refl
length-numbered n (d ∷ ds) = ap suc (length-numbered (suc n) ds)

numbered-append :
    (n : ℕ) (ds es : List (List ℕ))
    → numbered n (ds ++ es) ≡ numbered n ds ++ numbered (n + length ds) es
numbered-append n [] es = ap (λ m. numbered m es) {x = n} {y = n + 0} (omega arith)
numbered-append n (d ∷ ds) es =
    ap (λ l. frame (message n d) ∷ l)
      (numbered-append (suc n) ds es
        ∙ ap (λ m. numbered (suc n) ds ++ numbered m es) {x = suc n + length ds}
            {y = n + suc (length ds)} (omega arith))

drop-numbered :
    (k n m : ℕ) (ds : List (List ℕ)) → m ≡ n + k → drop k (numbered n ds) ≡ numbered m (drop k ds)
drop-numbered zero n m ds e = ap (λ j. numbered j ds) {x = n} {y = m} (omega arith)
drop-numbered (suc k) n m [] e = refl
drop-numbered (suc k) n m (d ∷ ds) e = drop-numbered k (suc n) m ds (omega arith)

log_idx-itoa : (n : ℕ) → n < half_range → log_idx (itoa n) ≡ n - 1
log_idx-itoa n h = unfold log_idx in rw (atoi-itoa n h, log_idx) (ground arith)

module _ {R : Type 0} where
  pump-log :
      (ch : Channel) (d : List ℕ) (s : Session R)
      → ((log_of ch (pump ch d s)).entries ≡ (log_of ch s).entries ++ frame (message s.seq d) ∷ [])
        × ((pump ch d s).seq ≡ suc s.seq)
  unfolding pump
  pump-log listen d s = (refl, omega arith)
  pump-log write d s = (refl, omega arith)

  -- The log and the next number after some responses.
  pumped-log :
      (ch : Channel) (ds : List (List ℕ)) (s : Session R)
      → ((log_of ch (pumped ch ds s)).entries ≡ (log_of ch s).entries ++ numbered s.seq ds)
        × ((pumped ch ds s).seq ≡ s.seq + length ds)
  pumped-log ch [] s = (sym (append-nil (log_of ch s).entries), omega arith)
  pumped-log ch (d ∷ ds) s =
      let (log, next) = pump-log ch d s in
      let (rest, last) = pumped-log ch ds (pump ch d s) in
      (
        rest
            ∙ rw (log, next)
                (append_assoc (log_of ch s).entries (frame (message s.seq d) ∷ [])
                  (numbered (suc s.seq) ds)),
        omega (arith, last, next),
      )

-- A session that has just been connected.
pub record IsNew {R : Type 0} (ch : Channel) (s : Session R) : Type 0 where
  pub empty : (log_of ch s).entries ≡ []
  pub first : s.seq ≡ 2

module _ {R : Type 0} (ch : Channel) (s : Session R) (new : IsNew ch s) where
  log-new : (ds : List (List ℕ)) → (log_of ch (pumped ch ds s)).entries ≡ numbered 2 ds
  log-new ds = (pumped-log ch ds s).0 ∙ rw (new.empty, new.first) refl

  drain-log :
      (idx : ℕ) (ds : List (List ℕ)) → (drain ch idx (pumped ch ds s)).0 ≡ drop idx (numbered 2 ds)
  drain-log idx ds = unfold drain from in rw (log-new ds) refl

  drain-next : (idx : ℕ) (s' : Session R) → (drain ch idx s').1 ≡ idx + length (drain ch idx s').0
  drain-next idx s' = unfold drain in refl

-- What is left of some chunks from `k` on, and then the chunks after them.
drop-resumed :
    (k : ℕ) (ds es : List (List ℕ))
    → k ≤ length ds
    → drop k (numbered 2 ds) ++ drop (k + length (drop k (numbered 2 ds))) (numbered 2 (ds ++ es))
      ≡ numbered (2 + k) (drop k (ds ++ es))
drop-resumed k ds es h =
    let old = numbered 2 ds in
    let new = numbered (2 + length ds) es in
    let len = length-numbered 2 ds in
    let rest : drop (k + length (drop k old)) (old ++ new) ≡ new =
      drop-append old new (k + length (drop k old)) (omega (arith, length-drop k old, len)) in
    rw (numbered-append 2 ds es, rest)
      (sym (drop-append_le k old new (omega (arith, len)))
        ∙ ap (λ l. drop k l) (sym (numbered-append 2 ds es))
        ∙ drop-numbered k 2 (2 + k) (ds ++ es) refl)

-- A back channel that resumes a session which has sent no keep-alive, from the last number `n`
-- that its client acknowledged, and goes on as more responses come: it delivers exactly the
-- chunks with the numbers above `n` (above 1 at the start), in order, each once.
pub drain_exact :
    {R : Type 0} (ch : Channel) (s : Session R) (n : ℕ) (ds es : List (List ℕ))
    → IsNew ch s
    → n < half_range
    → n ≤ 1 + length ds
    → let (chunks, idx) = drain ch (log_idx (itoa n)) (pumped ch ds s) in
      chunks ++ (drain ch idx (pumped ch (ds ++ es) s)).0
      ≡ numbered (2 + (n - 1)) (drop (n - 1) (ds ++ es))
drain_exact ch s n ds es new small known =
    rw
      (
        log_idx-itoa n small,
        drain-next ch s new (n - 1) (pumped ch ds s),
        drain-log ch s new (n - 1) ds,
        drain-log ch s new (n - 1 + length (drop (n - 1) (numbered 2 ds))) (ds ++ es),
      )
      (drop-resumed (n - 1) ds es (omega (arith, known)))

noop_chunk-log :
    {R : Type 0} (ch : Channel) (s : Session R)
    → (log_of ch (noop_chunk s).1).entries ≡ (log_of ch s).entries
unfolding noop_chunk log_of
noop_chunk-log listen s = refl
noop_chunk-log write s = refl

-- A keep-alive takes the number of the chunk that comes next, but no place in the log: a client
-- that acknowledges it and resumes never gets the response that follows it.
pub drain-noop_chunk :
    {R : Type 0} (ch : Channel) (s : Session R) (ds : List (List ℕ)) (d : List ℕ)
    → IsNew ch s
    → length ds + 2 < half_range
    → let (chunk, quiet) = noop_chunk (pumped ch ds s) in
      (chunk ≡ frame (message (length ds + 2) noop))
      × ((log_of ch (pump ch d quiet)).entries
          ≡ numbered 2 ds ++ frame (message (length ds + 3) d) ∷ [])
      × ((drain ch (log_idx (itoa (length ds + 2))) (pump ch d quiet)).0 ≡ [])
drain-noop_chunk {R} ch s ds d new small = (
  unfold noop_chunk in rw at refl,
  log,
  unfold drain from in
      rw (log_idx-itoa (length ds + 2) small, log)
        (drop_all (length ds + 2 - 1) (numbered 2 ds ++ last ∷ [])
          (omega (arith, length-numbered 2 ds, length-append (numbered 2 ds) (last ∷ [])))),
)
  where
    at : (pumped ch ds s).seq ≡ length ds + 2
    at = omega (arith, (pumped-log ch ds s).1, new.first)

    last : List ℕ
    last = frame (message (length ds + 3) d)

    quiet : Session R
    quiet = (noop_chunk (pumped ch ds s)).1

    next : quiet.seq ≡ length ds + 3
    next = unfold noop_chunk in omega (arith, at)

    log : (log_of ch (pump ch d quiet)).entries ≡ numbered 2 ds ++ last ∷ []
    log =
        (pump-log ch d quiet).0
        ∙ rw (noop_chunk-log ch (pumped ch ds s), log-new ch s new ds, next) refl
