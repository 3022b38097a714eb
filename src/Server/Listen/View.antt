-- ===== src/Server/Listen/View.antt =====
-- What a client of a Listen stream (internal/server/listen.go) makes of the messages: the document
-- that it shows at one path for one target.
use embyr.Base.{
  String, Bool, true, false, ◌&&◌, List, [], ◌∷◌, ◌++◌, Option, none, some, ◌≡◌, refl, ◌∙◌, any,
  str_eq, if◌then◌else◌,
}
use embyr.Base.Int.{ℤ, eqb_ℤ}
use embyr.Proto.{ProtoDocument}
use embyr.Server.Listen.Messages.{
  TargetChangeType, no_change, add, remove, current, reset, Response, target_change,
  document_change, document_delete, done, closed, panicked, unfinished, failed, Sent, follow,
}

-- Adding, removing and resetting a target forget its documents.
abbrev pub forgets : TargetChangeType → Bool
forgets no_change = false
forgets current = false
forgets add = true
forgets remove = true
forgets reset = true

module _ (id : ℤ) (path : String) where
  abbrev pub show_one : Response → Option ProtoDocument → Option ProtoDocument
  show_one (target_change t ids token) v =
      if forgets t && any (λ i. eqb_ℤ i id) ids then none else v
  show_one (document_change d i) v = if eqb_ℤ i id && str_eq d.name path then some d else v
  show_one (document_delete p i) v = if eqb_ℤ i id && str_eq p path then none else v

  -- What the client shows after the messages, where it showed `v` before them.
  abbrev pub shown : List Response → Option ProtoDocument → Option ProtoDocument
  shown [] v = v
  shown (r ∷ rs) v = shown rs (show_one r v)

  -- Messages after which the handler goes on change what the client shows from `v` to `w`.
  pub record Leads (v : Option ProtoDocument) (s : Sent) (w : Option ProtoDocument) : Type 0 where
    pub shows : s.1 ≡ done → shown s.0 v ≡ w

  pub shown-append :
      (rs ss : List Response) (v : Option ProtoDocument)
      → shown (rs ++ ss) v ≡ shown ss (shown rs v)
  shown-append [] ss v = refl
  shown-append (r ∷ rs) ss v = shown-append rs ss (show_one r v)

  pub Leads-follow :
      (s t : Sent) {u v w : Option ProtoDocument}
      → Leads u s v
      → Leads v t w
      → Leads u (follow s t) w
  unfolding follow
  Leads-follow (rs, done) (ss, o) {u} {v} {w} h k = record {
    shows = λ e. shown-append rs ss u ∙ rw (h.shows refl) (k.shows e);
  }
  Leads-follow (rs, closed) t h k = record { shows = λ e. absurd cc }
  Leads-follow (rs, panicked) t h k = record { shows = λ e. absurd cc }
  Leads-follow (rs, unfinished) t h k = record { shows = λ e. absurd cc }
  Leads-follow (rs, failed c) t h k = record { shows = λ e. absurd cc }

-- A run that goes on to its end was made of parts that did.
pub follow-done : (s t : Sent) → (follow s t).1 ≡ done → (s.1 ≡ done) × (t.1 ≡ done)
unfolding follow
follow-done (rs, done) t e = (refl, e)
follow-done (rs, closed) t e = absurd cc
follow-done (rs, panicked) t e = absurd cc
follow-done (rs, unfinished) t e = absurd cc
follow-done (rs, failed c) t e = absurd cc

pub follow-append : (s t : Sent) → s.1 ≡ done → (follow s t).0 ≡ s.0 ++ t.0
unfolding follow
follow-append (rs, done) t e = refl
follow-append (rs, closed) t e = absurd cc
follow-append (rs, panicked) t e = absurd cc
follow-append (rs, unfinished) t e = absurd cc
follow-append (rs, failed c) t e = absurd cc
