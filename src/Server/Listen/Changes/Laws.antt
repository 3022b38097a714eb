-- ===== src/Server/Listen/Changes/Laws.antt =====
-- What a change makes a client show: nothing new for the other paths and targets, and what is
-- stored for its own.
use embyr.Base.{
  String, Bool, true, false, ◌&&◌, List, [], ◌∷◌, Option, none, some, ◌≡◌, refl, any, str_eq,
  eq_refl, Option-cases, Bool-cases, inl, inr,
}
use embyr.Base.Int.{ℤ, eqb_ℤ}
use embyr.Store.{Document, DocChange, DocChangeKind, upserted, deleted}
use embyr.Proto.{ProtoDocument, Float64, Protobuf}
use embyr.Codec.Documents.{store_to_proto}
use embyr.Sqlite.Adapter.{Adapter}
use embyr.Sqlite.Refine.{view}
use embyr.Server.Listen.Messages.{TargetInfo}
use embyr.Server.Listen.Changes.{
  matches, passes, forward_decoded, forward_read, forward, notify_target, fan_out,
}
use embyr.Server.Listen.Snapshot.Read.{
  proto_of, read_result, get_document-view, view-path, store_to_proto-name,
}
use embyr.Server.Listen.Watch.{Agrees, Watcher, AreOther, Watches}
use embyr.Server.Listen.View.{Leads, Leads-follow}

module _ (id : ℤ) (path : String) (f : Float64) (pb : Protobuf) (a : Adapter) where
  -- What is sent about another target or another path.
  forward_decoded-off :
      (ti : TargetInfo) (d : Document) (v : Option ProtoDocument)
      → (eqb_ℤ ti.target_id id && str_eq d.path path) ≡ false
      → Leads id path v (forward_decoded f pb ti (store_to_proto pb d)) v
  forward_decoded-off ti d v off = elim (Option-cases (store_to_proto pb d)) [
    | inl e ↦ rw e (unfold forward_decoded in record { shows = λ k. absurd cc })
    | inr (p, e) ↦ elim (Bool-cases (passes f pb ti.query p.fields)) [
      | inl pass ↦ rw e (
          unfold forward_decoded in
          rw pass (record { shows = λ k. rw (store_to_proto-name pb d p e, off) refl }))
      | inr skip ↦ rw e (unfold forward_decoded in rw skip (record { shows = λ k. refl }))
    ]
  ]

  forward_read-off :
      (ti : TargetInfo) (o : Option Document) (v : Option ProtoDocument)
      → ((d : Document) → o ≡ some d → (eqb_ℤ ti.target_id id && str_eq d.path path) ≡ false)
      → Leads id path v (forward_read f pb ti (read_result o)) v
  unfolding forward_read
  forward_read-off ti none v off = record { shows = λ k. refl }
  forward_read-off ti (some d) v off = forward_decoded-off ti d v (off d refl)

  forward-off :
      (kind : DocChangeKind) (p : String) (ti : TargetInfo) (v : Option ProtoDocument)
      → (eqb_ℤ ti.target_id id && str_eq p path) ≡ false
      → Leads id path v (forward f pb a kind p ti) v
  unfolding forward
  forward-off deleted p ti v off = record { shows = λ k. rw off refl }
  forward-off upserted p ti v off =
      rw (get_document-view p a)
        (forward_read-off ti (view a.documents p) v (λ d e. rw (view-path p a.documents d e) off))

  notify_target-off :
      (c : DocChange) (ti : TargetInfo) (v : Option ProtoDocument)
      → (eqb_ℤ ti.target_id id && str_eq c.path path) ≡ false
      → Leads id path v (notify_target f pb a c ti) v
  notify_target-off c ti v off =
      elim (Bool-cases (matches c ti.parent ti.collection_id ti.doc_paths)) [
        | inl pass ↦ unfold notify_target in rw pass (forward-off c.kind c.path ti v off)
        | inr skip ↦ unfold notify_target in rw skip (record { shows = λ k. refl })
      ]

  -- What is sent about the path, for a target of documents.
  forward_decoded-own :
      (ti : TargetInfo) (d : Document) (v : Option ProtoDocument)
      → eqb_ℤ ti.target_id id ≡ true
      → ti.query ≡ none
      → d.path ≡ path
      → Leads id path v (forward_decoded f pb ti (store_to_proto pb d)) (store_to_proto pb d)
  forward_decoded-own ti d v own plain at = elim (Option-cases (store_to_proto pb d)) [
    | inl e ↦ rw e (unfold forward_decoded in record { shows = λ k. absurd cc })
    | inr (p, e) ↦ rw e (
        unfold forward_decoded passes in
        rw (plain, passes)
          (record { shows = λ k. rw (own, store_to_proto-name pb d p e, at, eq_refl path) refl }))
  ]

  forward-own :
      (kind : DocChangeKind) (ti : TargetInfo) (v : Option ProtoDocument)
      → eqb_ℤ ti.target_id id ≡ true
      → ti.query ≡ none
      → Agrees kind (view a.documents path)
      → Leads id path v (forward f pb a kind path ti) (proto_of pb (view a.documents path))
  unfolding forward
  forward-own deleted ti v own plain gone =
      rw gone (record { shows = λ k. rw (own, eq_refl path) refl })
  forward-own upserted ti v own plain (d, e) =
      rw (get_document-view path a, e)
        (unfold forward_read in
          forward_decoded-own ti d v own plain (view-path path a.documents d e))

module _ (id : ℤ) (path : String) (f : Float64) (pb : Protobuf) (a : Adapter) (c : DocChange) where
  pub fan_out-off :
      (targets : List TargetInfo) (v : Option ProtoDocument)
      → str_eq c.path path ≡ false
      → Leads id path v (fan_out f pb a c targets) v
  unfolding fan_out
  fan_out-off [] v off = record { shows = λ k. refl }
  fan_out-off (ti ∷ targets) v off =
      Leads-follow id path _ _ (notify_target-off id path f pb a c ti v (and_false _ off))
        (fan_out-off targets v off)
    where
      and_false : (b : Bool) {e : Bool} → e ≡ false → (b && e) ≡ false
      and_false true h = h
      and_false false h = refl

  fan_out-other :
      (targets : List TargetInfo) (v : Option ProtoDocument)
      → AreOther id targets
      → Leads id path v (fan_out f pb a c targets) v
  unfolding fan_out
  fan_out-other [] v h = record { shows = λ k. refl }
  fan_out-other (ti ∷ targets) v (off, h) =
      Leads-follow id path _ _ (notify_target-off id path f pb a c ti v (rw off refl))
        (fan_out-other targets v h)

  notify_target-own :
      (ti : TargetInfo) (v : Option ProtoDocument)
      → Watcher id path ti
      → c.path ≡ path
      → Agrees c.kind (view a.documents path)
      → Leads id path v (notify_target f pb a c ti) (proto_of pb (view a.documents path))
  notify_target-own ti v w at agrees =
      unfold notify_target in
      rw (listed ti.doc_paths (rw at w.listed), at)
        (forward-own id path f pb a c.kind ti v w.own w.plain agrees)
    where
      listed :
          (paths : List String)
          → any (λ p. str_eq p c.path) paths ≡ true
          → matches c ti.parent ti.collection_id paths ≡ true
      listed [] h = absurd cc
      listed (p ∷ paths) h = unfold matches in h

  pub fan_out-own :
      (targets : List TargetInfo) (v : Option ProtoDocument)
      → Watches id path targets
      → c.path ≡ path
      → Agrees c.kind (view a.documents path)
      → Leads id path v (fan_out f pb a c targets) (proto_of pb (view a.documents path))
  unfolding fan_out
  fan_out-own [] v w at agrees = absurd w
  fan_out-own (ti ∷ targets) v (inl (w, rest)) at agrees =
      Leads-follow id path _ _ (notify_target-own ti v w at agrees) (fan_out-other targets _ rest)
  fan_out-own (ti ∷ targets) v (inr (off, w)) at agrees =
      Leads-follow id path _ _ (notify_target-off id path f pb a c ti v (rw off refl))
        (fan_out-own targets v w at agrees)
