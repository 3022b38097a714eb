-- ===== src/Server/Listen/Snapshot/Own.antt =====
-- The snapshot of a target of documents brings the stored ones into view.
use embyr.Base.{
  ℕ, String, true, false, List, [], ◌∷◌, Option, none, some, ◌≡◌, ◌⊎◌, subst, refl, any, str_eq,
  eq_refl, str_eq-cases, Option-cases, inl, inr,
}
use embyr.Base.Int.{ℤ, eqb_ℤ}
use embyr.Store.{Document, Query}
use embyr.Proto.{ProtoDocument, Protobuf}
use embyr.Codec.Documents.{store_to_proto}
use embyr.Sqlite.Table.{Row}
use embyr.Sqlite.Adapter.{Adapter, get_document}
use embyr.Sqlite.Paging.{Statement}
use embyr.Sqlite.Refine.{view}
use embyr.Server.Listen.Messages.{TargetInfo}
use embyr.Server.Listen.Snapshot.{
  send_decoded, send_read, send_paths, open_snapshot, seal_snapshot, send_contents,
  deliver_snapshot,
}
use embyr.Server.Listen.View.{Leads, Leads-follow}
use embyr.Server.Listen.Snapshot.Read.{
  proto_of, read_result, get_document-view, view-path, store_to_proto-name,
}

-- What is sent for the target itself.
module _ (id : ℤ) (path : String) (i : ℤ) (own : eqb_ℤ i id ≡ true) (pb : Protobuf) where
  -- What the client shows after a read of the path.
  abbrev after_read : Option Document → Option ProtoDocument → Option ProtoDocument
  after_read none v = v
  after_read (some d) v = store_to_proto pb d

  send_decoded-own :
      (d : Document) (v : Option ProtoDocument)
      → d.path ≡ path
      → Leads id path v (send_decoded i (store_to_proto pb d)) (store_to_proto pb d)
  send_decoded-own d v at = elim (Option-cases (store_to_proto pb d)) [
    | inl e ↦ rw e (unfold send_decoded in record { shows = λ k. absurd cc })
    | inr (p, e) ↦ rw e (
        unfold send_decoded in
        record { shows = λ k. rw (own, store_to_proto-name pb d p e, at, eq_refl path) refl })
  ]

  send_read-own :
      (o : Option Document) (v : Option ProtoDocument)
      → ((d : Document) → o ≡ some d → d.path ≡ path)
      → Leads id path v (send_read pb i (read_result o)) (after_read o v)
  send_read-own none v at = unfold send_read in record { shows = λ k. refl }
  send_read-own (some d) v at = unfold send_read in send_decoded-own d v (at d refl)

  send_read-elsewhere :
      (o : Option Document) (v : Option ProtoDocument)
      → ((d : Document) → o ≡ some d → str_eq d.path path ≡ false)
      → Leads id path v (send_read pb i (read_result o)) v
  send_read-elsewhere none v at = unfold send_read in record { shows = λ k. refl }
  send_read-elsewhere (some d) v at = elim (Option-cases (store_to_proto pb d)) [
    | inl e ↦ unfold send_read in rw e (unfold send_decoded in record { shows = λ k. absurd cc })
    | inr (p, e) ↦
        unfold send_read in
        rw e (
          unfold send_decoded in
          record { shows = λ k. rw (own, store_to_proto-name pb d p e, at d refl) refl })
  ]

  after_read-proto_of :
      (o : Option Document) (v : Option ProtoDocument)
      → (v ≡ none) ⊎ (v ≡ proto_of pb o)
      → after_read o v ≡ proto_of pb o
  after_read-proto_of none v (inl h) = h
  after_read-proto_of none v (inr h) = h
  after_read-proto_of (some d) v h = refl

  module _ (a : Adapter) where
    abbrev stored : Option ProtoDocument
    stored = proto_of pb (view a.documents path)

    read_here :
        (p : String) (v : Option ProtoDocument)
        → p ≡ path
        → (v ≡ none) ⊎ (v ≡ stored)
        → Leads id path v (send_read pb i (get_document p a).0) stored
    read_here p v at h =
        rw (at, get_document-view path a)
          (subst (λ w. Leads id path v (send_read pb i (read_result (view a.documents path))) w)
            (after_read-proto_of (view a.documents path) v h)
            (send_read-own (view a.documents path) v (view-path path a.documents)))

    read_elsewhere :
        (p : String) (v : Option ProtoDocument)
        → str_eq p path ≡ false
        → Leads id path v (send_read pb i (get_document p a).0) v
    read_elsewhere p v off =
        rw (get_document-view p a)
          (send_read-elsewhere (view a.documents p) v (λ d e. rw (view-path p a.documents d e) off))

    -- Reads keep what is stored in view.
    send_paths-kept :
        (paths : List String) (v : Option ProtoDocument)
        → v ≡ stored
        → Leads id path v (send_paths pb i a paths) stored
    unfolding send_paths
    send_paths-kept [] v h = record { shows = λ k. h }
    send_paths-kept (p ∷ paths) v h =
        let rest = send_paths-kept paths in
        elim (str_eq-cases p path) [
          | inl (_, at) ↦ Leads-follow id path _ _ (read_here p v at (inr h)) (rest stored refl)
          | inr (off, _) ↦ Leads-follow id path _ _ (read_elsewhere p v off) (rest v h)
        ]

    -- Reads of some paths with the path among them bring it into view.
    send_paths-found :
        (paths : List String)
        → any (λ p. str_eq p path) paths ≡ true
        → Leads id path none (send_paths pb i a paths) stored
    unfolding send_paths
    send_paths-found [] h = absurd cc
    send_paths-found (p ∷ paths) h =
        let rest = send_paths-found paths in
        elim (str_eq-cases p path) [
          | inl (_, at) ↦
              Leads-follow id path _ _ (read_here p none at (inl refl))
                (send_paths-kept paths stored refl)
          | inr (off, _) ↦ Leads-follow id path _ _ (read_elsewhere p none off) (rest (rw off at h))
        ]

    pub deliver_snapshot-own :
        (select : Statement → List Row → List Document) (fuel : ℕ) (ti : TargetInfo)
        (v : Option ProtoDocument)
        → ti.target_id ≡ i
        → any (λ p. str_eq p path) ti.doc_paths ≡ true
        → Leads id path v (deliver_snapshot select pb fuel a ti) stored
    unfolding deliver_snapshot
    deliver_snapshot-own select fuel ti v at listed = rw at (
        Leads-follow id path _ _ opened
          (Leads-follow id path _ _ (contents ti.doc_paths ti.query listed) sealed))
      where
        opened : Leads id path v (open_snapshot i) none
        opened = unfold open_snapshot in record { shows = λ e. rw own refl }

        contents :
            (paths : List String) (q : Option Query)
            → any (λ p. str_eq p path) paths ≡ true
            → Leads id path none (send_contents select pb fuel i paths q a) stored
        contents [] q h = absurd cc
        contents (p ∷ paths) q h = unfold send_contents in send_paths-found (p ∷ paths) h

        sealed : Leads id path stored (seal_snapshot i) stored
        sealed = unfold seal_snapshot in record { shows = λ e. refl }
