-- ===== src/Server/Listen/Snapshot/Other.antt =====
-- The snapshot of one target leaves what a client shows for the others.
use embyr.Base.{
  ℕ, zero, suc, String, false, ◌||◌, List, [], ◌∷◌, Option, none, some, ◌≡◌, refl, Bool-cases, inl,
  inr,
}
use embyr.Base.Int.{ℤ, eqb_ℤ}
use embyr.Base.Result.{Result-cases}
use embyr.Store.{Document, Query}
use embyr.Proto.{ProtoDocument, Protobuf}
use embyr.Codec.Documents.{store_to_proto}
use embyr.Sqlite.Table.{Row}
use embyr.Sqlite.Adapter.{Adapter}
use embyr.Sqlite.Paging.{Statement, query_documents}
use embyr.Sqlite.Refine.{view}
use embyr.Server.RunQuery.{is_empty, is_positive}
use embyr.Server.Listen.Messages.{TargetInfo}
use embyr.Server.Listen.Snapshot.{
  send_decoded, send_documents, send_read, send_paths, next_query, open_snapshot, seal_snapshot,
  send_pages, send_contents, deliver_snapshot,
}
use embyr.Server.Listen.View.{Leads, Leads-follow}
use embyr.Server.Listen.Snapshot.Read.{read_result, get_document-view}
use embyr.Server.Listen.Snapshot.Pages.{send_pages-error, send_pages-last, send_pages-more}

-- What is sent for another target changes nothing.
module _ (id : ℤ) (path : String) (i : ℤ) (other : eqb_ℤ i id ≡ false) (pb : Protobuf) where
  send_decoded-other :
      (o : Option ProtoDocument) (v : Option ProtoDocument) → Leads id path v (send_decoded i o) v
  unfolding send_decoded
  send_decoded-other none v = record { shows = λ e. absurd cc }
  send_decoded-other (some p) v = record { shows = λ e. rw other refl }

  send_documents-other :
      (ds : List Document) (v : Option ProtoDocument) → Leads id path v (send_documents pb i ds) v
  unfolding send_documents
  send_documents-other [] v = record { shows = λ e. refl }
  send_documents-other (d ∷ ds) v =
      Leads-follow id path _ _ (send_decoded-other (store_to_proto pb d) v)
        (send_documents-other ds v)

  send_read-other :
      (o : Option Document) (v : Option ProtoDocument)
      → Leads id path v (send_read pb i (read_result o)) v
  unfolding send_read
  send_read-other none v = record { shows = λ e. refl }
  send_read-other (some d) v = send_decoded-other (store_to_proto pb d) v

  send_paths-other :
      (a : Adapter) (paths : List String) (v : Option ProtoDocument)
      → Leads id path v (send_paths pb i a paths) v
  unfolding send_paths
  send_paths-other a [] v = record { shows = λ e. refl }
  send_paths-other a (p ∷ paths) v = rw (get_document-view p a) (
      Leads-follow id path _ _ (send_read-other (view a.documents p) v)
        (send_paths-other a paths v))

  module _ (select : Statement → List Row → List Document) where
    send_pages-other :
        (fuel : ℕ) (q : Query) (a : Adapter) (v : Option ProtoDocument)
        → Leads id path v (send_pages select pb fuel i q a) v
    send_pages-other zero q a v = unfold send_pages in record { shows = λ e. absurd cc }
    send_pages-other (suc fuel) q a v =
        let rest = λ (token : List ℕ). send_pages-other fuel (next_query q token) a v in
        elim (Result-cases (query_documents select q a)) [
          | inl (c, e) ↦
              rw (send_pages-error select pb fuel i q a c e) (record { shows = λ e. absurd cc })
          | inr (page, e) ↦
              elim (Bool-cases (is_empty page.next_page_token || is_positive q.limit)) [
                | inl last ↦
                    rw (send_pages-last select pb fuel i q a page e last)
                      (send_documents-other page.documents v)
                | inr more ↦ rw (send_pages-more select pb fuel i q a page e more) (
                    Leads-follow id path _ _ (send_documents-other page.documents v)
                      (rest page.next_page_token))
              ]
        ]

    send_contents-other :
        (fuel : ℕ) (paths : List String) (q : Option Query) (a : Adapter) (v : Option ProtoDocument)
        → Leads id path v (send_contents select pb fuel i paths q a) v
    unfolding send_contents
    send_contents-other fuel (p ∷ paths) q a v = send_paths-other a (p ∷ paths) v
    send_contents-other fuel [] none a v = record { shows = λ e. absurd cc }
    send_contents-other fuel [] (some q) a v = send_pages-other fuel q a v

    pub deliver_snapshot-other :
        (fuel : ℕ) (a : Adapter) (ti : TargetInfo) (v : Option ProtoDocument)
        → ti.target_id ≡ i
        → Leads id path v (deliver_snapshot select pb fuel a ti) v
    unfolding deliver_snapshot
    deliver_snapshot-other fuel a ti v at = rw at (
        Leads-follow id path _ _ opened
          (Leads-follow id path _ _ (send_contents-other fuel ti.doc_paths ti.query a v) sealed))
      where
        opened : Leads id path v (open_snapshot i) v
        opened = unfold open_snapshot in record { shows = λ e. rw other refl }

        sealed : Leads id path v (seal_snapshot i) v
        sealed = unfold seal_snapshot in record { shows = λ e. refl }
