-- ===== src/Server/Documents/Laws.antt =====
-- An update with a mask, from the current document to the stored one.
use embyr.Base.{
  ℕ, ◌+◌, String, false, List, ◌∷◌, Option, none, some, ◌≡◌, ◌≢◌, refl, sym, ◌∙◌, ap, subst, str_eq,
  eq_refl, Option-cases, inl, inr,
}
use embyr.Base.Result.{Result, ok, err}
use embyr.Store.{Document, WriteMode, upsert, update, insert_only}
use embyr.Proto.{Fields, ProtoDocument, Protobuf}
use embyr.Codec.Documents.{proto_to_store, decode_fields, store_to_proto}
use embyr.Sqlite.Table.{Row, document_of, find_row}
use embyr.Sqlite.Table.Laws.{find_row-path}
use embyr.Sqlite.Adapter as Adapter
use embyr.Sqlite.Adapter.{Adapter, or_time}
use embyr.Sqlite.Refine.{view, apply, some_result, Meets, view-none, view-some}
use embyr.Sqlite.Refine.Run.{apply-Meets}
use embyr.Sqlite.Spec.{write, accept}
use embyr.Server.Mask.{apply_mask}
use embyr.Server.Writes.{Precondition, mode_of}
use embyr.Server.Documents.{reply, merge, masked, store_masked, update_document}

some_eq : {d e : Document} → ◌≡◌ {A = Option Document} (some d) (some e) → d ≡ e
some_eq h = cc

get_document-found :
    (path : String) (a : Adapter) (q : Row)
    → find_row path a.documents ≡ some q
    → (Adapter.get_document path a).0 ≡ ok (document_of q)
get_document-found path a q e = unfold Adapter.get_document in rw (e, Adapter.get_document) refl

-- A stored document is what a read returns.
pub get_document-view :
    (path : String) (a : Adapter) (d : Document)
    → view a.documents path ≡ some d
    → (Adapter.get_document path a).0 ≡ ok d
get_document-view path a d h = elim (Option-cases (find_row path a.documents)) [
  | inl e ↦ absurd (none_some (sym (view-none path a.documents e) ∙ h))
  | inr (q, e) ↦
      get_document-found path a q e ∙ ap ok (some_eq (sym (view-some path a.documents e) ∙ h))
]
  where
    none_some : ◌≡◌ {A = Option Document} none (some d) → ⊥
    none_some k = cc

merge_lem :
    (pb : Protobuf) (mask : List String) (mode : WriteMode) (fields curr : Fields) (d : Document)
    → mode ≢ insert_only
    → decode_fields pb d.content ≡ some curr
    → merge pb mask mode fields (ok d) ≡ ok (apply_mask curr fields mask, update)
unfolding merge store_to_proto
merge_lem pb mask upsert fields curr d ne e = rw (e, merge, store_to_proto) refl
merge_lem pb mask update fields curr d ne e = rw (e, merge, store_to_proto) refl
merge_lem pb mask insert_only fields curr d ne e = absurd (ne refl)

-- The fields that an update of a stored document merges, whatever its mode but one.
masked_lem :
    (pb : Protobuf) (mode : WriteMode) (doc : ProtoDocument) (p : String) (paths : List String)
    (a : Adapter) (d : Document) (curr : Fields)
    → mode ≢ insert_only
    → view a.documents doc.name ≡ some d
    → decode_fields pb d.content ≡ some curr
    → masked pb (p ∷ paths) mode doc a ≡ ok (apply_mask curr doc.fields (p ∷ paths), update)
masked_lem pb mode doc p paths a d curr ne h e =
    unfold masked in
    rw (get_document-view doc.name a d h) (merge_lem pb (p ∷ paths) mode doc.fields curr d ne e)

view-path :
    (path : String) (rows : List Row) (d : Document) → view rows path ≡ some d → d.path ≡ path
view-path path rows d h = elim (Option-cases (find_row path rows)) [
  | inl e ↦ absurd (none_some (sym (view-none path rows e) ∙ h))
  | inr (q, e) ↦
      subst (λ x. x.path ≡ path) (some_eq (sym (view-some path rows e) ∙ h))
        (unfold document_of in find_row-path path rows q e)
]
  where
    none_some : ◌≡◌ {A = Option Document} none (some d) → ⊥
    none_some k = cc

some_result-eq : (r : Result Document) (t : Document) → some_result r ≡ ok (some t) → r ≡ ok t
some_result-eq (ok x) t h = cc
some_result-eq (err c) t h = absurd cc

-- The update of a stored document: its result is the next version, which is stored.
update_document-found :
    (now : ℕ) (new d : Document) (a : Adapter)
    → view a.documents new.path ≡ some d
    → (t : Document) × ((Adapter.update_document now new update a).0 ≡ ok t)
      × (view (Adapter.update_document now new update a).1.documents new.path ≡ some t)
      × (t.content ≡ new.content)
      × (t.version ≡ d.version + 1)
      × (t.created_at ≡ d.created_at)
update_document-found now new d a h =
    let t : Document = record d {
      content = new.content;
      updated_at = or_time new.updated_at now;
      version = d.version + 1;
    } in
    let met : Meets (some_result (Adapter.update_document now new update a).0) a
        (Adapter.update_document now new update a).1 (accept t (view a.documents)) =
      unfold apply in rw h at (apply-Meets (write now new update) a) in
    (
      t,
      some_result-eq (Adapter.update_document now new update a).0 t met.result,
      rw (met.documents, view-path new.path a.documents d h, eq_refl new.path) refl,
      refl,
      refl,
      refl,
    )

-- The message of a stored document.
abbrev message : Document → Fields → ProtoDocument
message t fields = record {
  name = t.path;
  fields = fields;
  create_time = t.created_at;
  update_time = t.updated_at;
}

reply-ok :
    (pb : Protobuf) (r : Result Document × Adapter) (t : Document) (fields : Fields)
    → r.0 ≡ ok t
    → decode_fields pb t.content ≡ some fields
    → reply pb r ≡ (ok (message t fields), r.1)
reply-ok pb (ok x, b) t fields h e =
    subst (λ y. reply pb (ok y, b) ≡ (ok (message t fields), b)) (sym (ok_eq h))
      (unfold reply store_to_proto in rw (e, reply, store_to_proto) refl)
  where
    ok_eq : ◌≡◌ {A = Result Document} (ok x) (ok t) → x ≡ t
    ok_eq k = cc
reply-ok pb (err c, b) t fields h e = absurd cc

store_masked-reply :
    (pb : Protobuf) (now : ℕ) (name : String) (fields : Fields) (text : String) (a : Adapter)
    → pb.marshal_fields fields ≡ some text
    → store_masked pb now name (ok (fields, update)) a
      ≡ reply pb (
          Adapter.update_document now
            (record {
              path = name;
              content = text;
              created_at = now;
              updated_at = now;
              version = 1;
            })
            update
            a)
store_masked-reply pb now name fields text a e =
    unfold store_masked proto_to_store in rw (e, store_masked, proto_to_store) refl

-- What an update of the stored document `d` to `fields` answers and leaves.
abbrev pub Updated : String → Document → Fields → String → Result ProtoDocument × Adapter → Type 0
Updated name d fields text r =
    (p : ProtoDocument) × (t : Document) × (r.0 ≡ ok p)
    × (p.fields ≡ fields)
    × (view r.1.documents name ≡ some t)
    × (t.content ≡ text)
    × (t.version ≡ d.version + 1)
    × (t.created_at ≡ d.created_at)

store_masked-Updated :
    (pb : Protobuf) (now : ℕ) (name : String) (fields : Fields) (text : String) (a : Adapter)
    (d : Document)
    → pb.marshal_fields fields ≡ some text
    → decode_fields pb text ≡ some fields
    → view a.documents name ≡ some d
    → Updated name d fields text (store_masked pb now name (ok (fields, update)) a)
store_masked-Updated pb now name fields text a d marshals decodes h =
    let new : Document = record {
      path = name;
      content = text;
      created_at = now;
      updated_at = now;
      version = 1;
    } in
    let (t, e, stored, c, v, cr) = update_document-found now new d a h in
    let answer = reply-ok pb (Adapter.update_document now new update a) t fields e (rw c decodes) in
    rw (store_masked-reply pb now name fields text a marshals, answer)
      (_, t, refl, refl, stored, c, v, cr)

-- `UpdateDocument` with a mask on a stored document, under any precondition but that it must not
-- exist, where the merged fields survive their encoding: the call succeeds and answers with the
-- current fields in which only the masked ones are replaced by the given ones, and that is what
-- is stored, as the document's next version, created when it was.
pub update_document-Updated :
    (pb : Protobuf) (now : ℕ) (doc : ProtoDocument) (p : String) (paths : List String)
    (pre : Option Precondition) (a : Adapter) (d : Document) (curr : Fields) (text : String)
    → str_eq doc.name "" ≡ false
    → mode_of pre ≢ insert_only
    → view a.documents doc.name ≡ some d
    → decode_fields pb d.content ≡ some curr
    → pb.marshal_fields (apply_mask curr doc.fields (p ∷ paths)) ≡ some text
    → decode_fields pb text ≡ some (apply_mask curr doc.fields (p ∷ paths))
    → Updated doc.name d
        (apply_mask curr doc.fields (p ∷ paths))
        text
        (update_document pb now (some doc) (p ∷ paths) pre a)
update_document-Updated pb now doc p paths pre a d curr text named mode stored current marshals
      decodes =
    unfold update_document in
    rw (named, masked_lem pb (mode_of pre) doc p paths a d curr mode stored current)
      (store_masked-Updated pb now doc.name (apply_mask curr doc.fields (p ∷ paths)) text a d
        marshals decodes stored)
