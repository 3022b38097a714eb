-- ===== src/Server/Writes/Laws.antt =====
-- The preconditions of a write.
use embyr.Base.{
  ℕ, ◌/◌, String, true, false, List, [], ◌∷◌, Option, none, some, ◌≡◌, ◌≢◌, inl, inr, refl, arith,
  str_eq, Option-cases, ==_iff,
}
use embyr.Base.Result.{failed_precondition, err}
use embyr.Store.{Document}
use embyr.Proto.{ProtoDocument, Float64, Protobuf}
use embyr.Sqlite.Table.{find_row}
use embyr.Sqlite.Adapter.{Adapter, get_document}
use embyr.Sqlite.Refine.{view}
use embyr.Server.Writes.{
  update_document, update_time, Write, expected_time, needs_read, found, check_time, update_read,
  apply_write,
}
use embyr.Server.Transforms.{FieldTransform}

-- The stored document has another update time, in microseconds, or there is none.
abbrev pub IsStale : ℕ → Option Document → Type 0
IsStale t none = Unit
IsStale t (some d) = (d.updated_at / 1000) ≢ (t / 1000)

check_time-IsStale :
    (t : ℕ) (o : Option Document) → IsStale t o → check_time (some t) o ≡ err failed_precondition
unfolding check_time
check_time-IsStale t none h = refl
check_time-IsStale t (some d) h = ground (arith, ==_iff (d.updated_at / 1000) (t / 1000))

found-view : (path : String) (a : Adapter) → found (get_document path a).0 ≡ view a.documents path
found-view path a = elim (Option-cases (find_row path a.documents)) [
  | inl e ↦ unfold get_document view in rw (e, get_document) refl
  | inr (q, e) ↦ unfold get_document view in rw (e, get_document) refl
]

abbrev guarded : ProtoDocument → List String → List FieldTransform → ℕ → Write
guarded doc mask transforms t = record {
  operation = update_document doc;
  update_mask = mask;
  update_transforms = transforms;
  current_document = some (update_time t);
}

needs_read-guarded :
    (doc : ProtoDocument) (mask : List String) (ts : List FieldTransform) (t : ℕ)
    → needs_read (guarded doc mask ts t) ≡ true
unfolding needs_read expected_time
needs_read-guarded doc [] ts t = refl
needs_read-guarded doc (p ∷ ps) ts t = refl

-- An update with an update-time precondition, whatever its mask and transforms, is refused as a
-- failed precondition and changes nothing where the stored document is missing or its update
-- time is another one in microseconds.
pub apply_write-IsStale :
    (f : Float64) (pb : Protobuf) (now : ℕ) (doc : ProtoDocument) (mask : List String)
    (transforms : List FieldTransform) (t : ℕ) (a : Adapter)
    → str_eq doc.name "" ≡ false
    → IsStale t (view a.documents doc.name)
    → apply_write f pb now
        (record {
          operation = update_document doc;
          update_mask = mask;
          update_transforms = transforms;
          current_document = some (update_time t);
        })
        a
      ≡ (err failed_precondition, a)
apply_write-IsStale f pb now doc mask ts t a named stale =
    unfold apply_write in
    rw (named, needs_read-guarded doc mask ts t, found-view doc.name a)
      (unfold update_read expected_time in
        rw (check_time-IsStale t (view a.documents doc.name) stale, update_read) refl)
