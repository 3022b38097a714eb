-- ===== src/Server/Writes.antt =====
-- `applyWriteBatch` of internal/server/handlers.go. One reading of the clock, `now`, stands for all
-- those of a request, and `f` and `pb` for float64 arithmetic and the protobuf runtime.
pub mod Laws
use embyr.Base.{
  ℕ, ◌/◌, String, Bool, true, false, not, ◌&&◌, ◌||◌, ◌==◌, List, [], ◌∷◌, Option, none, some,
  str_eq, if◌then◌else◌,
}
use embyr.Base.Result.{
  invalid_argument, failed_precondition, unimplemented, internal, Result, ok, err, Action, ◌>>=◌,
  pure,
}
use embyr.Store.{Document, WriteMode, upsert, update, insert_only}
use embyr.Proto.{Value, Fields, end, field, ProtoDocument, Float64, Protobuf}
use embyr.Codec.Documents.{proto_to_store, decode_fields}
use embyr.Sqlite.Adapter.{
  Adapter, get_document, update_document as adapter_update, delete_document as adapter_delete,
}
use embyr.Server.Mask.{apply_mask}
use embyr.Server.Transforms.{FieldTransform, apply_field_transforms}

-- `Write.Operation`; another operation than an update or a delete is `other`.
pub data Operation : Type 0 where
  update_document : ProtoDocument → Operation
  delete_document : String → Operation
  verify other : Operation

-- `Precondition.ConditionType`
pub data Precondition : Type 0 where
  unset : Precondition
  exists : Bool → Precondition
  update_time : ℕ → Precondition

-- `Write`; an absent mask has no paths.
pub record Write : Type 0 where
  pub operation : Operation
  pub update_mask : List String
  pub update_transforms : List FieldTransform
  pub current_document : Option Precondition

-- `WriteResult`
pub record WriteResult : Type 0 where
  pub update_time : Option ℕ
  pub transform_results : List (Option Value)

unfoldable pub mode_of : Option Precondition → WriteMode
mode_of (some (exists true)) = update
mode_of (some (exists false)) = insert_only
mode_of (some (update_time t)) = update
mode_of _ = upsert

unfoldable pub expected_time : Option Precondition → Option ℕ
expected_time (some (update_time t)) = some t
expected_time _ = none

-- What a delete's precondition demands.
unfoldable pub must_exist : Option Precondition → Bool
must_exist (some (exists b)) = b
must_exist (some (update_time t)) = true
must_exist _ = false

abbrev pub is_nil {ℓ} : {A : Type ℓ} → List A → Bool
is_nil [] = true
is_nil (x ∷ xs) = false

abbrev pub no_fields : Fields → Bool
no_fields end = true
no_fields (field k v m) = false

abbrev pub is_some {ℓ} : {A : Type ℓ} → Option A → Bool
is_some none = false
is_some (some x) = true

unfoldable pub needs_read : Write → Bool
unfolding expected_time
needs_read w =
    not (is_nil w.update_mask)
    || is_some (expected_time w.current_document)
    || not (is_nil w.update_transforms)

abbrev pub found : {A : Type 0} → Result A → Option A
found (ok x) = some x
found (err e) = none

-- The update-time precondition, in microseconds.
unfoldable pub check_time : Option ℕ → Option Document → Result (Unit {0})
check_time none curr = ok tt
check_time (some t) none = err failed_precondition
check_time (some t) (some d) =
    if (d.updated_at / 1000) == (t / 1000) then ok tt else err failed_precondition

-- The fields of the current document; none where it is absent or does not decode.
unfoldable pub current_fields : Protobuf → Option Document → Fields
unfolding decode_fields
current_fields pb none = end
current_fields pb (some d) = elim (decode_fields pb d.content) [ none ↦ end | some m ↦ m ]

-- The transforms of a write, on the current fields where it brings neither fields nor a mask.
unfoldable pub transform_fields :
    Float64 → Protobuf → ℕ → Write → Fields → Fields → Result (Fields × List (Option Value))
unfolding apply_field_transforms
transform_fields f pb now w curr fields =
    if is_nil w.update_transforms
    then ok (fields, [])
    else apply_field_transforms f pb now curr
        (if is_nil w.update_mask && no_fields fields then curr else fields) w.update_transforms

unfoldable pub mask_fields : List String → Fields → Fields → Fields
unfolding apply_mask
mask_fields mask curr fields = if is_nil mask then fields else apply_mask curr fields mask

-- The write to the store.
unfoldable pub store_fields :
    Protobuf → ℕ → String → WriteMode → Fields → List (Option Value) → Action Adapter WriteResult
unfolding proto_to_store adapter_update
store_fields pb now name mode fields results a = elim (proto_to_store pb now name fields 0) [
  | none ↦ (err internal, a)
  | some d ↦
      (do
        stored ← adapter_update now d mode
        pure (record { update_time = some stored.updated_at; transform_results = results }))
        a
]

-- What follows the transforms: the mask and the write.
unfoldable pub finish_update :
    Protobuf
    → ℕ
    → String
    → Write
    → Fields
    → Result (Fields × List (Option Value))
    → Action Adapter WriteResult
unfolding mask_fields mode_of store_fields
finish_update pb now name w curr (err e) a = (err e, a)
finish_update pb now name w curr (ok (fields, results)) a =
    store_fields pb now name (mode_of w.current_document) (mask_fields w.update_mask curr fields)
      results a

-- An update whose current document was read as `curr`.
unfoldable pub update_read :
    Float64 → Protobuf → ℕ → ProtoDocument → Write → Option Document → Action Adapter WriteResult
unfolding check_time expected_time transform_fields current_fields finish_update
update_read f pb now doc w curr a = elim (check_time (expected_time w.current_document) curr) [
  | err e ↦ (err e, a)
  | ok _ ↦
      finish_update pb now doc.name w (current_fields pb curr)
        (transform_fields f pb now w (current_fields pb curr) doc.fields) a
]

unfoldable pub apply_write : Float64 → Protobuf → ℕ → Write → Action Adapter WriteResult
unfolding needs_read get_document update_read must_exist adapter_delete
apply_write f pb now w a = elim w.operation [
  | update_document doc ↦
      if str_eq doc.name ""
      then (err invalid_argument, a)
      else update_read f pb now doc w
          (if needs_read w then found (get_document doc.name a).0 else none) a
  | delete_document path ↦
      if str_eq path ""
      then (err invalid_argument, a)
      else (do
        _ ← adapter_delete path (must_exist w.current_document)
        pure (record { update_time = some now; transform_results = [] }))
          a
  | verify ↦ (ok (record { update_time = some now; transform_results = [] }), a)
  | other ↦ (err unimplemented, a)
]

-- The writes in order; the first error ends the batch.
unfoldable pub apply_write_batch :
    Float64 → Protobuf → ℕ → List Write → Action Adapter (List WriteResult)
unfolding apply_write
apply_write_batch f pb now [] = pure []
apply_write_batch f pb now (w ∷ ws) = do
  r ← apply_write f pb now w
  rs ← apply_write_batch f pb now ws
  pure (r ∷ rs)
