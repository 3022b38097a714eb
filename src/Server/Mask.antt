-- ===== src/Server/Mask.antt =====
-- Field masks and field paths of internal/server/handlers.go: `applyMask`, `nestedGetValue` and
-- `nestedSetValue`. A path is cut at its dots; a map that is absent is an empty one, and a clone
-- of a map is the map. No entry of a map is a nil value.
pub mod Laws
use Prim.Native.Char.{Char}
use embyr.Base.{String, List, [], ◌∷◌, Option, none, some}
use embyr.Text.{split_on, dot}
use embyr.Proto.{Value, Fields, end, map}
use embyr.Proto.Dict.{lookup, insert, delete, get_nested_fields}

-- The key as it is in the incoming fields.
unfoldable pub set_or_delete : String → Option Value → Fields → Fields
unfolding insert delete
set_or_delete s (some v) fields = insert s v fields
set_or_delete s none fields = delete s fields

-- One path of a mask: the last segment is replaced by the incoming value, or deleted where there
-- is none; each segment before it becomes a map.
unfoldable pub mask_segments : List String → Fields → Fields → Fields
unfolding lookup insert set_or_delete get_nested_fields
mask_segments [] current incoming = current
mask_segments (s ∷ []) current incoming = set_or_delete s (lookup s incoming) current
mask_segments (s ∷ t ∷ ts) current incoming =
    insert s
      (map (mask_segments (t ∷ ts) (get_nested_fields s current) (get_nested_fields s incoming)))
      current

unfoldable pub apply_mask : Fields → Fields → List String → Fields
unfolding mask_segments split_on
apply_mask current incoming [] = current
apply_mask current incoming (fp ∷ paths) =
    apply_mask (mask_segments (split_on dot fp) current incoming) incoming paths

unfoldable pub get_segments : List String → Fields → Option Value
unfolding lookup get_nested_fields
get_segments [] fields = none
get_segments (s ∷ []) fields = lookup s fields
get_segments (s ∷ t ∷ ts) fields = get_segments (t ∷ ts) (get_nested_fields s fields)

unfoldable pub nested_get_value : Fields → String → Option Value
unfolding get_segments split_on
nested_get_value fields fp = get_segments (split_on dot fp) fields

unfoldable pub set_segments : List String → Value → Fields → Fields
unfolding insert get_nested_fields
set_segments [] v fields = fields
set_segments (s ∷ []) v fields = insert s v fields
set_segments (s ∷ t ∷ ts) v fields =
    insert s (map (set_segments (t ∷ ts) v (get_nested_fields s fields))) fields

unfoldable pub nested_set_value : Fields → String → Value → Fields
unfolding set_segments split_on
nested_set_value fields fp v = set_segments (split_on dot fp) v fields
