-- ===== src/Server/Mask/Laws.antt =====
-- What a write to one field path does to the others.
use mathlib.Core.List.Memᴰ
use mathlib.Core.List.{Memᴰ}
use mathlib.Core.List.Memᴰ.{head, tail}
use embyr.Base.{
  String, List, [], ◌∷◌, Option, none, some, ◌≡◌, ◌≢◌, ◌⊎◌, inl, inr, refl, sym, ◌∙◌, subst,
  eq_refl, str_eq-ne, All,
}
use embyr.Text.{split_on, dot}
use embyr.Text.Split.{split_on-cons}
use embyr.Proto.{Value, Fields, map}
use embyr.Proto.Dict.{
  lookup, insert, delete, lookup-insert, lookup-delete, fields_of, get_nested_fields,
}
use embyr.Server.Mask.{
  set_or_delete, mask_segments, apply_mask, get_segments, nested_get_value, set_segments,
  nested_set_value,
}

-- Two paths that part at some segment, so that neither is a prefix of the other.
abbrev pub AreApart : List String → List String → Type 0
AreApart [] qs = ⊥
AreApart (p ∷ ps) [] = ⊥
AreApart (p ∷ ps) (q ∷ qs) = (p ≢ q) ⊎ ((p ≡ q) × AreApart ps qs)

lookup-insert_same : (key : String) (v : Value) (m : Fields) → lookup key (insert key v m) ≡ some v
lookup-insert_same key v m = rw (lookup-insert key key v m, eq_refl key) refl

lookup-insert_other :
    (key other : String) (v : Value) (m : Fields)
    → key ≢ other
    → lookup other (insert key v m) ≡ lookup other m
lookup-insert_other key other v m h = rw (lookup-insert key other v m, str_eq-ne key other h) refl

-- A path below the first segment reads in the map there.
nested_same : (s : String) (m fields : Fields) → get_nested_fields s (insert s (map m) fields) ≡ m
unfolding get_nested_fields fields_of
nested_same s m fields = rw (lookup-insert_same s (map m) fields) refl

nested_other :
    (s t : String) (v : Value) (fields : Fields)
    → s ≢ t
    → get_nested_fields t (insert s v fields) ≡ get_nested_fields t fields
unfolding get_nested_fields
nested_other s t v fields h = rw (lookup-insert_other s t v fields h) refl

nested_deleted :
    (s t : String) (fields : Fields)
    → s ≢ t
    → get_nested_fields t (delete s fields) ≡ get_nested_fields t fields
unfolding get_nested_fields
nested_deleted s t fields h = rw (lookup-delete s t fields, str_eq-ne s t h) refl

-- A path whose first segment is another does not see a write to a key.
get_segments-insert :
    (s q : String) (qs : List String) (v : Value) (fields : Fields)
    → s ≢ q
    → get_segments (q ∷ qs) (insert s v fields) ≡ get_segments (q ∷ qs) fields
unfolding get_segments
get_segments-insert s q [] v fields h = lookup-insert_other s q v fields h
get_segments-insert s q (t ∷ ts) v fields h = rw (nested_other s q v fields h) refl

get_segments-delete :
    (s q : String) (qs : List String) (fields : Fields)
    → s ≢ q
    → get_segments (q ∷ qs) (delete s fields) ≡ get_segments (q ∷ qs) fields
unfolding get_segments
get_segments-delete s q [] fields h = rw (lookup-delete s q fields, str_eq-ne s q h) refl
get_segments-delete s q (t ∷ ts) fields h = rw (nested_deleted s q fields h) refl

set_or_delete-apart :
    (p q : String) (qs : List String) (o : Option Value) (fields : Fields)
    → p ≢ q
    → get_segments (q ∷ qs) (set_or_delete p o fields) ≡ get_segments (q ∷ qs) fields
unfolding set_or_delete
set_or_delete-apart p q qs none fields h = get_segments-delete p q qs fields h
set_or_delete-apart p q qs (some v) fields h = get_segments-insert p q qs v fields h

lookup-set_or_delete :
    (p : String) (o : Option Value) (fields : Fields) → lookup p (set_or_delete p o fields) ≡ o
unfolding set_or_delete
lookup-set_or_delete p none fields = rw (lookup-delete p p fields, eq_refl p) refl
lookup-set_or_delete p (some v) fields = lookup-insert_same p v fields

-- A path through a map that was written there, where the path below reads the same in it.
through_map :
    (p q r : String) (qs : List String) (m fields : Fields)
    → p ≡ q
    → get_segments (r ∷ qs) m ≡ get_segments (r ∷ qs) (get_nested_fields p fields)
    → get_segments (q ∷ r ∷ qs) (insert p (map m) fields) ≡ get_segments (q ∷ r ∷ qs) fields
unfolding get_segments
through_map p q r qs m fields e h =
    subst
      (λ s.
        get_segments (r ∷ qs) (get_nested_fields s (insert p (map m) fields))
        ≡ get_segments (r ∷ qs) (get_nested_fields s fields))
      e (rw (nested_same p m fields) h)

pub mask_segments-apart :
    (ps qs : List String) (current incoming : Fields)
    → AreApart ps qs
    → get_segments qs (mask_segments ps current incoming) ≡ get_segments qs current
unfolding mask_segments
mask_segments-apart (p ∷ []) (q ∷ qs) current incoming (inl ne) =
    set_or_delete-apart p q qs (lookup p incoming) current ne
mask_segments-apart (p ∷ t ∷ ps) (q ∷ qs) current incoming (inl ne) =
    get_segments-insert p q qs _ current ne
mask_segments-apart (p ∷ t ∷ ps) (q ∷ r ∷ qs) current incoming (inr (e, apart)) =
    through_map p q r qs _ current e (
      mask_segments-apart (t ∷ ps) (r ∷ qs) (get_nested_fields p current)
        (get_nested_fields p incoming) apart)
mask_segments-apart [] qs current incoming h = absurd h
mask_segments-apart (p ∷ []) [] current incoming h = absurd h
mask_segments-apart (p ∷ []) (q ∷ qs) current incoming (inr (e, h)) = absurd h
mask_segments-apart (p ∷ t ∷ ps) [] current incoming h = absurd h
mask_segments-apart (p ∷ t ∷ ps) (q ∷ []) current incoming (inr (e, h)) = absurd h

pub mask_segments-same :
    (p : String) (ps : List String) (current incoming : Fields)
    → get_segments (p ∷ ps) (mask_segments (p ∷ ps) current incoming)
      ≡ get_segments (p ∷ ps) incoming
unfolding mask_segments get_segments
mask_segments-same p [] current incoming = lookup-set_or_delete p (lookup p incoming) current
mask_segments-same p (t ∷ ts) current incoming =
    rw (nested_same p _ current)
      (mask_segments-same t ts (get_nested_fields p current) (get_nested_fields p incoming))

-- A field whose path parts from every path of the mask is kept as it is.
pub apply_mask-outside :
    (paths : List String) (fp : String) (current incoming : Fields)
    → All (λ p. AreApart (split_on dot p) (split_on dot fp)) paths
    → nested_get_value (apply_mask current incoming paths) fp ≡ nested_get_value current fp
unfolding apply_mask nested_get_value
apply_mask-outside [] fp current incoming h = refl
apply_mask-outside (p ∷ paths) fp current incoming (h, hs) =
    apply_mask-outside paths fp (mask_segments (split_on dot p) current incoming) incoming hs
    ∙ mask_segments-apart (split_on dot p) (split_on dot fp) current incoming h

get-mask_same :
    (fp : String) (current incoming : Fields)
    → nested_get_value (mask_segments (split_on dot fp) current incoming) fp
      ≡ nested_get_value incoming fp
unfolding nested_get_value
get-mask_same fp current incoming =
    let (t, ts, e) = split_on-cons dot fp in rw e (mask_segments-same t ts current incoming)

get-apply_mask_settled :
    (paths : List String) (fp : String) (current incoming : Fields)
    → nested_get_value current fp ≡ nested_get_value incoming fp
    → All (λ p. (p ≡ fp) ⊎ AreApart (split_on dot p) (split_on dot fp)) paths
    → nested_get_value (apply_mask current incoming paths) fp ≡ nested_get_value incoming fp
unfolding apply_mask
get-apply_mask_settled [] fp current incoming done h = done
get-apply_mask_settled (p ∷ paths) fp current incoming done (inl e, hs) =
    get-apply_mask_settled paths fp _ incoming
      (subst
        (λ q.
          nested_get_value (mask_segments (split_on dot q) current incoming) fp
          ≡ nested_get_value incoming fp)
        (sym e) (get-mask_same fp current incoming))
      hs
get-apply_mask_settled (p ∷ paths) fp current incoming done (inr apart, hs) =
    get-apply_mask_settled paths fp _ incoming
      (unfold nested_get_value in
        (mask_segments-apart (split_on dot p) (split_on dot fp) current incoming apart ∙ done))
      hs

-- A path of the mask whose other paths are the same or part from it has the incoming value
-- afterwards, and no value if there is no incoming one.
pub apply_mask-inside :
    (paths : List String) (fp : String) (current incoming : Fields)
    → Memᴰ fp paths
    → All (λ p. (p ≡ fp) ⊎ AreApart (split_on dot p) (split_on dot fp)) paths
    → nested_get_value (apply_mask current incoming paths) fp ≡ nested_get_value incoming fp
unfolding apply_mask
apply_mask-inside [] fp current incoming m h = absurd (Memᴰ.not-nil m)
apply_mask-inside (p ∷ paths) fp current incoming (head e) (h, hs) =
    get-apply_mask_settled paths fp _ incoming
      (subst
        (λ q.
          nested_get_value (mask_segments (split_on dot q) current incoming) fp
          ≡ nested_get_value incoming fp)
        e (get-mask_same fp current incoming))
      hs
apply_mask-inside (p ∷ paths) fp current incoming (tail m) (h, hs) =
    apply_mask-inside paths fp _ incoming m hs

set_segments-apart :
    (ps qs : List String) (v : Value) (fields : Fields)
    → AreApart ps qs
    → get_segments qs (set_segments ps v fields) ≡ get_segments qs fields
unfolding set_segments
set_segments-apart (p ∷ []) (q ∷ qs) v fields (inl ne) = get_segments-insert p q qs v fields ne
set_segments-apart (p ∷ t ∷ ps) (q ∷ qs) v fields (inl ne) = get_segments-insert p q qs _ fields ne
set_segments-apart (p ∷ t ∷ ps) (q ∷ r ∷ qs) v fields (inr (e, apart)) =
    through_map p q r qs _ fields e
      (set_segments-apart (t ∷ ps) (r ∷ qs) v (get_nested_fields p fields) apart)
set_segments-apart [] qs v fields h = absurd h
set_segments-apart (p ∷ []) [] v fields h = absurd h
set_segments-apart (p ∷ []) (q ∷ qs) v fields (inr (e, h)) = absurd h
set_segments-apart (p ∷ t ∷ ps) [] v fields h = absurd h
set_segments-apart (p ∷ t ∷ ps) (q ∷ []) v fields (inr (e, h)) = absurd h

set_segments-same :
    (p : String) (ps : List String) (v : Value) (fields : Fields)
    → get_segments (p ∷ ps) (set_segments (p ∷ ps) v fields) ≡ some v
unfolding set_segments get_segments
set_segments-same p [] v fields = lookup-insert_same p v fields
set_segments-same p (t ∷ ts) v fields =
    rw (nested_same p _ fields) (set_segments-same t ts v (get_nested_fields p fields))

pub nested_set_value-apart :
    (fp other : String) (v : Value) (fields : Fields)
    → AreApart (split_on dot fp) (split_on dot other)
    → nested_get_value (nested_set_value fields fp v) other ≡ nested_get_value fields other
unfolding nested_set_value nested_get_value
nested_set_value-apart fp other v fields h =
    set_segments-apart (split_on dot fp) (split_on dot other) v fields h

pub nested_set_value-same :
    (fp : String) (v : Value) (fields : Fields)
    → nested_get_value (nested_set_value fields fp v) fp ≡ some v
unfolding nested_set_value nested_get_value
nested_set_value-same fp v fields =
    let (t, ts, e) = split_on-cons dot fp in rw e (set_segments-same t ts v fields)
