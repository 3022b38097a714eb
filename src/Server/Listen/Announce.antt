-- ===== src/Server/Listen/Announce.antt =====
-- What the calls of a store announce to its subscribers.
use embyr.Base.{
  String, Bool, true, false, [], ◌∷◌, Option, none, some, ◌≡◌, refl, str_eq, ◌⊎◌, inl, inr,
  Bool-cases, eq_refl,
}
use embyr.Base.Result.{Code, invalid_argument, not_found, already_exists}
use embyr.Store.{Document, WriteMode, upsert, update, insert_only, DocChange}
use embyr.Sqlite.Adapter.{or_time}
use embyr.Store.Path.{parse_path}
use embyr.Sqlite.Spec.{
  Model, Outcome, Op, create, write, delete, get, spec, spec_write, spec_delete, spec_get, refuse,
  accept, next_version, change_of, stamped,
}
use embyr.Server.Listen.Watch.{Agrees}

-- What a call announces: nothing, or one change that says what it did to the document.
abbrev pub Announces : Model → Outcome → Type 0
Announces m o =
    ((o.changes ≡ []) × (o.model ≡ m))
    ⊎ ((c : DocChange) × (o.changes ≡ c ∷ [])
        × Agrees c.kind (o.model c.path)
        × ((q : String) → str_eq c.path q ≡ false → o.model q ≡ m q))

refuse-Announces : (c : Code) (m : Model) → Announces m (refuse c m)
refuse-Announces c m = inl (refl, refl)

accept-Announces : (d : Document) (m : Model) → Announces m (accept d m)
accept-Announces d m = inr (change_of d, refl, (d, rw (eq_refl d.path) refl), λ q off. rw off refl)

spec_write-Announces :
    (mode : WriteMode) (d : Document) (old : Option Document) (m : Model)
    → Announces m (spec_write mode d old m)
spec_write-Announces upsert d old m = elim (Bool-cases (str_eq (parse_path d.path).0 "")) [
  | inl bad ↦ rw bad (refuse-Announces invalid_argument m)
  | inr good ↦ rw good (accept-Announces (next_version d old) m)
]
spec_write-Announces update d none m = refuse-Announces not_found m
spec_write-Announces update d (some old) m = accept-Announces (next_version d (some old)) m
spec_write-Announces insert_only d none m = elim (Bool-cases (str_eq (parse_path d.path).0 "")) [
  | inl bad ↦ rw bad (refuse-Announces invalid_argument m)
  | inr good ↦ rw good (accept-Announces (next_version d none) m)
]
spec_write-Announces insert_only d (some old) m =
    elim (Bool-cases (str_eq (parse_path d.path).0 "")) [
      | inl bad ↦ rw bad (refuse-Announces invalid_argument m)
      | inr good ↦ rw good (refuse-Announces already_exists m)
    ]

pub spec-Announces : (op : Op) (m : Model) → Announces m (spec op m)
spec-Announces (create now d) m = spec_write-Announces insert_only (stamped now now d) (m d.path) m
spec-Announces (write now d mode) m =
    spec_write-Announces mode (stamped (or_time d.updated_at now) now d) (m d.path) m
spec-Announces (delete path must) m = removal must (m path)
  where
    removal : (must : Bool) (old : Option Document) → Announces m (spec_delete path must old m)
    removal true none = refuse-Announces not_found m
    removal false none = inl (refl, refl)
    removal must (some old) = inr (_, refl, rw (eq_refl path) refl, λ q off. rw off refl)
spec-Announces (get path) m = reading (m path)
  where
    reading : (old : Option Document) → Announces m (spec_get old m)
    reading none = refuse-Announces not_found m
    reading (some d) = inl (refl, refl)
