-- ===== src/Server/Listen/Watch.antt =====
-- When a target of a Listen stream (internal/server/listen.go) watches a path, and what keeps it.
use embyr.Base.{
  String, true, false, List, [], ◌∷◌, Option, none, some, ◌≡◌, refl, ap, sym, ◌∙◌, any, str_eq, ◌⊎◌,
  inl, inr, Bool-cases,
}
use embyr.Base.Int.{ℤ, pos, eqb_ℤ, eqb_ℤ_iff}
use embyr.Base.Result.{Result, ok, err}
use embyr.Proto.{Protobuf}
use embyr.Codec.Query.{query_from_structured_query}
use embyr.Store.{Query, Document, DocChangeKind, upserted, deleted}
use embyr.Server.Listen.Messages.{TargetInfo}
use embyr.Server.Listen.Stream.{
  delete_target, put_target, query_target, structured_target, target_info, TargetType, no_type,
  documents, query,
}

-- What the kind of a change says of the document that is stored.
abbrev pub Agrees : DocChangeKind → Option Document → Type 0
Agrees deleted o = o ≡ none
Agrees upserted o = (d : Document) × (o ≡ some d)

-- A target of documents with the path among its paths.
pub record Watcher (id : ℤ) (path : String) (ti : TargetInfo) : Type 0 where
  pub own : eqb_ℤ ti.target_id id ≡ true
  pub plain : ti.query ≡ none
  pub listed : any (λ p. str_eq p path) ti.doc_paths ≡ true

abbrev pub AreOther : ℤ → List TargetInfo → Type 0
AreOther id [] = Unit
AreOther id (ti ∷ targets) = (eqb_ℤ ti.target_id id ≡ false) × AreOther id targets

-- The target `id` is there, once, and watches the path.
abbrev pub Watches : ℤ → String → List TargetInfo → Type 0
Watches id path [] = ⊥
Watches id path (ti ∷ targets) =
    (Watcher id path ti × AreOther id targets)
    ⊎ ((eqb_ℤ ti.target_id id ≡ false) × Watches id path targets)

AreOther-delete_target :
    (id i : ℤ) (targets : List TargetInfo)
    → AreOther id targets
    → AreOther id (delete_target i targets)
unfolding delete_target
AreOther-delete_target id i [] h = tt
AreOther-delete_target id i (ti ∷ targets) (off, h) =
    let rest = AreOther-delete_target id i targets h in
    elim (Bool-cases (eqb_ℤ ti.target_id i)) [
      | inl gone ↦ rw gone rest
      | inr kept ↦ rw kept (off, rest)
    ]

-- So does one that is removed.
pub Watches-delete_target :
    (id i : ℤ) (path : String) (targets : List TargetInfo)
    → eqb_ℤ i id ≡ false
    → Watches id path targets
    → Watches id path (delete_target i targets)
unfolding delete_target
Watches-delete_target id i path [] other w = w
Watches-delete_target id i path (ti ∷ targets) other (inl (w, rest)) =
    rw (distinct ti.target_id w.own) (inl (w, AreOther-delete_target id i targets rest))
  where
    distinct : (k : ℤ) → eqb_ℤ k id ≡ true → eqb_ℤ k i ≡ false
    distinct k own = elim (Bool-cases (eqb_ℤ k i)) [
      | inl same ↦
          let e = (eqb_ℤ_iff i id).1 (sym ((eqb_ℤ_iff k i).0 same) ∙ (eqb_ℤ_iff k id).0 own) in
          absurd cc
      | inr apart ↦ apart
    ]
Watches-delete_target id i path (ti ∷ targets) other (inr (off, w)) =
    let rest = Watches-delete_target id i path targets other w in
    elim (Bool-cases (eqb_ℤ ti.target_id i)) [
      | inl gone ↦ rw gone rest
      | inr kept ↦ rw kept (inr (off, rest))
    ]

-- Another target that is entered leaves the watch.
pub Watches-put_target :
    (id : ℤ) (path : String) (ti : TargetInfo) (targets : List TargetInfo)
    → eqb_ℤ ti.target_id id ≡ false
    → Watches id path targets
    → Watches id path (put_target ti targets)
unfolding put_target
Watches-put_target id path ti targets other w =
    inr (other, Watches-delete_target id ti.target_id path targets other w)

AreOther-deleted : (id : ℤ) (targets : List TargetInfo) → AreOther id (delete_target id targets)
unfolding delete_target
AreOther-deleted id [] = tt
AreOther-deleted id (ti ∷ targets) =
    let rest = AreOther-deleted id targets in
    elim (Bool-cases (eqb_ℤ ti.target_id id)) [
      | inl gone ↦ rw gone rest
      | inr kept ↦ rw kept (kept, rest)
    ]

-- A target of documents that is entered watches its paths.
pub put_target-Watches :
    (path : String) (ti : TargetInfo) (targets : List TargetInfo)
    → ti.query ≡ none
    → any (λ p. str_eq p path) ti.doc_paths ≡ true
    → Watches ti.target_id path (put_target ti targets)
unfolding put_target
put_target-Watches path ti targets plain listed = inl (
  record { own = (eqb_ℤ_iff ti.target_id ti.target_id).1 refl; plain = plain; listed = listed },
  AreOther-deleted ti.target_id targets,
)

abbrev id_or : ℤ → Result TargetInfo → ℤ
id_or i (ok ti) = ti.target_id
id_or i (err e) = i

-- A target has the id that it was requested with.
pub target_info-target_id :
    (pb : Protobuf) (i : ℤ) (t : TargetType) (ti : TargetInfo)
    → target_info pb i t ≡ ok ti
    → ti.target_id ≡ i
unfolding target_info
target_info-target_id pb i no_type ti h = absurd cc
target_info-target_id pb i (documents paths) ti h = sym (ap (id_or i) h)
target_info-target_id pb i (query parent none) ti h = absurd cc
target_info-target_id pb i (query parent (some sq)) ti h = structured sq.from h
  where
    built :
        (from : List String) (r : Result Query)
        → query_target i parent from r ≡ ok ti
        → ti.target_id ≡ i
    built from (err e) k = absurd (unfold query_target in cc)
    built from (ok q) k = unfold query_target in sym (ap (id_or i) k)

    structured :
        (from : List String) → structured_target pb i parent sq from ≡ ok ti → ti.target_id ≡ i
    structured [] k = absurd (unfold structured_target in cc)
    structured (c ∷ cs) k =
        built (c ∷ cs) (query_from_structured_query pb parent sq (pos 300) [])
          (unfold structured_target in k)
