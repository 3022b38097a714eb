-- ===== src/Text/Split.antt =====
-- Splitting and joining at a separator.
use Prim.Native.Char.{Char, code}
use Prim.Native.String.{◌++◌ as str_append}
use text.Mathlib.TextEquality.{Char-path}
use text.Mathlib.TextLemmas.{nil-append, cons-append}
use embyr.Base.{
  String, List, [], ◌∷◌, ◌++◌, ◌≡◌, refl, ◌≢◌, ◌==◌, ==_iff, Bool-cases, inl, inr, arith,
}
use embyr.Text.{grow, split_on, join}

-- The separator does not occur in the text.
abbrev pub IsFree : Char → String → Type 0
IsFree sep String.[] = Unit
IsFree sep (String.◌∷◌ c s) = (code c ≢ code sep) × IsFree sep s

pub split_on-cons :
    (sep : Char) (s : String) → (p : String) × (ps : List String) × (split_on sep s ≡ p ∷ ps)
unfolding split_on
split_on-cons sep String.[] = (String.[], [], refl)
split_on-cons sep (String.◌∷◌ c s) =
    let (p, ps, e) = split_on-cons sep s in
    elim (Bool-cases (code c == code sep)) [
      | inl same ↦ (String.[], split_on sep s, rw same)
      | inr other ↦ (String.◌∷◌ c p, ps, rw (other, e))
    ]

-- A text without the separator is one part.
pub split_on_of_IsFree : (sep : Char) (s : String) → IsFree sep s → split_on sep s ≡ s ∷ []
unfolding split_on
split_on_of_IsFree sep String.[] h = refl
split_on_of_IsFree sep (String.◌∷◌ c s) (ne, h) = ground (arith, split_on_of_IsFree sep s h)

-- A separator between two texts separates their parts.
pub split_on-append :
    (sep : Char) (s t : String)
    → split_on sep (str_append s (String.◌∷◌ sep t)) ≡ split_on sep s ++ split_on sep t
unfolding split_on
split_on-append sep String.[] t = rw nil-append (ground arith)
split_on-append sep (String.◌∷◌ c s) t =
    let (p, ps, e) = split_on-cons sep s in
    rw (cons-append, split_on-append sep s t, e) (ground arith)

join-grow :
    (sep c : Char) (p : String) (ps : List String)
    → join sep (grow c (p ∷ ps)) ≡ String.◌∷◌ c (join sep (p ∷ ps))
unfolding join
join-grow sep c p [] = refl
join-grow sep c p (q ∷ ps) = cons-append _ _ _

join-empty :
    (sep : Char) (p : String) (ps : List String)
    → join sep (String.[] ∷ p ∷ ps) ≡ String.◌∷◌ sep (join sep (p ∷ ps))
unfolding join
join-empty sep p ps = nil-append _

-- Joining the parts of a text gives the text back.
pub join-split_on : (sep : Char) (s : String) → join sep (split_on sep s) ≡ s
unfolding split_on join
join-split_on sep String.[] = refl
join-split_on sep (String.◌∷◌ c s) =
    let (p, ps, e) = split_on-cons sep s in
    let ih : join sep (p ∷ ps) ≡ s = rw e at (join-split_on sep s) in
    elim (Bool-cases (code c == code sep)) [
      | inl same ↦ rw (same, e, join-empty sep p ps, ih, Char-path c sep ((==_iff _ _).0 same))
      | inr other ↦ rw (other, e, join-grow sep c p ps, ih)
    ]
