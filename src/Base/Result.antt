-- ===== src/Base/Result.antt =====
-- Results with a gRPC status code, and computations over a state that may fail. An error that
-- the program makes with `fmt.Errorf` has no status, which gRPC reports as `unknown`.
use mathlib.Core.Path.{◌≡◌, refl}
use mathlib.Core.Logic.{◌⊎◌, inl, inr}

pub data Code : Type 0 where
  invalid_argument not_found already_exists failed_precondition aborted : Code
  unimplemented internal unauthenticated canceled unknown : Code

pub data Result {ℓ} (A : Type ℓ) : Type ℓ where
  ok : A → Result A
  err : Code → Result A

-- A call that changes a state of type `S`. The state comes back after an error too: what was
-- written stays written, unless the caller undoes it.
abbrev pub Action : Type 0 → Type 0 → Type 0
Action S A = S → Result A × S

module _ {S : Type 0} where
  infixl 5 ◌>>=◌ ◌>>◌
  abbrev pub ◌>>=◌ : {A B : Type 0} → Action S A → (A → Action S B) → Action S B
  ◌>>=◌ m f s = let (r, s') = m s in elim r [ ok a ↦ f a s' | err e ↦ (err e, s') ]

  abbrev pub ◌>>◌ : {A B : Type 0} → Action S A → Action S B → Action S B
  m >> k = m >>= λ _. k

  abbrev pub pure : {A : Type 0} → A → Action S A
  pure a s = (ok a, s)

  abbrev pub raise : {A : Type 0} → Code → Action S A
  raise e s = (err e, s)

abbrev pub IsOk {ℓ} : {A : Type ℓ} → Result A → Type 0
IsOk (ok _) = Unit
IsOk (err _) = ⊥

-- What a successful chain has done: its first part succeeded, and the rest went on from there.
pub >>=-eq-ok :
    {S A B : Type 0} (m : Action S A) (f : A → Action S B) (s : S) {b : B} {t : S}
    → (m >>= f) s ≡ (ok b, t)
    → (a : A) × (u : S) × (m s ≡ (ok a, u)) × (f a u ≡ (ok b, t))
>>=-eq-ok {S} {A} {B} m f s {b} {t} h = split (m s) refl h
  where
    split :
        (r : Result A × S)
        → m s ≡ r
        → elim r.0 as (λ _. Result B × S) [ ok a ↦ f a r.1 | err e ↦ (err e, r.1) ] ≡ (ok b, t)
        → (a : A) × (u : S) × (m s ≡ (ok a, u)) × (f a u ≡ (ok b, t))
    split (ok a, u) e k = (a, u, e, k)
    split (err c, u) e k = cc

-- Splits a result and keeps the equation.
pub Result-cases {ℓ} :
    {A : Type ℓ} (r : Result A) → ((c : Code) × (r ≡ err c)) ⊎ ((a : A) × (r ≡ ok a))
Result-cases (ok a) = inr (a, refl)
Result-cases (err c) = inl (c, refl)
