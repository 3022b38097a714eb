-- ===== src/Config/Laws.antt =====
-- Which configurations are valid.
use embyr.Base.{
  ◌≤◌, Bool, true, false, ◌≡◌, ◌≢◌, ◌↔◌, refl, arith, Bool-cases, inl, inr, if◌then◌else◌,
}
use embyr.Base.Int.{ℤ, pos, negsuc, eqb_ℤ, eqb_ℤ_iff}
use embyr.Base.Result.{Result, ok, err, unknown}
use embyr.Config.{Config, out_of_range, not_positive, validate}

abbrev pub IsPort : ℤ → Type 0
IsPort (pos n) = (1 ≤ n) × (n ≤ 65535)
IsPort (negsuc n) = ⊥

abbrev pub IsPositive : ℤ → Type 0
IsPositive (pos n) = 1 ≤ n
IsPositive (negsuc n) = ⊥

-- Two different ports, and positive times.
pub record IsValid (c : Config) : Type 0 where
  pub grpc : IsPort c.server.grpc_port
  pub rest : IsPort c.server.rest_port
  pub apart : c.server.grpc_port ≢ c.server.rest_port
  pub ttl : IsPositive c.transactions.ttl
  pub sweep : IsPositive c.transactions.sweep_interval

out_of_range_iff : (p : ℤ) → (out_of_range p ≡ false) ↔ IsPort p
unfolding out_of_range
out_of_range_iff (pos n) = (λ h. ground arith, λ h. ground arith)
out_of_range_iff (negsuc n) = (λ h. ground arith, λ h. ground arith)

not_positive_iff : (p : ℤ) → (not_positive p ≡ false) ↔ IsPositive p
unfolding not_positive
not_positive_iff (pos n) = (λ h. ground arith, λ h. ground arith)
not_positive_iff (negsuc n) = (λ h. ground arith, λ h. ground arith)

-- A test in front of others that refuses.
guard :
    (b : Bool) (r : Result (Unit {0}))
    → (if b then err unknown else r) ≡ ok tt
    → (b ≡ false) × (r ≡ ok tt)
guard true r h = absurd cc
guard false r h = (refl, h)

validate-IsValid : (c : Config) → validate c ≡ ok tt → IsValid c
unfolding validate
validate-IsValid c h =
    let (grpc, h1) = guard (out_of_range c.server.grpc_port) _ h in
    let (rest, h2) = guard (out_of_range c.server.rest_port) _ h1 in
    let (apart, h3) = guard (eqb_ℤ c.server.grpc_port c.server.rest_port) _ h2 in
    let (ttl, h4) = guard (not_positive c.transactions.ttl) _ h3 in
    let (sweep, h5) = guard (not_positive c.transactions.sweep_interval) _ h4 in
    record {
      grpc = (out_of_range_iff _).0 grpc;
      rest = (out_of_range_iff _).0 rest;
      apart = λ e. absurd (let same = (eqb_ℤ_iff c.server.grpc_port c.server.rest_port).1 e in cc);
      ttl = (not_positive_iff _).0 ttl;
      sweep = (not_positive_iff _).0 sweep;
    }

IsValid-validate : (c : Config) → IsValid c → validate c ≡ ok tt
unfolding validate
IsValid-validate c v =
    rw
      (
        (out_of_range_iff c.server.grpc_port).1 v.grpc,
        (out_of_range_iff c.server.rest_port).1 v.rest,
        apart,
        (not_positive_iff c.transactions.ttl).1 v.ttl,
        (not_positive_iff c.transactions.sweep_interval).1 v.sweep,
      )
      refl
  where
    apart : eqb_ℤ c.server.grpc_port c.server.rest_port ≡ false
    apart = elim (Bool-cases (eqb_ℤ c.server.grpc_port c.server.rest_port)) [
      | inl same ↦ absurd (v.apart ((eqb_ℤ_iff _ _).0 same))
      | inr other ↦ other
    ]

-- A configuration passes its validation exactly if both ports are between 1 and 65535 and differ,
-- and the lifetime of transactions and the interval of the sweeps are positive.
pub validate_iff : (c : Config) → (validate c ≡ ok tt) ↔ IsValid c
validate_iff c = (validate-IsValid c, IsValid-validate c)
