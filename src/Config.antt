-- ===== src/Config.antt =====
-- `Config` and `Validate` of internal/config/config.go, for the settings that other parts read. The
-- numbers of `int` and `time.Duration` are integers.
pub mod Laws
use embyr.Base.{ℕ, String, Bool, true, false, List, ◌||◌, if◌then◌else◌}
use embyr.Base.Int.{ℤ, pos, ltb_ℤ, eqb_ℤ}
use embyr.Base.Result.{Result, ok, err, unknown}

pub record ServerConfig : Type 0 where
  pub grpc_port : ℤ
  pub rest_port : ℤ
  pub tls_cert : String
  pub tls_key : String
  pub allowed_origins : List String

pub record AuthConfig : Type 0 where
  pub mode : String
  pub key : String
  pub google_project_id : String
  pub mtls_ca_cert : String

pub record TransactionConfig : Type 0 where
  pub ttl : ℤ
  pub sweep_interval : ℤ

pub record Config : Type 0 where
  pub server : ServerConfig
  pub auth : AuthConfig
  pub transactions : TransactionConfig

-- A number outside [1, 65535].
unfoldable pub out_of_range : ℤ → Bool
out_of_range port = ltb_ℤ port (pos 1) || ltb_ℤ (pos 65535) port

-- `n <= 0`
unfoldable pub not_positive : ℤ → Bool
not_positive n = ltb_ℤ n (pos 1)

unfoldable pub validate : Config → Result (Unit {0})
unfolding out_of_range not_positive
validate c =
    if out_of_range c.server.grpc_port
    then err unknown
    else if out_of_range c.server.rest_port
    then err unknown
    else if eqb_ℤ c.server.grpc_port c.server.rest_port
    then err unknown
    else if not_positive c.transactions.ttl
    then err unknown
    else if not_positive c.transactions.sweep_interval
    then err unknown
    else ok tt
