-- ===== src/Server/WriteStream.antt =====
-- The Write stream of internal/server/handlers.go. The stream takes what is sent; its identifiers
-- and tokens, which are texts of the time, are left out.
pub mod Laws
use embyr.Base.{ℕ, List, [], ◌∷◌, Option, none, some}
use embyr.Base.Result.{Code, canceled, unknown, Result, ok, err}
use embyr.Proto.{Float64, Protobuf}
use embyr.Sqlite.Adapter.{Adapter}
use embyr.Sqlite.Transaction.{with_transaction}
use embyr.Server.Writes.{Write, WriteResult, apply_write_batch}

-- What is received: a request, at the time at which its writes are applied, or an error. The list
-- ends with the end of the stream, io.EOF.
pub data Received : Type 0 where
  request : ℕ → List Write → Received
  failed : Code → Received

-- `WriteResponse`, of the handshake or of a batch.
pub data Response : Type 0 where
  handshake : Response
  applied : ℕ → List WriteResult → Response

-- A response in front of those after it.
unfoldable pub respond :
    Response → List Response × Option Code × Adapter → List Response × Option Code × Adapter
respond r (rs, e, a) = (r ∷ rs, e, a)

-- A batch that fails ends the stream.
unfoldable pub settle_batch :
    ℕ
    → Result (List WriteResult) × Adapter
    → List Response × Option Code × Adapter
    → List Response × Option Code × Adapter
unfolding respond
settle_batch now (err e, a) rest = ([], some e, a)
settle_batch now (ok results, a) rest = respond (applied now results) rest

module _ (f : Float64) (pb : Protobuf) where
  unfoldable pub write_loop : List Received → Adapter → List Response × Option Code × Adapter
  unfolding settle_batch apply_write_batch with_transaction
  write_loop [] a = ([], none, a)
  write_loop (failed canceled ∷ more) a = ([], none, a)
  write_loop (failed e ∷ more) a = ([], some e, a)
  write_loop (request now ws ∷ more) a =
      let outcome = with_transaction (apply_write_batch f pb now ws) a in
      let rest = write_loop more outcome.1 in settle_batch now outcome rest

  -- `Write`: the first request is the handshake, whatever it holds. An io.EOF in its place has no
  -- status of its own.
  unfoldable pub write : List Received → Adapter → List Response × Option Code × Adapter
  unfolding write_loop respond
  write [] a = ([], some unknown, a)
  write (failed e ∷ more) a = ([], some e, a)
  write (request now ws ∷ more) a = respond handshake (write_loop more a)
