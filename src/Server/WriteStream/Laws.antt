-- ===== src/Server/WriteStream/Laws.antt =====
-- What the batches of a Write stream leave.
use embyr.Base.{ℕ, List, [], ◌∷◌, Option, none, some, ◌≡◌, refl, ap, length}
use embyr.Base.Result.{Code, Result, ok, err}
use embyr.Proto.{Float64, Protobuf}
use embyr.Sqlite.Adapter.{Adapter}
use embyr.Sqlite.Transaction.{settle, with_transaction}
use embyr.Sqlite.Transaction.Laws.{SameTables}
use embyr.Server.Writes.{Write, WriteResult, apply_write_batch}
use embyr.Server.Commit.Laws.{length-apply_write_batch}
use embyr.Server.WriteStream.{
  Received, request, Response, handshake, applied, respond, settle_batch, write_loop, write,
}

-- The requests of some batches, each with the time of its writes.
abbrev pub requests : List (ℕ × List Write) → List Received
requests [] = []
requests ((now, ws) ∷ batches) = request now ws ∷ requests batches

-- Batches that are applied one after the other, up to the first that fails.
pub data Applies (f : Float64) (pb : Protobuf)
    : List (ℕ × List Write) → Adapter → List Response → Option Code → Adapter → Type 0 where
  finished : {a : Adapter} → Applies f pb [] a [] none a
  succeeded :
      {now : ℕ} {ws : List Write} {batches : List (ℕ × List Write)} {a b c : Adapter}
      {results : List WriteResult} {rs : List Response} {e : Option Code}
      → apply_write_batch f pb now ws a ≡ (ok results, b)
      → length results ≡ length ws
      → Applies f pb batches b rs e c
      → Applies f pb ((now, ws) ∷ batches) a (applied now results ∷ rs) e c
  refused :
      {now : ℕ} {ws : List Write} {batches : List (ℕ × List Write)} {a b : Adapter} {e : Code}
      → (apply_write_batch f pb now ws a).0 ≡ err e
      → SameTables b a
      → Applies f pb ((now, ws) ∷ batches) a [] (some e) b

module _ (f : Float64) (pb : Protobuf) where
  apply_next :
      (now : ℕ) (ws : List Write) (batches : List (ℕ × List Write)) (a : Adapter)
      (p : Result (List WriteResult) × Adapter) (rest : List Response × Option Code × Adapter)
      → apply_write_batch f pb now ws a ≡ p
      → Applies f pb batches (settle a p).1 rest.0 rest.1 rest.2
      → let r = settle_batch now (settle a p) rest in
        Applies f pb ((now, ws) ∷ batches) a r.0 r.1 r.2
  unfolding settle settle_batch respond
  apply_next now ws batches a (err e, b) rest h k = refused (ap (λ q. q.0) h) (refl, refl)
  apply_next now ws batches a (ok results, b) (rs, e, c) h k =
      succeeded h (length-apply_write_batch f pb now ws a h) k

  write_loop-Applies :
      (batches : List (ℕ × List Write)) (a : Adapter)
      → let r = write_loop f pb (requests batches) a in Applies f pb batches a r.0 r.1 r.2
  unfolding write_loop with_transaction
  write_loop-Applies [] a = finished
  write_loop-Applies ((now, ws) ∷ batches) a =
      apply_next now ws batches a (apply_write_batch f pb now ws a) _ refl
        (write_loop-Applies batches _)

-- After the handshake the Write stream applies its batches one after the other, each wholly or not
-- at all: a batch that succeeds is answered with one result for each write, and the next one goes
-- on from there; at the first that fails the stream ends with its error, and both tables are as
-- they were before that batch.
pub write-Applies :
    (f : Float64) (pb : Protobuf) (now : ℕ) (ws : List Write) (batches : List (ℕ × List Write))
    (a : Adapter)
    → let r = write f pb (request now ws ∷ requests batches) a in
      (rs : List Response) × (r.0 ≡ handshake ∷ rs) × Applies f pb batches a rs r.1 r.2
unfolding write respond
write-Applies f pb now ws batches a = (_, refl, write_loop-Applies f pb batches a)
