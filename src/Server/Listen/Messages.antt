-- ===== src/Server/Listen/Messages.antt =====
-- The targets of a Listen stream and the messages that it sends. Times are left out, since the
-- stream only reports them: of a resume token a message says whether it has one.
use embyr.Base.{String, Bool, List, ◌++◌, Option}
use embyr.Base.Int.{ℤ}
use embyr.Base.Result.{Code}
use embyr.Proto.{ProtoDocument}
use embyr.Store.{Query}

-- `targetInfo`. A target of documents has no query.
pub record TargetInfo : Type 0 where
  pub parent : String
  pub collection_id : String
  pub target_id : ℤ
  pub query : Option Query
  pub doc_paths : List String

pub data TargetChangeType : Type 0 where
  no_change add remove current reset : TargetChangeType

-- `ListenResponse`: a change of targets, with or without a resume token, or of one document.
pub data Response : Type 0 where
  target_change : TargetChangeType → List ℤ → Bool → Response
  document_change : ProtoDocument → ℤ → Response
  document_delete : String → ℤ → Response

-- How a part of the handler ends: it goes on, it returns nil or an error, it dereferences a nil
-- pointer, or the rounds of its loop ran out.
pub data Outcome : Type 0 where
  done closed panicked unfinished : Outcome
  failed : Code → Outcome

-- The messages that a part of the handler sends, which the stream takes, and how it ends.
abbrev pub Sent : Type 0
Sent = List Response × Outcome

unfoldable pub follow : Sent → Sent → Sent
follow (rs, done) (ss, o) = (rs ++ ss, o)
follow (rs, closed) rest = (rs, closed)
follow (rs, panicked) rest = (rs, panicked)
follow (rs, unfinished) rest = (rs, unfinished)
follow (rs, failed e) rest = (rs, failed e)
