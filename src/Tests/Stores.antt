-- ===== src/Tests/Stores.antt =====
-- Paths and page tokens at concrete inputs.
use embyr.Base.{◌≡◌, ◌≢◌, [], refl, arith}
use embyr.Text.{slash, split_on}
use embyr.Text.Split.{IsFree}
use embyr.Store.Page.{encode_page_token, decode_page_token, decode-encode_page_token}
use embyr.Store.Path.{parse_path, build_path, index_of}
use embyr.Store.Path.Laws.{parse_path-build_path, IsParent}

users-IsParent : IsParent "projects/p/databases/d/documents"
unfolding index_of split_on
users-IsParent = (4, refl, refl)

IsFree-users : IsFree slash "users"
IsFree-users = ground arith

IsFree-ada : IsFree slash "ada"
IsFree-ada = ground arith

parse_path-build_path_example :
    parse_path (build_path "projects/p/databases/d/documents" "users" "ada")
    ≡ ("users", "projects/p/databases/d/documents")
parse_path-build_path_example =
    parse_path-build_path "projects/p/databases/d/documents" "users" "ada" users-IsParent
      IsFree-users IsFree-ada

decode-encode_page_token_example :
    (decode_page_token (encode_page_token 300) ≡ 300) × (encode_page_token 300 ≢ [])
decode-encode_page_token_example = decode-encode_page_token 300 (omega arith)
