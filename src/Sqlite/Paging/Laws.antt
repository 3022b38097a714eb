-- ===== src/Sqlite/Paging/Laws.antt =====
-- A page and its token: what a page holds, and that the pages from an offset make up the rest.
use embyr.Base.{
  ℕ, ◌+◌, ◌-◌, ◌<◌, ◌≤◌, List, [], min, ◌≡◌, arith, ltb, ltb→lt, length, take, drop, length-take,
  length-drop, take-take_le, take_all, Bool-cases, inl, inr,
}
use embyr.Store.Page.{encode_page_token}
use embyr.Sqlite.Paging.{page_of}

module _ {ℓ} {A : Type ℓ} (size offset : ℕ) (rows : List A) where
  fetched_length :
      length (take (size + 1) (drop offset rows)) ≡ min (size + 1) (length rows - offset)
  fetched_length = omega (arith, length-take (size + 1) (drop offset rows), length-drop offset rows)

  -- With rows left over, a page is full and has the token of the next offset.
  pub page_of-more :
      offset + size < length rows
      → page_of size offset rows ≡ (take size (drop offset rows), encode_page_token (offset + size))
  page_of-more h =
      let len = fetched_length in
      unfold page_of in
      ground (arith, len, take-take_le size (size + 1) (drop offset rows) (omega arith))

  -- The last page holds all that is left, and has no token.
  pub page_of-last : length rows ≤ offset + size → page_of size offset rows ≡ (drop offset rows, [])
  page_of-last h =
      let len = fetched_length in
      unfold page_of in
      ground (
        arith,
        len,
        take_all (size + 1) (drop offset rows) (omega (arith, length-drop offset rows)),
      )

  -- Either way, a page holds the rows from its offset, up to its size.
  pub page_of-documents : (page_of size offset rows).0 ≡ take size (drop offset rows)
  page_of-documents = elim (Bool-cases (ltb (offset + size) (length rows))) [
    | inl more ↦ rw (page_of-more (ltb→lt _ _ more))
    | inr last ↦ rw (
      page_of-last (ground arith),
      take_all size (drop offset rows) (ground (arith, length-drop offset rows)),
    )
  ]
