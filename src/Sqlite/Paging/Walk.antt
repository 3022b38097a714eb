-- ===== src/Sqlite/Paging/Walk.antt =====
-- What a client gets that follows the page tokens of a list to its end.
use embyr.Base.{
  ℕ, zero, suc, ◌+◌, ◌-◌, ◌<◌, Bool, true, false, List, [], ◌∷◌, ◌++◌, Option, none, some, ◌≡◌, ◌≢◌,
  refl, ◌∙◌, ap, arith, length, take, drop, take-drop_page, inl, inr, Bool-cases, ltb, ltb→lt,
  if◌then◌else◌,
}
use embyr.Base.Int.{ℤ, pos, negsuc, half_range}
use embyr.Store.Page.{encode_page_token, decode_page_token, decode-encode_page_token}
use embyr.Sqlite.Paging.{positive_or, page_of}
use embyr.Sqlite.Paging.Laws.{page_of-more, page_of-last}

pub is_last : List ℕ → Bool
is_last [] = true
is_last (c ∷ t) = false

pub then_rest {ℓ} : {A : Type ℓ} → List A → Option (List A) → Option (List A)
then_rest page none = none
then_rest page (some rest) = some (page ++ rest)

-- All pages, from a token on; `none` when the rounds run out.
abbrev pub walk {ℓ} : {A : Type ℓ} → (List ℕ → List A × List ℕ) → ℕ → List ℕ → Option (List A)
unfolding is_last then_rest
walk next zero token = none
walk next (suc fuel) token =
    let rest = walk next fuel (next token).1 in
    if is_last (next token).1 then some (next token).0 else then_rest (next token).0 rest

pub positive_or_pos : (default : ℕ) (n : ℤ) → 0 < default → 0 < positive_or default n
unfolding positive_or
positive_or_pos default (pos zero) h = h
positive_or_pos default (pos (suc n)) h = omega arith
positive_or_pos default (negsuc n) h = h

encode-is_last : (n : ℕ) → n < half_range → is_last (encode_page_token n) ≡ false
encode-is_last n h = nonempty (encode_page_token n) (decode-encode_page_token n h).1
  where
    nonempty : (t : List ℕ) → t ≢ [] → is_last t ≡ false
    nonempty [] e = absurd (e refl)
    nonempty (c ∷ t) e = unfold is_last in refl

module _ {A : Type 0} (size : ℕ) (rows : List A) where
  abbrev pages : List ℕ → List A × List ℕ
  pages token = page_of size (decode_page_token token) rows

  walk-last :
      (fuel : ℕ) (token : List ℕ) (page : List A)
      → pages token ≡ (page, [])
      → walk pages (suc fuel) token ≡ some page
  unfolding walk is_last
  walk-last fuel token page e = rw e refl

  walk-more :
      (fuel : ℕ) (token next : List ℕ) (page rest : List A)
      → pages token ≡ (page, next)
      → is_last next ≡ false
      → walk pages fuel next ≡ some rest
      → walk pages (suc fuel) token ≡ some (page ++ rest)
  unfolding walk then_rest
  walk-more fuel token next page rest e more ih = rw (e, more, ih) refl

  -- From any offset, the pages hold all rows that are left.
  walk-from :
      (fuel offset : ℕ) (token : List ℕ)
      → 0 < size
      → length rows + size < half_range
      → length rows - offset < fuel
      → decode_page_token token ≡ offset
      → walk pages fuel token ≡ some (drop offset rows)
  walk-from zero offset token some_size fits enough at = absurd (omega arith)
  walk-from (suc fuel) offset token some_size fits enough at =
      elim (Bool-cases (ltb (offset + size) (length rows))) [
        | inl more ↦
            let lt = ltb→lt (offset + size) (length rows) more in
            let next = encode_page_token (offset + size) in
            walk-more fuel token next (take size (drop offset rows)) (drop (offset + size) rows)
              (rw at (page_of-more size offset rows lt))
              (encode-is_last (offset + size) (omega arith))
              (walk-from fuel (offset + size) next some_size fits (omega arith)
                (decode-encode_page_token (offset + size) (omega arith)).0)
            ∙ ap (λ l. some l) (take-drop_page size offset (offset + size) rows refl)
        | inr done ↦
            walk-last fuel token (drop offset rows)
              (rw at (page_of-last size offset rows (ground arith)))
      ]

  pub walk_complete :
      (fuel : ℕ)
      → 0 < size
      → length rows + size < half_range
      → length rows < fuel
      → walk pages fuel [] ≡ some rows
  walk_complete fuel some_size fits enough =
      walk-from fuel 0 [] some_size fits (omega arith) (unfold decode_page_token in refl)
