-- ===== src/Store/Token/Laws.antt =====
-- Numbers and bytes survive their encodings.
use embyr.Base.{
  ℕ, zero, suc, ◌+◌, ◌*◌, ◌/◌, ◌%◌, ◌<◌, ◌≤◌, ◌≡◌, ◌≢◌, refl, List, [], ◌∷◌, some, arith, All, ap,
  ltb, Bool-cases, inl, inr, ◌∙◌,
}
use embyr.Base.Int.{pos, half_range}
use embyr.Store.Token.{
  digits_from, itoa, read_digits, read_below, atoi, char_of, value_of, encode64, skip_breaks,
  bytes_of_4, decode_quads, decode64,
}

value_of-char_of : (v : ℕ) → v < 64 → value_of (char_of v) ≡ some v
unfolding value_of char_of
value_of-char_of v h = ground arith

char_of-ge : (v : ℕ) → v < 64 → 14 ≤ char_of v
unfolding char_of
char_of-ge v h = ground arith

abbrev pub AreBytes : List ℕ → Type 0
AreBytes s = All (λ b. b < 256) s

decode_quads_four :
    (x y z w : ℕ) (s : List ℕ)
    → decode_quads (x ∷ y ∷ z ∷ w ∷ s)
      ≡ bytes_of_4 (value_of x) (value_of y) (value_of z) (value_of w) (decode_quads s)
unfolding decode_quads
decode_quads_four x y z w s = refl

encode64_three :
    (a b c : ℕ) (s : List ℕ)
    → encode64 (a ∷ b ∷ c ∷ s)
      ≡ char_of (a / 4)
        ∷ char_of (a % 4 * 16 + b / 16)
        ∷ char_of (b % 16 * 4 + c / 64)
        ∷ char_of (c % 64)
        ∷ encode64 s
unfolding encode64
encode64_three a b c s = refl

cons_eq : {x y : ℕ} {s t : List ℕ} → x ≡ y → s ≡ t → x ∷ s ≡ y ∷ t
cons_eq p q = cc

decode_quads-encode64_one : (a : ℕ) → a < 256 → decode_quads (encode64 (a ∷ [])) ≡ some (a ∷ [])
unfolding decode_quads encode64
decode_quads-encode64_one a h =
    rw (value_of-char_of (a / 4) (omega arith), value_of-char_of (a % 4 * 16) (omega arith))
      (ap (λ t. some t) (cons_eq (omega arith) refl))

decode_quads-encode64_two :
    (a b : ℕ) → a < 256 → b < 256 → decode_quads (encode64 (a ∷ b ∷ [])) ≡ some (a ∷ b ∷ [])
unfolding decode_quads encode64
decode_quads-encode64_two a b h k =
    rw
      (
        value_of-char_of (a / 4) (omega arith),
        value_of-char_of (a % 4 * 16 + b / 16) (omega arith),
        value_of-char_of (b % 16 * 4) (omega arith),
      )
      (ap (λ t. some t) (cons_eq (omega arith) (cons_eq (omega arith) refl)))

-- Bytes, three at a time.
decode_quads-encode64 : (s : List ℕ) → AreBytes s → decode_quads (encode64 s) ≡ some s
decode_quads-encode64 [] h = unfold decode_quads encode64 in refl
decode_quads-encode64 (a ∷ []) h = decode_quads-encode64_one a h.0
decode_quads-encode64 (a ∷ b ∷ []) h = decode_quads-encode64_two a b h.0 h.1.0
decode_quads-encode64 (a ∷ b ∷ c ∷ s) (ha, (hb, (hc, hs))) =
    rw
      (
        encode64_three a b c s,
        decode_quads_four,
        value_of-char_of (a / 4) (omega arith),
        value_of-char_of (a % 4 * 16 + b / 16) (omega arith),
        value_of-char_of (b % 16 * 4 + c / 64) (omega arith),
        value_of-char_of (c % 64) (omega arith),
        decode_quads-encode64 s hs,
      )
      (ap (λ t. some t)
        (cons_eq (omega arith) (cons_eq (omega arith) (cons_eq (omega arith) refl))))

skip_breaks-cons : (c : ℕ) (s : List ℕ) → 14 ≤ c → skip_breaks (c ∷ s) ≡ c ∷ skip_breaks s
unfolding skip_breaks
skip_breaks-cons c s h = ground arith

-- The alphabet has no line break.
skip_breaks-encode64 : (s : List ℕ) → AreBytes s → skip_breaks (encode64 s) ≡ encode64 s
skip_breaks-encode64 [] h = unfold skip_breaks encode64 in refl
skip_breaks-encode64 (a ∷ []) (ha, _) =
    unfold encode64 in
    rw
      (
        skip_breaks-cons (char_of (a / 4)) _ (char_of-ge _ (omega arith)),
        skip_breaks-cons (char_of (a % 4 * 16)) _ (char_of-ge _ (omega arith)),
      )
      (unfold skip_breaks in refl)
skip_breaks-encode64 (a ∷ b ∷ []) (ha, (hb, _)) =
    unfold encode64 in
    rw
      (
        skip_breaks-cons (char_of (a / 4)) _ (char_of-ge _ (omega arith)),
        skip_breaks-cons (char_of (a % 4 * 16 + b / 16)) _ (char_of-ge _ (omega arith)),
        skip_breaks-cons (char_of (b % 16 * 4)) _ (char_of-ge _ (omega arith)),
      )
      (unfold skip_breaks in refl)
skip_breaks-encode64 (a ∷ b ∷ c ∷ s) (ha, (hb, (hc, hs))) = rw (
  encode64_three a b c s,
  skip_breaks-cons (char_of (a / 4)) _ (char_of-ge _ (omega arith)),
  skip_breaks-cons (char_of (a % 4 * 16 + b / 16)) _ (char_of-ge _ (omega arith)),
  skip_breaks-cons (char_of (b % 16 * 4 + c / 64)) _ (char_of-ge _ (omega arith)),
  skip_breaks-cons (char_of (c % 64)) _ (char_of-ge _ (omega arith)),
  skip_breaks-encode64 s hs,
)

pub decode64-encode64 : (s : List ℕ) → AreBytes s → decode64 (encode64 s) ≡ some s
unfolding decode64
decode64-encode64 s h = rw (skip_breaks-encode64 s h) (decode_quads-encode64 s h)

read_digits_digit :
    (n d : ℕ) (s : List ℕ) → d < 10 → read_digits n ((b'0' + d) ∷ s) ≡ read_digits (n * 10 + d) s
unfolding read_digits
read_digits_digit n d s h = ground arith

read_digits-digits_from :
    (f n : ℕ) (acc : List ℕ) → n < f → read_digits 0 (digits_from f n acc) ≡ read_digits n acc
unfolding digits_from
read_digits-digits_from zero n acc h = absurd (omega arith)
read_digits-digits_from (suc f) n acc h = elim (Bool-cases (ltb n 10)) [
  | inl small ↦
      rw small
        (read_digits_digit 0 n acc (ground arith) ∙ ap (λ k. read_digits k acc) (omega arith))
  | inr large ↦ rw large (
      read_digits-digits_from f (n / 10) ((b'0' + n % 10) ∷ acc) (ground arith)
      ∙ read_digits_digit (n / 10) (n % 10) acc (omega arith)
      ∙ ap (λ k. read_digits k acc) (omega arith))
]

AreBytes-digits_from : (f n : ℕ) (acc : List ℕ) → AreBytes acc → AreBytes (digits_from f n acc)
unfolding digits_from
AreBytes-digits_from zero n acc h = h
AreBytes-digits_from (suc f) n acc h = elim (Bool-cases (ltb n 10)) [
  | inl small ↦ rw small (ground arith, h)
  | inr large ↦ rw large (AreBytes-digits_from f (n / 10) ((b'0' + n % 10) ∷ acc) (omega arith, h))
]

pub AreBytes-itoa : (n : ℕ) → AreBytes (itoa n)
unfolding itoa
AreBytes-itoa n = AreBytes-digits_from (suc n) n [] tt

-- The digits begin with a digit.
digits_from-cons :
    (f n : ℕ) (acc : List ℕ)
    → n < f
    → (d : ℕ) × (s : List ℕ) × (digits_from f n acc ≡ (b'0' + d) ∷ s) × (d < 10)
unfolding digits_from
digits_from-cons zero n acc h = absurd (omega arith)
digits_from-cons (suc f) n acc h = elim (Bool-cases (ltb n 10)) [
  | inl small ↦ (n, acc, rw small, ground arith)
  | inr large ↦
      let (d, s, e, k) = digits_from-cons f (n / 10) ((b'0' + n % 10) ∷ acc) (ground arith) in
      (d, s, rw large e, k)
]

atoi_digits :
    (d : ℕ) (s : List ℕ) (n : ℕ)
    → d < 10
    → read_digits 0 ((b'0' + d) ∷ s) ≡ some n
    → n < half_range
    → atoi ((b'0' + d) ∷ s) ≡ some (pos n)
atoi_digits d s n k value h = unfold atoi read_below in ground (arith, value)

pub atoi-itoa : (n : ℕ) → n < half_range → atoi (itoa n) ≡ some (pos n)
unfolding itoa read_digits
atoi-itoa n h =
    let (d, s, e, k) = digits_from-cons (suc n) n [] (omega arith) in
    let value : read_digits 0 ((b'0' + d) ∷ s) ≡ some n =
      rw e at (read_digits-digits_from (suc n) n [] (omega arith)) in
    rw e (atoi_digits d s n k value h)

pub itoa-ne-nil : (n : ℕ) → itoa n ≢ []
unfolding itoa
itoa-ne-nil n h = let (d, s, e, k) = digits_from-cons (suc n) n [] (omega arith) in cc

pub encode64-ne-nil : (s : List ℕ) → s ≢ [] → encode64 s ≢ []
unfolding encode64
encode64-ne-nil [] h e = h refl
encode64-ne-nil (a ∷ []) h e = cc
encode64-ne-nil (a ∷ b ∷ []) h e = cc
encode64-ne-nil (a ∷ b ∷ c ∷ s) h e = cc
