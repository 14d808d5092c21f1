-- ===== src/Node/Dial/Escape.antt =====
-- Go's `url.QueryEscape` on texts of bytes, and the decoding of a query that undoes it.
use bitcoinx.Base.{
  ℕ, ◌+◌, ◌-◌, ◌*◌, ◌/◌, ◌%◌, ◌<◌, Text, [], ◌∷◌, Bool, true, false, ◌&&◌, ◌||◌, Option, none, some,
}
use bitcoinx.Base.{
  if◌then◌else◌, leb, ltb, ◌==◌, All, ◌≡◌, refl, arith, Bool-cases, inl, inr, ap, ◌∙◌,
}

-- Letters, digits and `-_.~` stand for themselves.
unfoldable pub is_unreserved : ℕ → Bool
is_unreserved c =
    (leb b'a' c && leb c b'z')
    || (leb b'A' c && leb c b'Z')
    || (leb b'0' c && leb c b'9')
    || c == b'-'
    || c == b'_'
    || c == b'.'
    || c == b'~'

-- A digit of "0123456789ABCDEF".
unfoldable pub hex_digit : ℕ → ℕ
hex_digit d = if ltb d 10 then 48 + d else 55 + d

unfoldable pub query_escape : Text → Text
unfolding is_unreserved hex_digit
query_escape [] = []
query_escape (c ∷ s) =
    let rest = query_escape s in
    if is_unreserved c
    then c ∷ rest
    else if c == b' '
    then b'+' ∷ rest
    else b'%' ∷ hex_digit (c / 16) ∷ hex_digit (c % 16) ∷ rest

-- The value of a hexadecimal digit.
unfoldable pub unhex : ℕ → Option ℕ
unhex h =
    if leb b'0' h && leb h b'9'
    then some (h - 48)
    else if leb b'A' h && leb h b'F'
    then some (h - 55)
    else if leb b'a' h && leb h b'f'
    then some (h - 87)
    else none

abbrev join_digits : Option ℕ → Option ℕ → Option ℕ
join_digits (some a) (some b) = some (a * 16 + b)
join_digits _ _ = none

abbrev prepend_byte : Option ℕ → Option Text → Option Text
prepend_byte (some c) (some s) = some (c ∷ s)
prepend_byte _ _ = none

-- A server's decoding of a query's value; `none` for a malformed one.
unfoldable pub query_unescape : Text → Option Text
unfolding unhex
query_unescape [] = some []
query_unescape (c ∷ []) =
    if c == b'%' then none else if c == b'+' then some (b' ' ∷ []) else some (c ∷ [])
query_unescape (c ∷ d ∷ []) =
    let rest = query_unescape (d ∷ []) in
    if c == b'%' then none else prepend_byte (some (if c == b'+' then b' ' else c)) rest
query_unescape (c ∷ d ∷ e ∷ s) =
    let rest = query_unescape (d ∷ e ∷ s) in
    let coded = query_unescape s in
    if c == b'%'
    then prepend_byte (join_digits (unhex d) (unhex e)) coded
    else prepend_byte (some (if c == b'+' then b' ' else c)) rest

unhex-hex_digit : (d : ℕ) → d < 16 → unhex (hex_digit d) ≡ some d
unfolding unhex hex_digit
unhex-hex_digit d h = ground arith

-- A byte that stands for itself is read back, whatever follows.
query_unescape-plain :
    (c : ℕ) (s t : Text)
    → c == b'%' ≡ false
    → query_unescape s ≡ some t
    → query_unescape (c ∷ s) ≡ some ((if c == b'+' then b' ' else c) ∷ t)
unfolding query_unescape
query_unescape-plain c [] t h e = ground arith
query_unescape-plain c (d ∷ []) t h e = ground arith
query_unescape-plain c (d ∷ f ∷ s) t h e = ground arith

-- A coded byte is read back.
query_unescape-coded :
    (c : ℕ) (s t : Text)
    → c < 256
    → query_unescape s ≡ some t
    → query_unescape (b'%' ∷ hex_digit (c / 16) ∷ hex_digit (c % 16) ∷ s) ≡ some (c ∷ t)
unfolding query_unescape
query_unescape-coded c s t h e =
    rw (unhex-hex_digit (c / 16) (omega arith), unhex-hex_digit (c % 16) (omega arith), e)
      (ap (λ (n : ℕ). some (n ∷ t)) (omega arith))

is_unreserved-plain : (c : ℕ) → is_unreserved c ≡ true → (c == b'%' ≡ false) × (c == b'+' ≡ false)
unfolding is_unreserved
is_unreserved-plain c h = ground arith

-- A query is decoded to the text that was escaped, for any bytes.
pub query_unescape-query_escape :
    (s : Text) → All (λ c. c < 256) s → query_unescape (query_escape s) ≡ some s
unfolding query_escape
query_unescape-query_escape [] h = unfold query_unescape in refl
query_unescape-query_escape (c ∷ s) h = elim (Bool-cases (is_unreserved c)) [
  | inl plain ↦
      let (e, f) = is_unreserved-plain c plain in
      rw plain
        (query_unescape-plain c (query_escape s) s e (query_unescape-query_escape s h.1) ∙ rw f)
  | inr coded ↦ elim (Bool-cases (c == b' ')) [
    | inl space ↦
        let same : c ≡ 32 = ground arith in
        rw (coded, space)
          (query_unescape-plain b'+' (query_escape s) s refl (query_unescape-query_escape s h.1)
            ∙ rw same)
    | inr other ↦
        rw (coded, other)
          (query_unescape-coded c (query_escape s) s h.0 (query_unescape-query_escape s h.1))
  ]
]
