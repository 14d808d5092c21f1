-- ===== src/Builder/Scan.antt =====
-- `fmt.Fscanf(r, "(%d/%d) Wrote", &step, &total)` as far as its count of items read, which is all
-- that the program looks at. Texts are code points.
use bitcoinx.Base.{ℕ, ◌+◌, ◌≤◌, Text, [], ◌∷◌, Bool, true, false, ◌||◌, ◌&&◌}
use bitcoinx.Base.{
  Option, none, some, if◌then◌else◌, ◌==◌, leb, ◌≡◌, refl, ◌++◌, arith, le→leb, ◌∙◌,
}
use bitcoinx.Base.Decimal.{
  is_digit, read_digits, decimal, StopsDigits, read_digits-decimal, decimal-cons,
}
use bitcoinx.Base.Int.{ℤ, pos, neg}

-- The space characters of package `fmt`.
unfoldable pub is_space : ℕ → Bool
is_space c =
    (leb 0x9 c && leb c 0xd)
    || c == 0x20
    || c == 0x85
    || c == 0xa0
    || c == 0x1680
    || (leb 0x2000 c && leb c 0x200a)
    || (leb 0x2028 c && leb c 0x2029)
    || c == 0x202f
    || c == 0x205f
    || c == 0x3000

-- `SkipSpace`. A line feed is an error, `none`.
unfoldable pub skip_space : Text → Option Text
unfolding is_space
skip_space [] = some []
skip_space (c ∷ s) =
    let rest = skip_space s in if c == 0xa then none else if is_space c then rest else some (c ∷ s)

abbrev pub max_int : ℕ
max_int = 9223372036854775807

-- The digits of a number, at least one, and its range. The flag is set after a minus sign.
unfoldable pub scan_number : Bool → Text → Option (ℤ × Text)
scan_number minus [] = none
scan_number minus (c ∷ s) =
    let r = read_digits 0 (c ∷ s) in
    if is_digit c
    then (if minus
        then (if leb (r.0) (max_int + 1) then some (neg (r.0), r.1) else none)
        else (if leb (r.0) max_int then some (pos (r.0), r.1) else none))
    else none

scan_sign : Text → Option (ℤ × Text)
unfolding scan_number
scan_sign [] = none
scan_sign (c ∷ s) =
    if c == b'-'
    then scan_number true s
    else if c == b'+'
    then scan_number false s
    else scan_number false (c ∷ s)

-- The verb `%d`.
unfoldable pub scan_int : Text → Option (ℤ × Text)
unfolding skip_space scan_sign
scan_int s = elim (skip_space s) [ none ↦ none | some t ↦ scan_sign t ]

-- A character of the format that stands for itself.
unfoldable pub expect : ℕ → Text → Option Text
expect c [] = none
expect c (d ∷ s) = if d == c then some s else none

infixl 5 ◌>>=◌
abbrev ◌>>=◌ : {A B : Type 0} → Option A → (A → Option B) → Option B
none >>= f = none
some a >>= f = f a

-- Both numbers, if both were read. What follows the second one is not looked at: a mismatch there
-- is an error that the program ignores.
unfoldable pub scan_progress : Text → Option (ℤ × ℤ)
unfolding scan_int expect
scan_progress text = do
  a ← expect b'(' text
  step ← scan_int a
  b ← expect b'/' (step.1)
  total ← scan_int b
  some (step.0, total.0)

-- A text that starts with a digit has no space to skip and no sign.
scan_int-digit :
    (c : ℕ) (s : Text) → is_digit c ≡ true → scan_int (c ∷ s) ≡ scan_number false (c ∷ s)
unfolding scan_int is_space
scan_int-digit c s h = ground arith

scan_number-digit :
    (c : ℕ) (s r : Text) (n : ℕ)
    → is_digit c ≡ true
    → read_digits 0 (c ∷ s) ≡ (n, r)
    → n ≤ max_int
    → scan_number false (c ∷ s) ≡ some (pos n, r)
unfolding scan_number
scan_number-digit c s r n h e b = rw (h, e, scan_number, le→leb n max_int b)

scan_int-decimal :
    (n : ℕ) (r : Text) → n ≤ max_int → StopsDigits r → scan_int (decimal n ++ r) ≡ some (pos n, r)
scan_int-decimal n r h k =
    let (c, s, e, d) = decimal-cons n in
    rw e (
      scan_int-digit c (s ++ r) d
      ∙ scan_number-digit c (s ++ r) r n d (rw e at (read_digits-decimal n r k)) h)

-- A line `(step/total) ...` with numbers in range is read as these numbers, whatever follows, if
-- the second number ends there.
pub scan_progress-decimal :
    (step total : ℕ) (r : Text)
    → step ≤ max_int
    → total ≤ max_int
    → StopsDigits r
    → scan_progress (b'(' ∷ (decimal step ++ b'/' ∷ (decimal total ++ r)))
      ≡ some (pos step, pos total)
unfolding scan_progress expect
scan_progress-decimal step total r hs ht k =
    rw (scan_int-decimal step (b'/' ∷ (decimal total ++ r)) hs refl)
      (rw (scan_int-decimal total r ht k))
