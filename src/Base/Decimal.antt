-- ===== src/Base/Decimal.antt =====
-- Numbers in decimal: what `fmt` prints for `%d` of a number that is not negative, and the digits
-- that `fmt.Fscanf` takes for `%d`.
use Prim.Native.Nat.{ℕ, zero, suc, ◌+◌, ◌-◌, ◌*◌, ◌/◌, ◌%◌, ◌<◌}
use mathlib.Core.Path.{◌≡◌, refl, ap, ◌∙◌}
use mathlib.Core.Bool.{Bool, true, false, ◌&&◌}
use mathlib.Core.Logic.{inl, inr}
use mathlib.Core.List.{[], ◌∷◌, ◌++◌}
use native.Mathlib.Omega.{arith}
use bitcoinx.Base.Tests.{ltb, leb, if◌then◌else◌, Bool-cases, ltb_false→le}
use bitcoinx.Base.Lists.{All, All-append}
use bitcoinx.Base.Texts.{Text}
use bitcoinx.Base.Int.{ℤ, pos, negsuc}

abbrev pub is_digit : ℕ → Bool
is_digit c = leb b'0' c && leb c b'9'

-- The digits of `n`, with fuel above `n`.
digits_of : ℕ → ℕ → Text
digits_of zero n = []
digits_of (suc f) n =
    let more = digits_of f (n / 10) ++ ((b'0' + n % 10) ∷ []) in
    if ltb n 10 then (b'0' + n) ∷ [] else more

-- `fmt.Sprintf("%d", n)`
unfoldable pub decimal : ℕ → Text
unfolding digits_of
decimal n = digits_of (suc n) n

-- The value of the digits at the front, and what stands behind them.
unfoldable pub read_digits : ℕ → Text → ℕ × Text
read_digits v [] = (v, [])
read_digits v (c ∷ s) =
    let rest = read_digits (v * 10 + (c - b'0')) s in if is_digit c then rest else (v, c ∷ s)

abbrev IsDigits : Text → Type 0
IsDigits = All (λ c. is_digit c ≡ true)

value : ℕ → Text → ℕ
value v [] = v
value v (c ∷ s) = value (v * 10 + (c - b'0')) s

value-append : (v : ℕ) (s : Text) (c : ℕ) → value v (s ++ c ∷ []) ≡ value v s * 10 + (c - b'0')
unfolding value
value-append v [] c = refl
value-append v (d ∷ s) c = value-append (v * 10 + (d - b'0')) s c

digits_of-IsDigits : (f n : ℕ) → IsDigits (digits_of f n)
unfolding digits_of
digits_of-IsDigits zero n = tt
digits_of-IsDigits (suc f) n = elim (Bool-cases (ltb n 10)) [
  | inl small ↦ rw small (ground arith, tt)
  | inr large ↦
      rw large
        (All-append _ (digits_of f (n / 10)) _ (digits_of-IsDigits f (n / 10)) (ground arith, tt))
]

value-digits_of : (f n : ℕ) → n < f → value 0 (digits_of f n) ≡ n
unfolding digits_of
value-digits_of zero n h = absurd (omega arith)
value-digits_of (suc f) n h = elim (Bool-cases (ltb n 10)) [
  | inl small ↦ rw small (unfold value in omega arith)
  | inr large ↦
      rw (large, value-append) (omega (arith, ltb_false→le n 10 large, value-digits_of f (n / 10)))
]

-- The text does not go on with a digit.
abbrev pub StopsDigits : Text → Type 0
StopsDigits [] = Unit
StopsDigits (c ∷ s) = is_digit c ≡ false

read_digits-value :
    (v : ℕ) (s r : Text) → IsDigits s → StopsDigits r → read_digits v (s ++ r) ≡ (value v s, r)
unfolding read_digits value
read_digits-value v [] [] h k = refl
read_digits-value v [] (c ∷ r) h k = rw k
read_digits-value v (c ∷ s) r h k = rw (h.0) (read_digits-value (v * 10 + (c - b'0')) s r h.1 k)

-- A printed number is read back, if no digit follows it.
pub read_digits-decimal :
    (n : ℕ) (r : Text) → StopsDigits r → read_digits 0 (decimal n ++ r) ≡ (n, r)
unfolding decimal
read_digits-decimal n r k =
    read_digits-value 0 (digits_of (suc n) n) r (digits_of-IsDigits (suc n) n) k
    ∙ ap (λ (v : ℕ). (v, r)) (value-digits_of (suc n) n (omega arith))

digits_of-cons :
    (f n : ℕ) → n < f → (c : ℕ) × (s : Text) × (digits_of f n ≡ c ∷ s) × (is_digit c ≡ true)
unfolding digits_of
digits_of-cons zero n h = absurd (omega arith)
digits_of-cons (suc f) n h = elim (Bool-cases (ltb n 10)) [
  | inl small ↦ (b'0' + n, [], rw small, ground arith)
  | inr large ↦
      let (c, s, e, d) = digits_of-cons f (n / 10) (ground arith) in
      (c, s ++ (b'0' + n % 10) ∷ [], rw (large, e), d)
]

-- A printed number starts with a digit.
pub decimal-cons : (n : ℕ) → (c : ℕ) × (s : Text) × (decimal n ≡ c ∷ s) × (is_digit c ≡ true)
unfolding decimal
decimal-cons n = digits_of-cons (suc n) n (omega arith)

-- `fmt.Sprintf("%d", n)` of a number that may be negative.
unfoldable pub decimal_ℤ : ℤ → Text
decimal_ℤ (pos n) = decimal n
decimal_ℤ (negsuc n) = b'-' ∷ decimal (suc n)
