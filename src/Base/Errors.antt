-- ===== src/Base/Errors.antt =====
-- Go's `error` values, results, and code that reads and changes an outside world.
use Prim.Native.Nat.{ℕ}
use mathlib.Core.Path.{◌≡◌, refl, ap}
use mathlib.Core.Logic.{◌⊎◌, inl, inr}
use mathlib.Core.Bool.{Bool, true, false}
use mathlib.Core.List.{List}

-- `external` is an error of the operating system or of another program, with a code that tells
-- them apart; `not_exist` is one that `os.IsNotExist` recognises, `skip_dir` is `filepath.SkipDir`,
-- `cancelled` that of a cancelled context, `too_long` the scanner's, `eof` is `io.EOF`; `panic` and
-- `exit` end the program.
pub data Error : Type 0 where
  external : ℕ → Error
  not_exist skip_dir cancelled too_long eof panic exit : Error
  message : List ℕ → Error
  wrap : List ℕ → Error → Error

pub data Result {ℓ} (A : Type ℓ) : Type ℓ where
  ok : A → Result A
  err : Error → Result A

-- `os.IsNotExist`
abbrev pub is_not_exist : Error → Bool
is_not_exist not_exist = true
is_not_exist _ = false

abbrev pub is_skip_dir : Error → Bool
is_skip_dir skip_dir = true
is_skip_dir _ = false

abbrev pub is_eof : Error → Bool
is_eof eof = true
is_eof _ = false

-- `errors.Wrap`
abbrev pub wrapping {ℓ} : {A : Type ℓ} → List ℕ → Result A → Result A
wrapping text (ok a) = ok a
wrapping text (err e) = err (wrap text e)

-- A call that reads and changes a world `W`: what it returns, and the world after it.
abbrev pub Eff : Type 0 → Type 0 → Type 0
Eff W A = W → Result A × W

module _ {W A B : Type 0} where
  abbrev pub continue : Result A × W → (A → Eff W B) → Result B × W
  continue (ok a, w) f = f a w
  continue (err e, w) f = (err e, w)

  -- `a, err := m; if err != nil { return err }; f a`
  infixl 5 ◌>>=◌ ◌>>◌
  abbrev pub ◌>>=◌ : Eff W A → (A → Eff W B) → Eff W B
  ◌>>=◌ m f w = continue (m w) f

  abbrev pub ◌>>◌ : Eff W A → Eff W B → Eff W B
  m >> k = m >>= λ _. k

module _ {W A : Type 0} where
  abbrev pub pure : A → Eff W A
  pure a w = (ok a, w)

  abbrev pub fail : Error → Eff W A
  fail e w = (err e, w)

  -- `errors.Wrap` around a call.
  abbrev pub wrapped : List ℕ → Eff W A → Eff W A
  wrapped text m w = let r = m w in (wrapping text (r.0), r.1)

pub Result-cases {ℓ} :
    {A : Type ℓ} (r : Result A) → ((a : A) × (r ≡ ok a)) ⊎ ((e : Error) × (r ≡ err e))
Result-cases (ok a) = inl (a, refl)
Result-cases (err e) = inr (e, refl)

module _ {W A B : Type 0} (m : Eff W A) (f : A → Eff W B) where
  -- The rest runs after a call that succeeded.
  pub >>=-ok : {w w' : W} {a : A} → m w ≡ (ok a, w') → (m >>= f) w ≡ f a w'
  >>=-ok e = ap (λ (r : Result A × W). continue r f) e

  -- An error of the call is the result.
  pub >>=-err : {w w' : W} {x : Error} → m w ≡ (err x, w') → (m >>= f) w ≡ (err x, w')
  >>=-err e = ap (λ (r : Result A × W). continue r f) e

-- What a chain that succeeded says of its first call and of the rest.
pub continue-inv :
    {W A B : Type 0} (r : Result A × W) (f : A → Eff W B) {b : B}
    → (continue r f).0 ≡ ok b
    → (a : A) × (w : W) × (r ≡ (ok a, w)) × ((f a w).0 ≡ ok b)
continue-inv (ok a, w) f h = (a, w, refl, h)
continue-inv (err e, w) f h = cc

-- The same, with the chain being the rest after its first call.
pub >>=-inv :
    {W A B : Type 0} (m : Eff W A) (f : A → Eff W B) (w : W) {b : B}
    → ((m >>= f) w).0 ≡ ok b
    → (a : A) × (w' : W) × (m w ≡ (ok a, w')) × ((f a w').0 ≡ ok b) × ((m >>= f) w ≡ f a w')
>>=-inv m f w h = let (a, w', e, k) = continue-inv (m w) f h in (a, w', e, k, >>=-ok m f e)

-- An error that is wrapped stays an error.
pub wrapping-inv :
    {W A : Type 0} (text : List ℕ) (m : Eff W A) (w : W) {a : A}
    → (wrapped text m w).0 ≡ ok a
    → (m w).0 ≡ ok a
wrapping-inv {W} {A} text m w {a} h = go (m w).0 h
  where
    go : (r : Result A) → wrapping text r ≡ ok a → r ≡ ok a
    go (ok b) e = e
    go (err e) k = cc
