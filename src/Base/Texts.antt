-- ===== src/Base/Texts.antt =====
-- Texts as lists of numbers (bytes, or code points where a module says so) and the functions of
-- Go's `strings` package that the program calls, with their laws.
use Prim.Native.Nat.{ℕ}
use Prim.Native.Char.{code}
use Prim.Native.String.{String}
use mathlib.Core.Path.{◌≡◌, refl, ap, ◌∙◌}
use mathlib.Core.Logic.{◌≢◌, ◌⊎◌, inl, inr, ◌↔◌}
use mathlib.Core.Bool.{Bool, true, false, ◌&&◌, ◌||◌}
use mathlib.Core.List.{List, [], ◌∷◌, ◌++◌}
use native.Mathlib.Omega.{arith}
use bitcoinx.Base.Tests.{Bool-cases, ◌==◌, if◌then◌else◌}
use bitcoinx.Base.Lists.{All}

abbrev pub Text : Type 0
Text = List ℕ

-- A literal of the source.
abbrev pub lit : String → Text
lit String.[] = []
lit (String.◌∷◌ c s) = code c ∷ lit s

-- `s == t`
unfoldable pub eq_text : Text → Text → Bool
eq_text [] [] = true
eq_text [] (d ∷ t) = false
eq_text (c ∷ s) [] = false
eq_text (c ∷ s) (d ∷ t) = c == d && eq_text s t

pub eq_text_iff : (s t : Text) → (eq_text s t ≡ true) ↔ (s ≡ t)
unfolding eq_text
eq_text_iff [] [] = (λ h. refl, λ h. refl)
eq_text_iff [] (d ∷ t) = (λ h. cc, λ h. cc)
eq_text_iff (c ∷ s) [] = (λ h. cc, λ h. cc)
eq_text_iff (c ∷ s) (d ∷ t) = ground (arith, eq_text_iff s t)

pub eq_text_refl : (s : Text) → eq_text s s ≡ true
eq_text_refl s = (eq_text_iff s s).1 refl

-- `s == ""`
abbrev pub is_empty : Text → Bool
is_empty [] = true
is_empty (c ∷ s) = false

-- `strings.HasPrefix`
unfoldable pub has_prefix : Text → Text → Bool
has_prefix s [] = true
has_prefix [] (p ∷ ps) = false
has_prefix (c ∷ s) (p ∷ ps) = c == p && has_prefix s ps

-- `strings.TrimPrefix`, given that the prefix is there.
unfoldable pub drop_prefix : Text → Text → Text
drop_prefix s [] = s
drop_prefix [] (p ∷ ps) = []
drop_prefix (c ∷ s) (p ∷ ps) = drop_prefix s ps

-- `strings.TrimPrefix`
unfoldable pub trim_prefix : Text → Text → Text
unfolding has_prefix drop_prefix
trim_prefix s p = if has_prefix s p then drop_prefix s p else s

-- `strings.Contains`
unfoldable pub contains : Text → Text → Bool
unfolding has_prefix
contains [] p = has_prefix [] p
contains (c ∷ s) p = has_prefix (c ∷ s) p || contains s p

-- `strings.Join`
unfoldable pub join_with : Text → List Text → Text
join_with sep [] = []
join_with sep (s ∷ []) = s
join_with sep (s ∷ t ∷ r) = s ++ (sep ++ join_with sep (t ∷ r))

-- Put a byte in front of the first piece.
abbrev pub prepend : ℕ → List Text → List Text
prepend c [] = (c ∷ []) ∷ []
prepend c (x ∷ xs) = (c ∷ x) ∷ xs

-- `strings.Split` at a separator of one byte.
unfoldable pub split_at : ℕ → Text → List Text
split_at d [] = [] ∷ []
split_at d (c ∷ s) = let rest = split_at d s in if c == d then [] ∷ rest else prepend c rest

-- The byte does not occur in the text.
abbrev pub Lacks : ℕ → Text → Type 0
Lacks d s = All (λ c. c ≢ d) s

pub has_prefix-append : (p s : Text) → has_prefix (p ++ s) p ≡ true
unfolding has_prefix
has_prefix-append [] s = refl
has_prefix-append (c ∷ p) s = ground (arith, has_prefix-append p s)

pub trim_prefix-append : (p s : Text) → trim_prefix (p ++ s) p ≡ s
unfolding trim_prefix
trim_prefix-append [] s = refl
trim_prefix-append (c ∷ p) s = ground (arith, trim_prefix-append p s, has_prefix-append p s)

-- A text starts with `p` exactly when it is `p` and a rest.
pub has_prefix_elim : (s p : Text) → has_prefix s p ≡ true → (r : Text) × (s ≡ p ++ r)
unfolding has_prefix
has_prefix_elim s [] h = (s, refl)
has_prefix_elim [] (p ∷ ps) h = cc
has_prefix_elim (c ∷ s) (p ∷ ps) h =
    let (r, e) = has_prefix_elim s ps (ground arith) in (r, ground arith)

-- Two prefixes of one text are prefixes of one another.
pub has_prefix_compare :
    (s p q : Text)
    → has_prefix s p ≡ true
    → has_prefix s q ≡ true
    → (has_prefix p q ≡ true) ⊎ (has_prefix q p ≡ true)
unfolding has_prefix
has_prefix_compare s [] q hp hq = inr refl
has_prefix_compare s (p ∷ ps) [] hp hq = inl refl
has_prefix_compare [] (p ∷ ps) (q ∷ qs) hp hq = cc
has_prefix_compare (c ∷ s) (p ∷ ps) (q ∷ qs) hp hq = ground (arith, has_prefix_compare s ps qs)

pub split_at-Lacks : (d : ℕ) (s : Text) → Lacks d s → split_at d s ≡ s ∷ []
unfolding split_at
split_at-Lacks d [] h = refl
split_at-Lacks d (c ∷ s) h = ground (arith, split_at-Lacks d s h.1)

pub split_at-append : (d : ℕ) (s r : Text) → Lacks d s → split_at d (s ++ d ∷ r) ≡ s ∷ split_at d r
unfolding split_at
split_at-append d [] r h = ground arith
split_at-append d (c ∷ s) r h = ground (arith, split_at-append d s r h.1)

-- Splitting undoes joining, when the pieces lack the separator and there is one at least.
pub split_at-join_with :
    (d : ℕ) (s : Text) (r : List Text)
    → Lacks d s
    → All (Lacks d) r
    → split_at d (join_with (d ∷ []) (s ∷ r)) ≡ s ∷ r
unfolding join_with
split_at-join_with d s [] hs hr = split_at-Lacks d s hs
split_at-join_with d s (t ∷ r) hs hr =
    split_at-append d s (join_with (d ∷ []) (t ∷ r)) hs
    ∙ ap (λ (l : List Text). s ∷ l) (split_at-join_with d t r hr.0 hr.1)

pub split_at-cons : (d : ℕ) (s : Text) → (p : Text) × (ps : List Text) × (split_at d s ≡ p ∷ ps)
unfolding split_at
split_at-cons d [] = ([], [], refl)
split_at-cons d (c ∷ s) = elim (Bool-cases (c == d)) [
  | inl here ↦ ([], split_at d s, rw here)
  | inr later ↦ let (p, ps, e) = split_at-cons d s in (c ∷ p, ps, rw (later, e))
]
