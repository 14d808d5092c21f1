-- ===== src/Ui/Message/Parts.antt =====
-- Texts with tags for the colours of a terminal.
use bitcoinx.Base.{
  Text, lit, List, [], ◌∷◌, ◌++◌, Bool, true, false, Lacks, ◌≡◌, refl, ap, sym, ◌∙◌,
}
use mathlib.Core.List.{append_assoc, append-nil}

-- A text with tags for colours.
pub data Part : Type 0 where
  tag plain : Text → Part

unfoldable pub source : List Part → Text
source [] = []
source (tag name ∷ parts) = (b'[' ∷ (name ++ b']' ∷ [])) ++ source parts
source (plain t ∷ parts) = t ++ source parts

-- The same with the codes of the colours, or without, and what ends it.
unfoldable pub painted : (Text → Text) → Bool → List Part → Text
painted code disabled [] = []
painted code true (tag name ∷ parts) = painted code true parts
painted code false (tag name ∷ parts) = code name ++ painted code false parts
painted code true (plain t ∷ parts) = t ++ painted code true parts
painted code false (plain t ∷ parts) = t ++ painted code false parts

unfoldable pub ending : Text → Bool → Text
ending reset true = []
ending reset false = reset

-- The tag is a colour, or the text has no bracket.
abbrev pub IsPart : (Text → Type 0) → Part → Type 0
IsPart Known (tag name) = Known name
IsPart Known (plain t) = Lacks b'[' t

-- No part has the sign of a verb.
abbrev pub IsVerbless : Part → Type 0
IsVerbless (tag name) = Unit
IsVerbless (plain t) = Lacks b'%' t

abbrev pub used : List Text
used =
    lit "bold" ∷ lit "dim" ∷ lit "blue" ∷ lit "green" ∷ lit "red" ∷ lit "yellow" ∷ lit "reset" ∷ []

source-append : (xs ys : List Part) → source (xs ++ ys) ≡ source xs ++ source ys
unfolding source
source-append [] ys = refl
source-append (tag name ∷ xs) ys =
    ap (λ (t : Text). (b'[' ∷ (name ++ b']' ∷ [])) ++ t) (source-append xs ys)
    ∙ sym (append_assoc (b'[' ∷ (name ++ b']' ∷ [])) (source xs) (source ys))
source-append (plain t ∷ xs) ys =
    ap (λ (s : Text). t ++ s) (source-append xs ys) ∙ sym (append_assoc t (source xs) (source ys))

pub painted-append :
    (code : Text → Text) (disabled : Bool) (xs ys : List Part)
    → painted code disabled (xs ++ ys) ≡ painted code disabled xs ++ painted code disabled ys
unfolding painted
painted-append code true [] ys = refl
painted-append code false [] ys = refl
painted-append code true (tag name ∷ xs) ys = painted-append code true xs ys
painted-append code false (tag name ∷ xs) ys =
    ap (λ (s : Text). code name ++ s) (painted-append code false xs ys)
    ∙ sym (append_assoc (code name) (painted code false xs) (painted code false ys))
painted-append code true (plain t ∷ xs) ys =
    ap (λ (s : Text). t ++ s) (painted-append code true xs ys)
    ∙ sym (append_assoc t (painted code true xs) (painted code true ys))
painted-append code false (plain t ∷ xs) ys =
    ap (λ (s : Text). t ++ s) (painted-append code false xs ys)
    ∙ sym (append_assoc t (painted code false xs) (painted code false ys))

pub painted-plain :
    (code : Text → Text) (disabled : Bool) (t : Text) → painted code disabled (plain t ∷ []) ≡ t
unfolding painted
painted-plain code true t = append-nil t
painted-plain code false t = append-nil t
