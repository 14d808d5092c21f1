-- ===== src/Ui/Live/Printed.antt =====
-- What the live line of ui/ui.go is on the terminal.
use bitcoinx.Base.{
  ℕ, zero, suc, ◌-◌, ◌≤◌, Text, lit, [], ◌∷◌, ◌++◌, Bool, some, none, Lacks, All-append, ◌≡◌, ◌≢◌,
  subst, refl, ap, sym, ◌∙◌, arith, Bool-cases, inl, inr, ltb, length, take, Option,
}
use mathlib.Core.List.{append_assoc, append-nil}
use bitcoinx.Ui.Runes.{rune_count, trim_space}
use bitcoinx.Ui.Live.{
  Shown, shown, panics, shorten, pad, padded, ellipsis, live, dimmed, print_live,
}
use bitcoinx.Ui.Live.Laws.{live-fills}
use bitcoinx.Ui.Message.{Printing, small}
use bitcoinx.Ui.Message.Parts.{tag, plain, source, painted, ending, painted-append, painted-plain}
use bitcoinx.Ui.Message.Laws.{IsPrinting}

Lacks-take : (d n : ℕ) (s : Text) → Lacks d s → Lacks d (take n s)
Lacks-take d zero s h = tt
Lacks-take d (suc n) [] h = tt
Lacks-take d (suc n) (c ∷ s) h = (h.0, Lacks-take d n s h.1)

shown_inj : (s t : Text) → some (shown s) ≡ some (shown t) → s ≡ t
shown_inj s t e = cc

-- What is left of a line without brackets has none.
shorten-Lacks :
    (fuel width : ℕ) (msg t : Text)
    → Lacks b'[' msg
    → shorten fuel width msg ≡ some (shown t)
    → Lacks b'[' t
unfolding shorten
shorten-Lacks zero width msg t h e = absurd cc
shorten-Lacks (suc fuel) width msg t h e = elim (Bool-cases (ltb width (rune_count msg))) [
  | inr fits ↦ subst (Lacks b'[') (shown_inj msg t (rw fits at e)) h
  | inl long ↦ elim (Bool-cases (ltb (length msg) 4)) [
    | inl short ↦ absurd (ground (arith, long, short, e))
    | inr bytes ↦
        shorten-Lacks fuel width (take (length msg - 4) msg ++ ellipsis) t
          (All-append (λ c. c ≢ b'[') (take (length msg - 4) msg) ellipsis
            (Lacks-take b'[' (length msg - 4) msg h) (omega arith))
          (rw bytes at (rw long at e))
  ]
]

pad-Lacks :
    (fuel width : ℕ) (msg t : Text) → Lacks b'[' msg → pad fuel width msg ≡ some t → Lacks b'[' t
unfolding pad
pad-Lacks zero width msg t h e = absurd cc
pad-Lacks (suc fuel) width msg t h e = elim (Bool-cases (ltb (rune_count msg) width)) [
  | inl short ↦
      pad-Lacks fuel width (msg ++ 32 ∷ []) t
        (All-append (λ c. c ≢ b'[') msg (32 ∷ []) h (omega arith)) (rw short at e)
  | inr full ↦ subst (Lacks b'[') (inj msg t (rw full at e)) h
]
  where
    inj : (s t : Text) → some s ≡ some t → s ≡ t
    inj s t q = cc

live-Lacks :
    (frame msg t : Text) (width : ℕ)
    → Lacks b'[' frame
    → Lacks b'[' (trim_space msg)
    → live frame width msg ≡ some (shown t)
    → Lacks b'[' t
unfolding live
live-Lacks frame msg t width hf hm e = go _ refl e
  where
    line : Text
    line = frame ++ 32 ∷ trim_space msg

    plain_line : Lacks b'[' line
    plain_line = All-append (λ c. c ≢ b'[') frame (32 ∷ trim_space msg) hf (omega arith, hm)

    padded-Lacks :
        (s : Text) (o : Option Text)
        → Lacks b'[' s
        → pad (suc width) width s ≡ o
        → padded width (some (shown s)) ≡ some (shown t)
        → Lacks b'[' t
    padded-Lacks s none h q k = absurd (unfold padded in ground (arith, q, k))
    padded-Lacks s (some u) h q k =
        subst (Lacks b'[') (shown_inj u t (rw (padded, q) at k))
          (pad-Lacks (suc width) width s u h q)

    go :
        (o : Option Shown)
        → shorten (suc (length line)) width line ≡ o
        → padded width o ≡ some (shown t)
        → Lacks b'[' t
    go none q k = absurd (unfold padded in cc)
    go (some panics) q k = absurd (unfold padded in cc)
    go (some (shown s)) q k =
        padded-Lacks s _ (shorten-Lacks (suc (length line)) width line s plain_line q) refl k

module _ {A : Type 0} (printing : Printing A) {code : Text → Text} {reset : Text}
    {Known : Text → Type 0} (documented : IsPrinting printing code reset Known)
    (disabled : Bool) where
  small-plain :
      (t : Text)
      → Lacks b'[' t
      → small printing disabled t
        ≡ painted code disabled (tag (lit "dim") ∷ []) ++ (t ++ ending reset disabled)
  unfolding small source
  small-plain t h =
      ap (λ (s : Text). printing.color disabled (lit "[dim]" ++ s)) (sym (append-nil t))
      ∙ documented.color-source disabled (lit "dim") (plain t ∷ []) (documented.known-used.1.0)
          (h, tt)
      ∙ ap (λ (s : Text). s ++ ending reset disabled)
          (painted-append code disabled (tag (lit "dim") ∷ []) (plain t ∷ []))
      ∙ append_assoc (painted code disabled (tag (lit "dim") ∷ [])) _ (ending reset disabled)
      ∙ ap
          (λ (s : Text).
            painted code disabled (tag (lit "dim") ∷ []) ++ (s ++ ending reset disabled))
          (painted-plain code disabled t)

  -- With fmt and colorstring as documented, on a terminal of at least three columns, and for a message
  -- and a frame of the spinner without an opening bracket, which could begin a tag: what `Live` prints
  -- is, between the code for dim and the one that ends it, a text of exactly as many runes as the
  -- terminal has columns, and then goes back to the beginning of the line.
  pub print_live-fills :
      (frame msg : Text) (width : ℕ)
      → 3 ≤ width
      → Lacks b'[' frame
      → Lacks b'[' (trim_space msg)
      → (t : Text) × (rune_count t ≡ width)
        × (print_live printing disabled frame width msg
            ≡ some (
                shown (
                  (painted code disabled (tag (lit "dim") ∷ []) ++ (t ++ ending reset disabled))
                  ++ 13 ∷ [])))
  unfolding print_live
  print_live-fills frame msg width wide hf hm =
      let (t, e, k) = live-fills frame msg width wide in
      (
        t,
        k,
        ap (dimmed printing disabled) e
            ∙ ap (λ (s : Text). some (shown s))
                (documented.sprintf-text [] (13 ∷ []) (small printing disabled t) tt (omega arith)
                  ∙ ap (λ (s : Text). s ++ 13 ∷ [])
                      (small-plain t (live-Lacks frame msg t width hf hm e))),
      )
