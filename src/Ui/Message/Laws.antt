-- ===== src/Ui/Message/Laws.antt =====
-- What a message looks like on the terminal.
use bitcoinx.Base.{
  Text, lit, List, [], ◌∷◌, ◌++◌, Bool, true, false, Lacks, All, All-append, ◌≡◌, arith, ap, ◌∙◌,
}
use mathlib.Core.List.{append_assoc}
use bitcoinx.Ui.Message.{Printing, check_mark, cross, info, verbose, success, error}
use bitcoinx.Ui.Message.Parts.{
  Part, tag, plain, source, painted, ending, IsPart, IsVerbless, used, painted-append,
  painted-plain,
}

-- What the packages document: known tags become codes, or nothing when colours are off, and `%s`
-- becomes the text, however that reads.
pub record IsPrinting {A : Type 0} (printing : Printing A) (code : Text → Text) (reset : Text)
    (Known : Text → Type 0) : Type 0 where
  pub known-used : All Known used
  pub color-source :
      (disabled : Bool) (name : Text) (parts : List Part)
      → Known name
      → All (IsPart Known) parts
      → printing.color disabled (source (tag name ∷ parts))
        ≡ painted code disabled (tag name ∷ parts) ++ ending reset disabled
  pub code-plain : (name : Text) → Lacks b'%' (code name)
  pub reset-plain : Lacks b'%' reset
  pub sprintf-text :
      (pre post t : Text)
      → Lacks b'%' pre
      → Lacks b'%' post
      → printing.sprintf (pre ++ (lit "%s" ++ post)) (printing.text t ∷ []) ≡ pre ++ (t ++ post)

-- What stands around the text of a message: its mark and the end of the line.
abbrev pub Framed : (Text → Text) → Text → Bool → List Part → Text → Text → Type 0
Framed code reset disabled mark t out =
    out ≡ painted code disabled mark ++ (t ++ (lit "\n" ++ ending reset disabled))

module _ {A : Type 0} (printing : Printing A) {code : Text → Text} {reset : Text}
    {Known : Text → Type 0} (documented : IsPrinting printing code reset Known)
    (disabled : Bool) where
  painted-IsVerbless :
      (parts : List Part) → All IsVerbless parts → Lacks b'%' (painted code disabled parts)
  unfolding painted
  painted-IsVerbless parts h = go disabled parts h
    where
      go : (d : Bool) (ps : List Part) → All IsVerbless ps → Lacks b'%' (painted code d ps)
      go true [] k = tt
      go false [] k = tt
      go true (tag name ∷ ps) k = go true ps k.1
      go false (tag name ∷ ps) k =
          All-append _ (code name) (painted code false ps) (documented.code-plain name)
            (go false ps k.1)
      go true (plain t ∷ ps) k = All-append _ t (painted code true ps) k.0 (go true ps k.1)
      go false (plain t ∷ ps) k = All-append _ t (painted code false ps) k.0 (go false ps k.1)

  ending-verbless : Lacks b'%' (ending reset disabled)
  unfolding ending
  ending-verbless = go disabled
    where
      go : (d : Bool) → Lacks b'%' (ending reset d)
      go true = tt
      go false = documented.reset-plain

  -- The format of a message: its mark, and the verb for the text.
  abbrev line : List Part → List Part
  line mark = mark ++ plain (lit "%s\n") ∷ []

  framed :
      (name t : Text) (mark : List Part)
      → Known name
      → All (IsPart Known) mark
      → All IsVerbless mark
      → Framed code reset disabled (tag name ∷ mark) t (
          printing.sprintf
            (printing.color disabled (source (line (tag name ∷ mark))))
            (printing.text t ∷ []))
  framed name t mark known parts verbless =
      ap (λ (f : Text). printing.sprintf f (printing.text t ∷ []))
        (documented.color-source disabled name (line mark) known
            (All-append (IsPart Known) mark (plain (lit "%s\n") ∷ []) parts (omega arith, tt))
          ∙ ap (λ (s : Text). s ++ ending reset disabled)
              (painted-append code disabled (tag name ∷ mark) (plain (lit "%s\n") ∷ []))
          ∙ append_assoc (painted code disabled (tag name ∷ mark)) _ (ending reset disabled)
          ∙ ap
              (λ (s : Text).
                painted code disabled (tag name ∷ mark) ++ (s ++ ending reset disabled))
              (painted-plain code disabled (lit "%s\n")))
      ∙ documented.sprintf-text (painted code disabled (tag name ∷ mark))
          (lit "\n" ++ ending reset disabled) t
          (painted-IsVerbless (tag name ∷ mark) (tt, verbless))
          (All-append _ (lit "\n") (ending reset disabled) (omega arith) ending-verbless)

  -- Each message is its mark in colours, then the formatted text however that reads, also with
  -- signs of tags and of verbs in it, then the end of the line.
  pub messages-Framed :
      (msg : Text) (args : List A)
      → Framed code reset disabled
          (tag (lit "bold")
            ∷ tag (lit "blue")
            ∷ plain (lit "==> ")
            ∷ tag (lit "reset")
            ∷ tag (lit "bold")
            ∷ [])
          (printing.sprintf msg args)
          (info printing disabled msg args)
        × Framed code reset disabled
            (tag (lit "dim") ∷ [])
            (printing.sprintf msg args)
            (verbose printing disabled msg args)
        × Framed code reset disabled
            (tag (lit "bold")
              ∷ tag (lit "green")
              ∷ plain check_mark
              ∷ tag (lit "reset")
              ∷ tag (lit "bold")
              ∷ plain (lit " ")
              ∷ [])
            (printing.sprintf msg args)
            (success printing disabled msg args)
        × Framed code reset disabled
            (tag (lit "bold")
              ∷ tag (lit "red")
              ∷ plain cross
              ∷ tag (lit "reset")
              ∷ tag (lit "bold")
              ∷ plain (lit " ")
              ∷ [])
            (printing.sprintf msg args)
            (error printing disabled msg args)
  unfolding info verbose success error source
  messages-Framed msg args =
      let (bold, (dim, (blue, (green, (red, (yellow, (plain_again, _))))))) =
        documented.known-used in
      let t = printing.sprintf msg args in
      (
        framed (lit "bold") t _ bold (blue, (omega arith, (plain_again, (bold, tt))))
            (tt, (omega arith, (tt, (tt, tt)))),
        framed (lit "dim") t [] dim tt tt,
        framed (lit "bold") t _ bold
            (green, (omega arith, (plain_again, (bold, (omega arith, tt)))))
            (tt, (omega arith, (tt, (tt, (omega arith, tt))))),
        framed (lit "bold") t _ bold (red, (omega arith, (plain_again, (bold, (omega arith, tt)))))
            (tt, (omega arith, (tt, (tt, (omega arith, tt))))),
      )
