-- ===== src/Ui/Message/Tests.antt =====
-- Messages on a terminal without colours, whose tags are dropped.
use bitcoinx.Base.{
  Text, lit, List, [], ◌∷◌, ◌++◌, Bool, true, false, Lacks, All, ◌≡◌, refl, arith, ap, ◌∙◌, ◌==◌,
  drop, if◌then◌else◌, sym, some, ok, external, eq_text,
}
use mathlib.Core.List.{append_assoc, append-nil}
use bitcoinx.Ui.Message.{Printing, check_mark, cross, info, verbose, success, error}
use bitcoinx.Ui.Message.Parts.{Part, tag, plain, source, painted, ending, IsPart}
use bitcoinx.Ui.Message.Laws.{IsPrinting, Framed, messages-Framed}
use bitcoinx.Ui.Runes.{rune_count, trim_space}
use bitcoinx.Ui.Live.{shown, print_live}
use bitcoinx.Ui.Live.Printed.{print_live-fills}
use bitcoinx.Ui.Tree
use bitcoinx.Ui.Tree.{Dir, dir, unreadable, end, file, sub, Printed, walk, should_ignore, Printer}
use bitcoinx.Ui.Tree.Laws.{printed_names}

-- The text without what stands in brackets; whether a bracket is open is the first argument.
strip : Bool → Text → Text
strip open_ [] = []
strip open_ (c ∷ t) =
    let within = strip true t in
    let behind = strip false t in
    if open_
    then (if c == b']' then behind else within)
    else if c == b'['
    then within
    else c ∷ behind

-- `%s` is filled with the argument.
fill : Text → Text → Text
fill [] t = []
fill (c ∷ f) t = let rest = fill f t in if c == b'%' then t ++ drop 1 f else c ∷ rest

sprintf : Text → List Text → Text
sprintf f [] = f
sprintf f (t ∷ ts) = fill f t

abbrev printing : Printing Text
printing = record { sprintf = sprintf; text = λ t. t; color = λ disabled t. strip false t }

strip-tag : (name t : Text) → Lacks b']' name → strip true (name ++ b']' ∷ t) ≡ strip false t
unfolding strip
strip-tag [] t h = refl
strip-tag (c ∷ name) t h = ground (arith, strip-tag name t h.1)

opens :
    (name t : Text)
    → Lacks b']' name
    → strip false (b'[' ∷ ((name ++ b']' ∷ []) ++ t)) ≡ strip false t
unfolding strip
opens name t h = ap (strip true) (append_assoc name (b']' ∷ []) t) ∙ strip-tag name t h

strip-plain : (s t : Text) → Lacks b'[' s → strip false (s ++ t) ≡ s ++ strip false t
unfolding strip
strip-plain [] t h = refl
strip-plain (c ∷ s) t h = ground (arith, strip-plain s t h.1)

fill-text :
    (pre post t : Text) → Lacks b'%' pre → fill (pre ++ (lit "%s" ++ post)) t ≡ pre ++ (t ++ post)
unfolding fill
fill-text [] post t h = refl
fill-text (c ∷ pre) post t h = ground (arith, fill-text pre post t h.1)

abbrev no_code : Text → Text
no_code name = []

strip-source :
    (disabled : Bool) (parts : List Part)
    → All (IsPart (Lacks b']')) parts
    → strip false (source parts) ≡ painted no_code disabled parts
unfolding source painted
strip-source true [] h = unfold strip in refl
strip-source false [] h = unfold strip in refl
strip-source true (tag name ∷ parts) h = opens name (source parts) h.0 ∙ strip-source true parts h.1
strip-source false (tag name ∷ parts) h =
    opens name (source parts) h.0 ∙ strip-source false parts h.1
strip-source true (plain t ∷ parts) h =
    strip-plain t (source parts) h.0 ∙ ap (λ (s : Text). t ++ s) (strip-source true parts h.1)
strip-source false (plain t ∷ parts) h =
    strip-plain t (source parts) h.0 ∙ ap (λ (s : Text). t ++ s) (strip-source false parts h.1)

printing-IsPrinting : IsPrinting printing no_code [] (Lacks b']')
unfolding ending sprintf
printing-IsPrinting = record {
  known-used = omega arith;
  color-source = source_stripped;
  code-plain = λ name. tt;
  reset-plain = tt;
  sprintf-text = λ pre post t h k. fill-text pre post t h;
}
  where
    source_stripped :
        (disabled : Bool) (name : Text) (parts : List Part)
        → Lacks b']' name
        → All (IsPart (Lacks b']')) parts
        → strip false (source (tag name ∷ parts))
          ≡ painted no_code disabled (tag name ∷ parts) ++ ending [] disabled
    source_stripped true name parts h k =
        strip-source true (tag name ∷ parts) (h, k) ∙ sym (append-nil _)
    source_stripped false name parts h k =
        strip-source false (tag name ∷ parts) (h, k) ∙ sym (append-nil _)

printed : info printing true (lit "[red] 100") [] ≡ lit "==> [red] 100\n"
unfolding info strip sprintf fill
printed = refl

messages-Framed_example :
    Framed no_code [] true
      (tag (lit "bold")
        ∷ tag (lit "blue")
        ∷ plain (lit "==> ")
        ∷ tag (lit "reset")
        ∷ tag (lit "bold")
        ∷ [])
      (lit "[red] 100")
      (info printing true (lit "[red] 100") [])
    × Framed no_code [] true
        (tag (lit "dim") ∷ [])
        (lit "[red] 100")
        (verbose printing true (lit "[red] 100") [])
    × Framed no_code [] true
        (tag (lit "bold")
          ∷ tag (lit "green")
          ∷ plain check_mark
          ∷ tag (lit "reset")
          ∷ tag (lit "bold")
          ∷ plain (lit " ")
          ∷ [])
        (lit "[red] 100")
        (success printing true (lit "[red] 100") [])
    × Framed no_code [] true
        (tag (lit "bold")
          ∷ tag (lit "red")
          ∷ plain cross
          ∷ tag (lit "reset")
          ∷ tag (lit "bold")
          ∷ plain (lit " ")
          ∷ [])
        (lit "[red] 100")
        (error printing true (lit "[red] 100") [])
unfolding sprintf
messages-Framed_example = messages-Framed printing printing-IsPrinting true (lit "[red] 100") []

-- A live line on ten columns.
print_live-fills_example :
    (t : Text) × (rune_count t ≡ 10)
    × (print_live printing true (lit "-") 10 (lit "Compiling everything")
        ≡ some (
            shown
              ((painted no_code true (tag (lit "dim") ∷ []) ++ (t ++ ending [] true)) ++ 13 ∷ [])))
unfolding trim_space
print_live-fills_example =
    print_live-fills printing printing-IsPrinting true (lit "-") (lit "Compiling everything") 10
      (omega arith) (omega arith) (omega arith)

-- A source tree, which is printed with its names one behind the other.
abbrev ignored : List Text
ignored = lit "k8s" ∷ []

abbrev source_dir : Dir
source_dir = dir (file (lit "a") (sub (lit "k8s") (unreadable (external 13)) (file (lit "b") end)))

abbrev concat : List Text → Text
concat [] = []
concat (l ∷ ls) = l ++ concat ls

abbrev printer : Printer (List Text) Text
printer = record {
  read_all = λ p w. (ok source_dir, w);
  render = λ p t. concat (p ∷ printed_names t);
  printing = printing;
  disabled = true;
  write = λ line w. line ∷ w;
}

tree_printed : (Tree.tree printer (lit "d") ignored []).1 ≡ lit "dab\n" ∷ []
unfolding Tree.tree Tree.print_if walk should_ignore eq_text printed_names verbose strip sprintf
    fill
tree_printed = refl
