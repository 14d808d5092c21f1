-- ===== src/Builder/Parser/Bar.antt =====
-- The progress bar is used as its library wants: made once, and only then advanced and cleared.
use bitcoinx.Base.{
  ℕ, suc, Text, lit, List, [], ◌∷◌, ◌++◌, Option, none, some, ◌≡◌, refl, ◌∙◌, ap, arith,
}
use bitcoinx.Base.{has_prefix, Bool-cases, inl, inr, Option-cases}
use bitcoinx.Base.Int.{ℤ}
use bitcoinx.Base.Lines.{scan_lines}
use bitcoinx.Builder.Scan.{scan_progress}
use bitcoinx.Builder.Parser.{
  Output, live, bar_new, bar_add, bar_finish, bar_clear, BuildOpts, Parser,
}
use bitcoinx.Builder.Parser.{
  Widths, process_step, update_bar, ensure_bar, process_progress, rest_of_line, process_line,
  process_lines, parse,
}

-- One output, with the bar before it; `none` where the call needs a bar and there is none, or makes
-- one while there is one.
abbrev pub use_bar : Output → Option ℤ → Option (Option ℤ)
use_bar (bar_new total width) none = some (some total)
use_bar (bar_new total width) (some bar) = none
use_bar (bar_add n) none = none
use_bar bar_finish none = none
use_bar bar_clear none = none
use_bar bar_clear (some bar) = some none
use_bar _ bar = some bar

-- The bar after all outputs, if every call on it was in order.
unfoldable pub use_bars : List Output → Option ℤ → Option (Option ℤ)
use_bars [] bar = some bar
use_bars (o ∷ os) bar = elim (use_bar o bar) [ none ↦ none | some bar' ↦ use_bars os bar' ]

use_bars-append :
    (os ps : List Output) (bar : Option ℤ) {after : Option ℤ}
    → use_bars os bar ≡ some after
    → use_bars (os ++ ps) bar ≡ use_bars ps after
unfolding use_bars
use_bars-append [] ps bar {after} h = ap (use_bars ps) (inj h)
  where
    inj : some bar ≡ some after → bar ≡ after
    inj e = cc
use_bars-append (o ∷ os) ps bar {after} h = elim (Option-cases (use_bar o bar)) [
  | inl bad ↦ absurd (stop (rw (bad, use_bars) at h))
  | inr (next, e) ↦ rw (e, use_bars) (use_bars-append os ps next (rw (e, use_bars) at h))
]
  where
    stop : none ≡ some after → ⊥
    stop e = cc

use_bars-process_step : (text : Text) (bar : Option ℤ) → use_bars (process_step text) bar ≡ some bar
unfolding use_bars process_step
use_bars-process_step text bar = ground arith

use_bars-update_bar :
    (width : ℕ) (step total : ℤ) (bar : Option ℤ)
    → use_bars (update_bar width step total (record { progress = bar })).1 bar
      ≡ some (update_bar width step total (record { progress = bar })).0.progress
unfolding use_bars update_bar ensure_bar
use_bars-update_bar width step total none = ground arith
use_bars-update_bar width step total (some old) = ground arith

use_bars-process_progress :
    (widths : Widths) (text : Text) (p p' : Parser) (out : List Output)
    → process_progress widths text p ≡ some (p', out)
    → use_bars out p.progress ≡ some p'.progress
unfolding process_progress
use_bars-process_progress widths text p p' out h = elim (Option-cases (scan_progress text)) [
  | inl e ↦ absurd (ground arith)
  | inr ((step, total), e) ↦
      ground (arith, use_bars-update_bar (widths.at_bar) step total p.progress)
]

use_bars-rest_of_line :
    (widths : Widths) (text : Text) (opts : BuildOpts) (p : Parser)
    → use_bars (rest_of_line widths text opts p).1 p.progress
      ≡ some (rest_of_line widths text opts p).0.progress
unfolding rest_of_line use_bars
use_bars-rest_of_line widths text opts p = elim (Option-cases (process_progress widths text p)) [
  | inl e ↦ ground arith
  | inr ((p', out), e) ↦ ground (arith, use_bars-process_progress widths text p p' out e)
]

-- Processing a line keeps the bar and the parser's field in step.
pub use_bars-process_line :
    (widths : Widths) (text : Text) (opts : BuildOpts) (p : Parser)
    → use_bars (process_line widths text opts p).1 p.progress
      ≡ some (process_line widths text opts p).0.progress
unfolding process_line
use_bars-process_line widths text opts p = elim (Bool-cases (has_prefix text (lit "Step "))) [
  | inl e ↦ rw e (
      use_bars-append (process_step text) _ p.progress (use_bars-process_step text p.progress)
      ∙ use_bars-rest_of_line widths text opts p)
  | inr e ↦ rw e (use_bars-rest_of_line widths text opts p)
]

module _ (strip : Text → Text) (widths : ℕ → Widths) (opts : BuildOpts) where
  use_bars-process_lines :
      (i : ℕ) (lines : List Text) (p : Parser)
      → use_bars (process_lines strip widths opts i lines p).1 p.progress
        ≡ some (process_lines strip widths opts i lines p).0.progress
  unfolding process_lines use_bars
  use_bars-process_lines i [] p = refl
  use_bars-process_lines i (line ∷ lines) p =
      use_bars-append ((process_line (widths i) (strip line) opts p).1)
        ((process_lines strip widths opts (suc i) lines
          (process_line (widths i) (strip line) opts p).0).1)
        p.progress (use_bars-process_line (widths i) (strip line) opts p)
      ∙ use_bars-process_lines (suc i) lines _

  -- For any build output, terminal widths and options: no call on the progress bar is made without
  -- a bar, none is made while there is one, and the parser's field tells at the end whether a bar
  -- is left on the screen.
  pub use_bars-parse :
      (input : Text) (p : Parser)
      → use_bars (parse strip widths opts input p).2 p.progress
        ≡ some (parse strip widths opts input p).1.progress
  unfolding parse use_bars
  use_bars-parse input p =
      use_bars-append (process_lines strip widths opts 0 (scan_lines input).0 p).1 (live [] ∷ [])
        p.progress (use_bars-process_lines 0 (scan_lines input).0 p)
