-- ===== src/Builder/Parser/Laws.antt =====
-- What is shown in verbose mode, and what one progress update does to the bar.
use mathlib.Core.List.{append-nil}
use bitcoinx.Base.{
  ℕ, suc, ◌≤◌, ◌<◌, Text, lit, List, [], ◌∷◌, ◌++◌, true, false, none, some, ◌≡◌, refl, ◌∙◌, ap,
  arith, map, le→ltb,
}
use bitcoinx.Base.{has_prefix, Bool-cases, inl, inr}
use bitcoinx.Base.Int.{sub_ℕ, pos}
use bitcoinx.Base.Lines.{scan_lines}
use bitcoinx.Base.Decimal.{decimal}
use bitcoinx.Builder.Scan.{scan_progress-decimal, max_int}
use bitcoinx.Builder.Parser.{
  Output, live, verbose, bar_new, bar_add, bar_finish, bar_clear, BuildOpts, Parser,
}
use bitcoinx.Builder.Parser.{
  Widths, process_step, update_bar, ensure_bar, process_progress, rest_of_line, process_line,
  process_lines, parse,
}

-- The lines that were printed in full, in order.
unfoldable pub verbose_texts : List Output → List Text
verbose_texts [] = []
verbose_texts (verbose text ∷ os) = text ∷ verbose_texts os
verbose_texts (_ ∷ os) = verbose_texts os

verbose_texts-append :
    (os ps : List Output) → verbose_texts (os ++ ps) ≡ verbose_texts os ++ verbose_texts ps
unfolding verbose_texts
verbose_texts-append [] ps = refl
verbose_texts-append (verbose text ∷ os) ps =
    ap (λ (l : List Text). text ∷ l) (verbose_texts-append os ps)
verbose_texts-append (_ ∷ os) ps = verbose_texts-append os ps

verbose_texts-process_step : (text : Text) → verbose_texts (process_step text) ≡ []
unfolding verbose_texts process_step
verbose_texts-process_step text = ground arith

verbose_line :
    (widths : Widths) (text : Text) (opts : BuildOpts) (p : Parser)
    → opts.verbose ≡ true
    → (verbose_texts (process_line widths text opts p).1 ≡ text ∷ [])
      × ((process_line widths text opts p).0 ≡ p)
unfolding process_line rest_of_line verbose_texts
verbose_line widths text opts p v = elim (Bool-cases (has_prefix text (lit "Step "))) [
  | inl e ↦ (rw (v, e, verbose_texts-append, verbose_texts-process_step), rw v)
  | inr e ↦ (rw (v, e), rw v)
]

module _ (strip : Text → Text) (widths : ℕ → Widths) (opts : BuildOpts)
    (v : opts.verbose ≡ true) where
  verbose_lines :
      (i : ℕ) (lines : List Text) (p : Parser)
      → verbose_texts (process_lines strip widths opts i lines p).1 ≡ map strip lines
  unfolding process_lines verbose_texts
  verbose_lines i [] p = refl
  verbose_lines i (line ∷ lines) p =
      verbose_texts-append (process_line (widths i) (strip line) opts p).1 _
      ∙ rw ((verbose_line (widths i) (strip line) opts p v).0)
          (ap (λ (l : List Text). strip line ∷ l) (verbose_lines (suc i) lines _))

  -- In verbose mode every line that the scanner delivers is handed to `ui.Verbose`, once and in order,
  -- after its escape sequences were stripped.
  pub verbose_texts-parse :
      (input : Text) (p : Parser)
      → verbose_texts (parse strip widths opts input p).2 ≡ map strip (scan_lines input).0
  unfolding parse verbose_texts
  verbose_texts-parse input p =
      verbose_texts-append (process_lines strip widths opts 0 (scan_lines input).0 p).1
        (live [] ∷ [])
      ∙ (rw append-nil (verbose_lines 0 ((scan_lines input).0) p))

-- The line for update `i` of `n`, as `(i/n)`, with what follows it.
unfoldable pub update_text : ℕ → ℕ → Text → Text
update_text i n rest = b'(' ∷ (decimal i ++ b'/' ∷ (decimal n ++ b')' ∷ rest))

pub process_line-update :
    (w : Widths) (i n : ℕ) (rest : Text) (opts : BuildOpts) (p : Parser)
    → opts.verbose ≡ false
    → 80 ≤ w.at_test
    → i ≤ max_int
    → n ≤ max_int
    → process_line w (update_text i n rest) opts p ≡ update_bar w.at_bar (pos i) (pos n) p
unfolding process_line rest_of_line process_progress update_text has_prefix
process_line-update w i n rest opts p quiet wide hi hn =
    rw (quiet, le→ltb w.at_test 80 wide, scan_progress-decimal i n (b')' ∷ rest) hi hn refl)

pub update_bar-more :
    (w i n : ℕ)
    → i < n
    → update_bar w (pos i) (pos n) (record { progress = some (pos n) })
      ≡ (record { progress = some (pos n) }, bar_add 1 ∷ [])
unfolding update_bar ensure_bar
update_bar-more w i n h = ground arith

pub update_bar-last :
    (w n : ℕ)
    → update_bar w (pos n) (pos n) (record { progress = some (pos n) })
      ≡ (record { progress = none }, bar_add 1 ∷ bar_finish ∷ bar_clear ∷ [])
unfolding update_bar ensure_bar
update_bar-last w n = ground arith

pub update_bar-first :
    (w i n : ℕ)
    → i < n
    → update_bar w (pos i) (pos n) (record { progress = none }) ≡ (
      record { progress = some (pos n) },
      live [] ∷ bar_new (pos n) (sub_ℕ w 20) ∷ bar_add 1 ∷ [],
    )
unfolding update_bar ensure_bar
update_bar-first w i n h = ground arith
