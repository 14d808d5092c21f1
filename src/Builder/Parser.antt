-- ===== src/Builder/Parser.antt =====
-- builder/parser.go: what is printed for the output of `docker build`, line by line. Terminal and
-- progress bar are third-party code: the calls are recorded as outputs, in order. The width of the
-- terminal at each call of `ui.ConsoleWidth` is an input.
pub mod Bar
pub mod Laws
pub mod Reports
use bitcoinx.Base.{
  ℕ, zero, suc, Text, lit, List, [], ◌∷◌, ◌++◌, Bool, true, false, Option, none, some, Result, ok,
}
use bitcoinx.Base.{if◌then◌else◌, ltb, has_prefix, contains}
use bitcoinx.Base.Int.{ℤ, eq_ℤ, sub_ℕ}
use bitcoinx.Base.Lines.{scan_lines}
use bitcoinx.Builder.Scan.{scan_progress}

-- `live` is `ui.Live`, `verbose` is `ui.Verbose`, `stage n` the line that announces stage n of 4.
-- The others are calls on the progress bar: made with a total and a width, and its methods.
pub data Output : Type 0 where
  live verbose : Text → Output
  stage : ℕ → Output
  bar_new : ℤ → ℤ → Output
  bar_add : ℕ → Output
  bar_finish bar_clear : Output

pub record BuildOpts : Type 0 where
  pub verbose : Bool
  pub no_cache : Bool

-- The parser's one field, `progress`: the total that the bar was made with, if there is a bar.
pub record Parser : Type 0 where
  pub progress : Option ℤ

-- The widths that `ui.ConsoleWidth` returns while one line is processed: at the test, and when a
-- bar is made.
pub record Widths : Type 0 where
  pub at_test : ℕ
  pub at_bar : ℕ

unfoldable pub process_step : Text → List Output
process_step text =
    if contains text (lit "RUN apk add --no-cache")
    then stage 1 ∷ []
    else if contains text (lit "RUN dep ensure")
    then stage 2 ∷ []
    else if contains text (lit "RUN find vendor")
    then stage 3 ∷ []
    else if contains text (lit "RUN     CGO_ENABLED=0 go build")
    then stage 4 ∷ []
    else []

-- The bar in use, and the calls that make it if there is none.
unfoldable pub ensure_bar : ℕ → ℤ → Option ℤ → ℤ × List Output
ensure_bar width total none = (total, live [] ∷ bar_new total (sub_ℕ width 20) ∷ [])
ensure_bar width total (some old) = (old, [])

-- A progress update, once both numbers were read.
unfoldable pub update_bar : ℕ → ℤ → ℤ → Parser → Parser × List Output
update_bar width step total p =
    let (bar, made) = ensure_bar width total p.progress in
    if eq_ℤ step total
    then (record { progress = none }, made ++ bar_add 1 ∷ bar_finish ∷ bar_clear ∷ [])
    else (record { progress = some bar }, made ++ bar_add 1 ∷ [])

-- The result is `none` where the function returns false.
unfoldable pub process_progress : Widths → Text → Parser → Option (Parser × List Output)
process_progress widths text p =
    if ltb (widths.at_test) 80 then none else elim (scan_progress text) [
      | none ↦ none
      | some (step, total) ↦ some (update_bar (widths.at_bar) step total p)
    ]

-- What follows the announcement of a stage.
unfoldable pub rest_of_line : Widths → Text → BuildOpts → Parser → Parser × List Output
rest_of_line widths text opts p =
    if opts.verbose then (p, verbose text ∷ []) else elim (process_progress widths text p) [
      | some (p', out) ↦ (p', out)
      | none ↦ (p, live text ∷ [])
    ]

unfoldable pub process_line : Widths → Text → BuildOpts → Parser → Parser × List Output
process_line widths text opts p =
    let (p', out) = rest_of_line widths text opts p in
    (p', (if has_prefix text (lit "Step ") then process_step text else []) ++ out)

module _ (strip : Text → Text) (widths : ℕ → Widths) (opts : BuildOpts) where
  -- The loop over the lines, from line number `i` on; `strip` is `stripansi.Strip`.
  unfoldable pub process_lines : ℕ → List Text → Parser → Parser × List Output
  process_lines i [] p = (p, [])
  process_lines i (line ∷ lines) p =
      let (p', out) = process_line (widths i) (strip line) opts p in
      let (p'', more) = process_lines (suc i) lines p' in (p'', out ++ more)

  -- The scanner's error is not looked at, and the result is always nil.
  unfoldable pub parse : Text → Parser → Result (Unit {0}) × Parser × List Output
  parse input p =
      let (p', out) = process_lines 0 ((scan_lines input).0) p in (ok tt, p', out ++ live [] ∷ [])
