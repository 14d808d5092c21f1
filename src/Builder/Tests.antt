-- ===== src/Builder/Tests.antt =====
-- A build of two steps, and a run of `docker build` that fails.
use bitcoinx.Base.{
  map, ℕ, Text, lit, [], ◌∷◌, true, false, none, some, ok, err, external, ◌≡◌, refl, arith, List,
  subst, sym, suc,
}
use bitcoinx.Base.Int.{pos, sub_ℕ}
use bitcoinx.Builder.Parser.{bar_new, BuildOpts, Widths, Parser, parse}
use bitcoinx.Builder.Parser.Bar.{use_bars, use_bars-parse}
use bitcoinx.Builder.Parser.Reports.{bar_calls, advanced, Reports, done, other, next, parse-Reports}
use bitcoinx.Builder.Parser.Laws.{verbose_texts, verbose_texts-parse, update_text}
use bitcoinx.Builder.Scan.{scan_progress}
use bitcoinx.Base.Decimal.{decimal}
use bitcoinx.Base.Lines.{scan_lines}
use bitcoinx.Builder.Build.{DockerBuild, Builder}

abbrev quiet : BuildOpts
quiet = record { verbose = false; no_cache = false }

abbrev verbose : BuildOpts
verbose = record { verbose = true; no_cache = true }

abbrev wide : ℕ → Widths
wide _ = record { at_test = 100; at_bar = 100 }

abbrev fresh : Parser
fresh = record { progress = none }

abbrev same : Text → Text
same s = s

abbrev output : Text
output = lit "Step 1/2 : FROM x\n(1/2) Wrote a\n ---> 1\n(2/2) Wrote b\n"

abbrev failing : DockerBuild ℕ
failing = record {
  stdout_pipe = λ w. (ok tt, w);
  stderr_pipe = λ w. (ok tt, w);
  start = λ args w. (ok tt, suc w);
  wait = λ w. (err (external 1), w);
  output = λ w. output;
  temp_file = λ w. (err (external 2), w);
  write = λ f t w. (ok tt, w);
  show_log = λ f w. w;
  show_success = λ w. w;
}

abbrev builder : Builder
builder = record { root_dir = lit "/home"; image = lit "i"; parser = fresh }

use_bars-parse_example :
    use_bars (parse same wide quiet output fresh).2 fresh.progress
    ≡ some (parse same wide quiet output fresh).1.progress
use_bars-parse_example = use_bars-parse same wide quiet output fresh

abbrev step : Text
step = lit "Step 1/2 : FROM x"

abbrev layer : Text
layer = lit " ---> 1"

abbrev first : Text
first = lit "(1/2) Wrote a"

abbrev second : Text
second = lit "(2/2) Wrote b"

scanned : (scan_lines output).0 ≡ step ∷ first ∷ layer ∷ second ∷ []
unfolding scan_lines
scanned = refl

step-none : scan_progress step ≡ none
unfolding scan_progress
step-none = refl

layer-none : scan_progress layer ≡ none
unfolding scan_progress
layer-none = refl

first-is : first ≡ update_text 1 2 (lit " Wrote a")
unfolding update_text decimal
first-is = refl

second-is : second ≡ update_text 2 2 (lit " Wrote b")
unfolding update_text decimal
second-is = refl

reported : Reports same 2 2 1 (scan_lines output).0
reported =
    subst (λ (l : List Text). Reports same 2 2 1 l) (sym scanned)
      (other step-none
        (next (lit " Wrote a") first-is (other layer-none (next (lit " Wrote b") second-is done))))

parse-Reports_example :
    ((parse same wide quiet output fresh).1 ≡ fresh)
    × ((j : ℕ) × (bar_calls (parse same wide quiet output fresh).2
          ≡ bar_new (pos 2) (sub_ℕ (wide j).at_bar 20) ∷ advanced 2))
parse-Reports_example =
    parse-Reports same wide quiet refl (λ i. omega arith) output 2 (omega arith) (omega arith)
      reported

verbose_texts-parse_example :
    verbose_texts (parse same wide verbose output fresh).2 ≡ map same (scan_lines output).0
verbose_texts-parse_example = verbose_texts-parse same wide verbose refl output fresh
