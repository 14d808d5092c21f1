-- ===== src/Builder/Parser/Reports.antt =====
-- The bar that is shown for a whole build, whose updates other lines interrupt.
use mathlib.Core.List.{append-nil}
use bitcoinx.Base.{
  ℕ, zero, suc, ◌+◌, ◌≤◌, Text, lit, List, [], ◌∷◌, ◌++◌, false, none, some, ◌≡◌, refl, ◌∙◌, ap,
  arith, replicate,
}
use bitcoinx.Base.{has_prefix, Bool-cases, inl, inr}
use bitcoinx.Base.Int.{sub_ℕ, pos}
use bitcoinx.Base.Lines.{scan_lines}
use bitcoinx.Builder.Scan.{scan_progress, max_int}
use bitcoinx.Builder.Parser.{
  Output, live, verbose, stage, bar_new, bar_add, bar_finish, bar_clear, BuildOpts, Parser, Widths,
}
use bitcoinx.Builder.Parser.{
  process_step, process_progress, rest_of_line, process_line, process_lines, parse, update_bar,
}
use bitcoinx.Builder.Parser.Laws.{
  update_text, process_line-update, update_bar-first, update_bar-more, update_bar-last,
}

-- The calls on bars, in order.
unfoldable pub bar_calls : List Output → List Output
bar_calls [] = []
bar_calls (live text ∷ os) = bar_calls os
bar_calls (verbose text ∷ os) = bar_calls os
bar_calls (stage n ∷ os) = bar_calls os
bar_calls (bar_new total width ∷ os) = bar_new total width ∷ bar_calls os
bar_calls (bar_add n ∷ os) = bar_add n ∷ bar_calls os
bar_calls (bar_finish ∷ os) = bar_finish ∷ bar_calls os
bar_calls (bar_clear ∷ os) = bar_clear ∷ bar_calls os

bar_calls-append : (os ps : List Output) → bar_calls (os ++ ps) ≡ bar_calls os ++ bar_calls ps
unfolding bar_calls
bar_calls-append [] ps = refl
bar_calls-append (live text ∷ os) ps = bar_calls-append os ps
bar_calls-append (verbose text ∷ os) ps = bar_calls-append os ps
bar_calls-append (stage n ∷ os) ps = bar_calls-append os ps
bar_calls-append (bar_new total width ∷ os) ps =
    ap (λ (l : List Output). bar_new total width ∷ l) (bar_calls-append os ps)
bar_calls-append (bar_add n ∷ os) ps =
    ap (λ (l : List Output). bar_add n ∷ l) (bar_calls-append os ps)
bar_calls-append (bar_finish ∷ os) ps =
    ap (λ (l : List Output). bar_finish ∷ l) (bar_calls-append os ps)
bar_calls-append (bar_clear ∷ os) ps =
    ap (λ (l : List Output). bar_clear ∷ l) (bar_calls-append os ps)

bar_calls-end : (os : List Output) → bar_calls (os ++ live [] ∷ []) ≡ bar_calls os
unfolding bar_calls
bar_calls-end os = bar_calls-append os (live [] ∷ []) ∙ append-nil _

bar_calls-process_step : (text : Text) → bar_calls (process_step text) ≡ []
unfolding bar_calls process_step
bar_calls-process_step text = ground arith

-- The lines report `count` updates of `n`, from number `i` on. Before, between and behind them there
-- are lines in which the parser finds no update.
pub data Reports (strip : Text → Text) (n : ℕ) : ℕ → ℕ → List Text → Type 0 where
  done : {i : ℕ} → Reports strip n zero i []
  other :
      {count i : ℕ} {line : Text} {lines : List Text}
      → scan_progress (strip line) ≡ none
      → Reports strip n count i lines
      → Reports strip n count i (line ∷ lines)
  next :
      {count i : ℕ} {line : Text} {lines : List Text} (rest : Text)
      → strip line ≡ update_text i n rest
      → Reports strip n count (i + 1) lines
      → Reports strip n (suc count) i (line ∷ lines)

-- What happens to one bar: it is advanced `n` times, finished and cleared.
abbrev pub advanced : ℕ → List Output
advanced n = replicate n (bar_add 1) ++ bar_finish ∷ bar_clear ∷ []

module _ (strip : Text → Text) (widths : ℕ → Widths) (opts : BuildOpts)
    (quiet : opts.verbose ≡ false) (wide : (i : ℕ) → 80 ≤ (widths i).at_test) where
  process_line-other :
      (w : Widths) (text : Text) (p : Parser)
      → scan_progress text ≡ none
      → ((process_line w text opts p).0 ≡ p) × (bar_calls (process_line w text opts p).1 ≡ [])
  unfolding process_line rest_of_line process_progress bar_calls
  process_line-other w text p h = elim (Bool-cases (has_prefix text (lit "Step "))) [
    | inl e ↦ rw (quiet, h, e, bar_calls-append, bar_calls-process_step) (ground arith)
    | inr e ↦ rw (quiet, h, e) (ground arith)
  ]

  -- One line, and those behind it.
  process_lines-next :
      (k : ℕ) (line : Text) (lines : List Text) (p p' : Parser) (calls : List Output)
      → (process_line (widths k) (strip line) opts p).0 ≡ p'
      → bar_calls (process_line (widths k) (strip line) opts p).1 ≡ calls
      → ((process_lines strip widths opts k (line ∷ lines) p).0
          ≡ (process_lines strip widths opts (suc k) lines p').0)
        × (bar_calls (process_lines strip widths opts k (line ∷ lines) p).1
            ≡ calls ++ bar_calls (process_lines strip widths opts (suc k) lines p').1)
  unfolding process_lines
  process_lines-next k line lines p p' calls e c = (
    ap (λ (q : Parser). (process_lines strip widths opts (suc k) lines q).0) e,
    bar_calls-append (process_line (widths k) (strip line) opts p).1 _ ∙ rw (c, e) refl,
  )

  process_line-next :
      (k i n : ℕ) (line rest : Text) (p : Parser)
      → i ≤ n
      → n ≤ max_int
      → strip line ≡ update_text i n rest
      → process_line (widths k) (strip line) opts p ≡ update_bar (widths k).at_bar (pos i) (pos n) p
  process_line-next k i n line rest p le max same =
      ap (λ (t : Text). process_line (widths k) t opts p) same
      ∙ process_line-update (widths k) i n rest opts p quiet (wide k) (omega arith) max

  -- Behind the last update.
  reported-end :
      {n i : ℕ} {lines : List Text} (k : ℕ)
      → Reports strip n zero i lines
      → ((process_lines strip widths opts k lines (record { progress = none })).0
          ≡ record { progress = none })
        × (bar_calls (process_lines strip widths opts k lines (record { progress = none })).1 ≡ [])
  unfolding process_lines bar_calls
  reported-end k done = (refl, refl)
  reported-end k (other h more) =
      let (same, calls) = process_line-other (widths k) _ (record { progress = none }) h in
      let (p, c) = process_lines-next k _ _ _ _ _ same calls in
      let (p', c') = reported-end (suc k) more in (p ∙ p', c ∙ c')

  -- While there is a bar.
  reported-bar :
      {n l i : ℕ} {lines : List Text} (k : ℕ)
      → i + l ≡ n
      → n ≤ max_int
      → Reports strip n (suc l) i lines
      → ((process_lines strip widths opts k lines (record { progress = some (pos n) })).0
          ≡ record { progress = none })
        × (bar_calls
              (process_lines strip widths opts k lines (record { progress = some (pos n) })).1
            ≡ advanced (suc l))
  unfolding bar_calls
  reported-bar k e max (other h more) =
      let (same, calls) = process_line-other (widths k) _ _ h in
      let (p, c) = process_lines-next k _ _ _ _ _ same calls in
      let (p', c') = reported-bar (suc k) e max more in (p ∙ p', c ∙ c')
  reported-bar {n} {l = zero} {i} k e max (next rest same more) =
      let last : i ≡ n = omega arith in
      let line =
        process_line-next k i n _ rest (record { progress = some (pos n) }) (omega arith) max same
        ∙ ap
            (λ (j : ℕ).
              update_bar (widths k).at_bar (pos j) (pos n) (record { progress = some (pos n) }))
            last
        ∙ update_bar-last (widths k).at_bar n in
      let (p, c) =
        process_lines-next k _ _ _ _ _ (ap (λ (r : Parser × List Output). r.0) line)
          (ap (λ (r : Parser × List Output). bar_calls r.1) line) in
      let (p', c') = reported-end (suc k) more in (p ∙ p', c ∙ rw c' refl)
  reported-bar {n} {l = suc l} {i} k e max (next rest same more) =
      let later : (i + 1) + l ≡ n = omega arith in
      let line =
        process_line-next k i n _ rest (record { progress = some (pos n) }) (omega arith) max same
        ∙ update_bar-more (widths k).at_bar i n (omega arith) in
      let (p, c) =
        process_lines-next k _ _ _ _ _ (ap (λ (r : Parser × List Output). r.0) line)
          (ap (λ (r : Parser × List Output). bar_calls r.1) line) in
      let (p', c') = reported-bar (suc k) later max more in (p ∙ p', c ∙ rw c' refl)

  -- Before the first update, of two or more.
  reported-first :
      {n l i : ℕ} {lines : List Text} (k : ℕ)
      → i + suc l ≡ n
      → n ≤ max_int
      → Reports strip n (suc (suc l)) i lines
      → ((process_lines strip widths opts k lines (record { progress = none })).0
          ≡ record { progress = none })
        × ((j : ℕ) × (bar_calls
                (process_lines strip widths opts k lines (record { progress = none })).1
              ≡ bar_new (pos n) (sub_ℕ (widths j).at_bar 20) ∷ advanced (suc (suc l))))
  unfolding bar_calls
  reported-first k e max (other h more) =
      let (same, calls) = process_line-other (widths k) _ _ h in
      let (p, c) = process_lines-next k _ _ _ _ _ same calls in
      let (p', (j, c')) = reported-first (suc k) e max more in (p ∙ p', (j, c ∙ c'))
  reported-first {n} {l} {i} k e max (next rest same more) =
      let later : (i + 1) + l ≡ n = omega arith in
      let line =
        process_line-next k i n _ rest (record { progress = none }) (omega arith) max same
        ∙ update_bar-first (widths k).at_bar i n (omega arith) in
      let (p, c) =
        process_lines-next k _ _ _ _ _ (ap (λ (r : Parser × List Output). r.0) line)
          (ap (λ (r : Parser × List Output). bar_calls r.1) line) in
      let (p', c') = reported-bar (suc k) later max more in (p ∙ p', (k, c ∙ rw c' refl))

  -- The terminal has at least 80 columns, and the build is not in verbose mode. When the lines of a
  -- build's output, stripped of escape sequences, report (1/n) to (n/n) in their order, for an n of two
  -- or more that fits an int, each update with its own text behind the numbers, and the parser finds
  -- no update in any other line, wherever these stand: the display makes one bar, with total n and 20
  -- columns less than the terminal has at one of the lines, advances it n times, finishes it and
  -- clears it, and no bar is left.
  pub parse-Reports :
      (input : Text) (n : ℕ)
      → 2 ≤ n
      → n ≤ max_int
      → Reports strip n n 1 (scan_lines input).0
      → ((parse strip widths opts input (record { progress = none })).1
          ≡ record { progress = none })
        × ((j : ℕ) × (bar_calls (parse strip widths opts input (record { progress = none })).2
              ≡ bar_new (pos n) (sub_ℕ (widths j).at_bar 20) ∷ advanced n))
  unfolding parse
  parse-Reports input (suc (suc l)) two max reports =
      let (p, (j, c)) = reported-first 0 (omega arith) max reports in (p, (j, bar_calls-end _ ∙ c))
  parse-Reports input zero two max reports = absurd (omega arith)
  parse-Reports input (suc zero) two max reports = absurd (omega arith)
