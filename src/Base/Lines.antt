-- ===== src/Base/Lines.antt =====
-- `bufio.Scanner` as the program uses it, with its default split into lines: the tokens that `Scan`
-- delivers for a whole input, and what `Err` returns after the last.
use Prim.Native.Nat.{ℕ, ◌<◌}
use mathlib.Core.Path.{◌≡◌, refl, ap}
use mathlib.Core.Bool.{Bool}
use mathlib.Core.Option.{Option, none, some}
use mathlib.Core.List.{List, [], ◌∷◌, ◌++◌}
use native.Mathlib.Omega.{arith}
use bitcoinx.Base.Tests.{leb, if◌then◌else◌, ◌==◌}
use bitcoinx.Base.Lists.{All, length}
use bitcoinx.Base.Errors.{Error, too_long}
use bitcoinx.Base.Texts.{Text, Lacks, is_empty, split_at, split_at-append, split_at-cons}

-- `bufio.MaxScanTokenSize`
unfoldable pub max_token : ℕ
max_token = 65536

-- The buffer is full before the line's end is found.
is_long : Text → Bool
unfolding max_token
is_long line = leb max_token (length line)

-- One carriage return at the end of a line is dropped.
unfoldable pub drop_cr : Text → Text
drop_cr [] = []
drop_cr (c ∷ []) = if c == 13 then [] else c ∷ []
drop_cr (c ∷ d ∷ s) = c ∷ drop_cr (d ∷ s)

-- The last piece is a token only if it is not empty.
last_token : Text → List Text × Option Error
last_token p =
    if is_empty p
    then ([], none)
    else if is_long p
    then ([], some too_long)
    else (drop_cr p ∷ [], none)

tokens : List Text → List Text × Option Error
unfolding last_token
tokens [] = ([], none)
tokens (p ∷ []) = last_token p
tokens (p ∷ q ∷ r) =
    let rest = tokens (q ∷ r) in
    if is_long p then ([], some too_long) else (drop_cr p ∷ rest.0, rest.1)

unfoldable pub scan_lines : Text → List Text × Option Error
unfolding tokens last_token is_long max_token drop_cr split_at
scan_lines s = tokens (split_at 10 s)

-- Lines printed by `Fprintln`, one after the other.
unfoldable pub print_lines : List Text → Text
print_lines [] = []
print_lines (l ∷ ls) = l ++ 10 ∷ print_lines ls

-- A line that the scanner delivers as it stands: no line feed, no final carriage return, not long.
pub record IsLine (l : Text) : Type 0 where
  pub one_line : Lacks 10 l
  pub no_cr : drop_cr l ≡ l
  pub short : length l < max_token

split_at-print_lines :
    (l : Text) (ls : List Text)
    → Lacks 10 l
    → split_at 10 (print_lines (l ∷ ls)) ≡ l ∷ split_at 10 (print_lines ls)
unfolding print_lines
split_at-print_lines l ls h = split_at-append 10 l (print_lines ls) h

tokens-cons :
    (l : Text) (p : Text) (ps : List Text)
    → IsLine l
    → tokens (l ∷ p ∷ ps) ≡ (l ∷ (tokens (p ∷ ps)).0, (tokens (p ∷ ps)).1)
unfolding tokens is_long
tokens-cons l p ps h = ground (arith, h.no_cr)

tokens-split_at :
    (l s : Text)
    → IsLine l
    → tokens (l ∷ split_at 10 s) ≡ (l ∷ (tokens (split_at 10 s)).0, (tokens (split_at 10 s)).1)
tokens-split_at l s h = let (p, ps, e) = split_at-cons 10 s in rw e (tokens-cons l p ps h)

-- What was printed line by line is scanned as the same lines, without an error.
pub scan_lines-print_lines :
    (ls : List Text) → All IsLine ls → scan_lines (print_lines ls) ≡ (ls, none)
unfolding scan_lines print_lines
scan_lines-print_lines [] h = refl
scan_lines-print_lines (l ∷ ls) h =
    rw (split_at-print_lines l ls h.0.one_line, tokens-split_at l (print_lines ls) h.0)
      (ap (λ (r : List Text × Option Error). (l ∷ r.0, r.1)) (scan_lines-print_lines ls h.1))
