-- ===== src/Ui/Live.antt =====
-- ui/ui.go: the console's width and the live line, which fills the width exactly so that it covers
-- the line before it. Texts are bytes, as in Go.
pub mod Laws
pub mod Printed
use bitcoinx.Base.{
  ℕ, zero, suc, ◌+◌, ◌-◌, ◌≤◌, ◌<◌, Text, List, [], ◌∷◌, ◌++◌, Bool, true, false, Option, none,
  some, Result, ok, err, lit,
}
use bitcoinx.Base.{if◌then◌else◌, leb, ltb, length, take}
use bitcoinx.Base.Int.{ℤ, pos, negsuc}
use bitcoinx.Ui.Runes.{rune_count, trim_space}
use bitcoinx.Ui.Message.{Printing, small}

-- `ConsoleWidth`, from what `terminal.GetSize` returns.
unfoldable pub console_width : Result ℤ → ℕ
console_width (ok (pos zero)) = 80
console_width (ok (pos (suc n))) = suc n
console_width (ok (negsuc n)) = 80
console_width (err e) = 80

-- "…"
abbrev pub ellipsis : Text
ellipsis = 0xe2 ∷ 0x80 ∷ 0xa6 ∷ []

-- What the line shows, or a panic: Go's slice expression `msg[0:len(msg)-4]` is out of range.
pub data Shown : Type 0 where
  shown : Text → Shown
  panics : Shown

-- The loop that shortens the message. `none` means that the fuel ran out.
unfoldable pub shorten : ℕ → ℕ → Text → Option Shown
shorten zero width msg = none
shorten (suc fuel) width msg =
    let shorter = shorten fuel width (take (length msg - 4) msg ++ ellipsis) in
    if ltb width (rune_count msg)
    then (if ltb (length msg) 4 then some panics else shorter)
    else some (shown msg)

-- The loop that pads it.
unfoldable pub pad : ℕ → ℕ → Text → Option Text
pad zero width msg = none
pad (suc fuel) width msg =
    let longer = pad fuel width (msg ++ 32 ∷ []) in
    if ltb (rune_count msg) width then longer else some msg

padded : ℕ → Option Shown → Option Shown
padded width none = none
padded width (some panics) = some panics
padded width (some (shown msg)) = elim (pad (suc width) width msg) [
  | none ↦ none
  | some t ↦ some (shown t)
]

-- The line of `Live`, before `Small` makes it dim; `frame` is what `spinner.Next` returns.
unfoldable pub live : Text → ℕ → Text → Option Shown
unfolding padded
live frame width msg =
    let line = frame ++ 32 ∷ trim_space msg in padded width (shorten (suc (length line)) width line)

-- What `Live` prints.
abbrev pub dimmed : {A : Type 0} → Printing A → Bool → Option Shown → Option Shown
dimmed printing disabled none = none
dimmed printing disabled (some panics) = some panics
dimmed printing disabled (some (shown line)) = some (
    shown
      (printing.sprintf (lit "%s" ++ 13 ∷ []) (printing.text (small printing disabled line) ∷ [])))

unfoldable pub print_live : {A : Type 0} → Printing A → Bool → Text → ℕ → Text → Option Shown
print_live printing disabled frame width msg = dimmed printing disabled (live frame width msg)
