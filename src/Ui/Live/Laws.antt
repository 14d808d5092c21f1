-- ===== src/Ui/Live/Laws.antt =====
-- The live line fills the console, and when it panics.
use bitcoinx.Base.{
  ℕ, zero, suc, ◌+◌, ◌-◌, ◌≤◌, ◌<◌, ◌≡◌, refl, Text, [], ◌∷◌, ◌++◌, some, Result, ok, err, arith,
  inl, inr,
}
use bitcoinx.Base.{
  ltb, length, take, length-append, Bool-cases, ltb→lt, le→ltb, lt→ltb, ltb_false→le, ap,
}
use bitcoinx.Base.Int.{ℤ, pos, negsuc}
use bitcoinx.Ui.Runes.{rune_count, trim_space, rune_count-le, rune_count-space, rune_count-ascii}
use bitcoinx.Ui.Live.{console_width, ellipsis, shown, panics, shorten, pad, padded, live}

-- A terminal is never taken to be zero columns wide.
pub console_width-pos : (size : Result ℤ) → 0 < console_width size
unfolding console_width
console_width-pos (ok (pos zero)) = omega arith
console_width-pos (ok (pos (suc n))) = omega arith
console_width-pos (ok (negsuc n)) = omega arith
console_width-pos (err e) = omega arith

length-take_sub : (n : ℕ) (s : Text) → n ≤ length s → length (take (length s - n) s) ≡ length s - n
length-take_sub n s h = length-take_le (length s - n) s (omega arith)
  where
    length-take_le : (n : ℕ) (s : Text) → n ≤ length s → length (take n s) ≡ n
    length-take_le zero s h = refl
    length-take_le (suc n) [] h = absurd (omega arith)
    length-take_le (suc n) (c ∷ s) h = ap suc (length-take_le n s (omega arith))

-- On at least three columns the message is shortened without a panic until it fits: the loop drops
-- one byte a round.
shorten-fits :
    (fuel width : ℕ) (msg : Text)
    → 3 ≤ width
    → length msg < fuel
    → (t : Text) × (shorten fuel width msg ≡ some (shown t)) × (rune_count t ≤ width)
unfolding shorten
shorten-fits zero width msg w f = absurd (omega arith)
shorten-fits (suc fuel) width msg w f = elim (Bool-cases (ltb width (rune_count msg))) [
  | inr fits ↦ (msg, rw fits, ltb_false→le _ _ fits)
  | inl long ↦
      let bytes : 4 ≤ length msg = omega (arith, ltb→lt _ _ long, rune_count-le msg) in
      let (t, e, k) = shorten-fits fuel width (take (length msg - 4) msg ++ ellipsis) w (
        omega (
          arith,
          length-append {0} (take (length msg - 4) msg) ellipsis,
          length-take_sub 4 msg bytes,
        )) in
      (t, rw (long, le→ltb _ _ bytes) e, k)
]

pad-fills :
    (fuel width : ℕ) (msg : Text)
    → rune_count msg ≤ width
    → width < fuel + rune_count msg
    → (t : Text) × (pad fuel width msg ≡ some t) × (rune_count t ≡ width)
unfolding pad
pad-fills zero width msg h f = absurd (omega arith)
pad-fills (suc fuel) width msg h f = elim (Bool-cases (ltb (rune_count msg) width)) [
  | inr full ↦ (msg, rw full, omega (arith, ltb_false→le _ _ full))
  | inl short ↦
      let (t, e, k) =
        pad-fills fuel width (msg ++ 32 ∷ [])
          (omega (arith, rune_count-space msg, ltb→lt _ _ short))
          (omega (arith, rune_count-space msg)) in
      (t, rw short e, k)
]

-- On a terminal of at least three columns the live line is shown, for any message and any frame of
-- the spinner, and it has exactly as many runes as the terminal has columns.
pub live-fills :
    (frame msg : Text) (width : ℕ)
    → 3 ≤ width
    → (t : Text) × (live frame width msg ≡ some (shown t)) × (rune_count t ≡ width)
unfolding live
live-fills frame msg width w =
    let line : Text = frame ++ 32 ∷ trim_space msg in
    let (s, e, fits) = shorten-fits (suc (length line)) width line w (omega arith) in
    let (t, e', k) = pad-fills (suc width) width s fits (omega arith) in
    (t, rw e (rw (e', padded)), k)

shorten-panics :
    (fuel width : ℕ) (msg : Text)
    → width < rune_count msg
    → length msg < 4
    → shorten (suc fuel) width msg ≡ some panics
unfolding shorten
shorten-panics fuel width msg long short = rw (lt→ltb _ _ long, lt→ltb _ _ short)

-- On a terminal of one column the live line panics when the message is empty or blank and the
-- spinner's frame is one ASCII character.
pub live-panics :
    (c : ℕ) (msg : Text) → c < 128 → trim_space msg ≡ [] → live (c ∷ []) 1 msg ≡ some panics
unfolding live
live-panics c msg h e =
    rw e (rw (shorten-panics 2 1 (c ∷ 32 ∷ []) (omega (arith, rune_count-ascii c h)) (omega arith)))
