-- ===== src/Assets/Stream.antt =====
-- templates/assets_vfsdata.go: `Read` and `Seek` of an opened file whose bytes are compressed. The
-- reader of compress/gzip only goes forwards; `Read` brings it to the place that `Seek` has set.
pub mod Moves
pub mod Laws
pub mod Stale
pub mod All
use bitcoinx.Base.{
  ℕ, ◌+◌, ◌-◌, Bool, true, false, if◌then◌else◌, ltb, ◌==◌, Text, [], Option, none, some, Result,
  ok, err, Error, panic, length,
}
use bitcoinx.Base.Int.{ℤ, pos, negsuc, ◌+ℤ◌, int64}
use bitcoinx.Assets.{Readers, CompressedFile}

-- grPos > seekPos
abbrev pub is_ahead : ℕ → ℤ → Bool
is_ahead gr_pos (pos n) = ltb n gr_pos
is_ahead gr_pos (negsuc n) = true

-- seekPos - grPos, or 0 if that is negative.
abbrev pub missing : ℕ → ℤ → ℕ
missing gr_pos (pos n) = n - gr_pos
missing gr_pos (negsuc n) = 0

-- The position after a step of the reader, which is only set if the step has no error.
abbrev pub moved : Option Error → ℕ → ℕ → ℕ
moved none from to = to
moved (some e) from to = from

-- `if err != nil { return 0, err }`
abbrev pub or_return :
    {F : Type 0} → Option Error × F → (F → (Text × Option Error) × F) → (Text × Option Error) × F
or_return (none, f) next = next f
or_return (some e, f) next = (([], some e), f)

-- `whence` is `io.SeekStart`, `io.SeekCurrent` or `io.SeekEnd`.
unfoldable pub seek_to : {G : Type 0} → CompressedFile G → ℤ → ℕ → Option ℤ
seek_to f offset whence =
    if whence == 0
    then some offset
    else if whence == 1
    then some (int64 (f.seek_pos +ℤ offset))
    else if whence == 2
    then some (int64 (pos f.uncompressed_size +ℤ offset))
    else none

unfoldable pub seek : {G : Type 0} → CompressedFile G → ℤ → ℕ → Result ℤ × CompressedFile G
seek f offset whence = elim (seek_to f offset whence) [
  | some place ↦ (ok place, record f { seek_pos = place })
  | none ↦ (err panic, f)
]

module _ {G B : Type 0} (readers : Readers G B) where
  open readers use {reset, skip}

  -- To the beginning, if the reader is too far.
  unfoldable pub rewind : CompressedFile G → Option Error × CompressedFile G
  rewind f =
      let (e, g) = reset f.gr f.content in
      if is_ahead f.gr_pos f.seek_pos
      then (e, record f { gr = g; gr_pos = moved e f.gr_pos 0 })
      else (none, f)

  unfoldable pub fast_forward : CompressedFile G → Option Error × CompressedFile G
  fast_forward f =
      let n = missing f.gr_pos f.seek_pos in
      let (e, g) = skip f.gr n in
      if ltb 0 n
      then (e, record f { gr = g; gr_pos = moved e f.gr_pos (f.gr_pos + n) })
      else (none, f)

  -- The bytes at the reader's position, at most `n`.
  unfoldable pub read_here : ℕ → CompressedFile G → (Text × Option Error) × CompressedFile G
  read_here n f =
      let (r, g) = readers.read f.gr n in
      let at = f.gr_pos + length r.0 in (r, record f { gr = g; gr_pos = at; seek_pos = pos at })

  -- `Read` into a slice of `n` bytes.
  unfoldable pub read : CompressedFile G → ℕ → (Text × Option Error) × CompressedFile G
  read f n = or_return (rewind f) (λ f1. or_return (fast_forward f1) (read_here n))
