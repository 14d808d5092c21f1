-- ===== src/Assets/Stream/Stale.antt =====
-- What `Read` does behind the end of an opened file, and after that.
use bitcoinx.Base.{
  ℕ, ◌-◌, ◌<◌, [], Option, some, le→ltb, Error, eof, length, ◌≡◌, refl, arith, ap, sym, ◌∙◌, Text,
}
use bitcoinx.Base.Int.{pos}
use bitcoinx.Assets.{Readers, CompressedFile}
use bitcoinx.Assets.Stream.{
  is_ahead, missing, or_return, seek_to, seek, fast_forward, read_here, read,
}
use bitcoinx.Assets.Stream.Moves.{
  IsReader, append-nil, InPlace, rewind-none, fast_forward-none, length-left, fast_forward-short,
  with_reader, distance,
}

module _ {G B : Type 0} (readers : Readers G B) {content text : Text} {left : G → Text}
    (reader : IsReader readers content text left) where
  -- A read behind the end.
  read-short :
      (f : CompressedFile G) (n k : ℕ)
      → InPlace readers reader f
      → f.seek_pos ≡ pos k
      → length text < k
      → (g : G) × (read readers f n ≡ (([], some eof), with_reader readers reader f g f.gr_pos))
        × (left g ≡ [])
  unfolding read
  read-short f n k h at behind = (
    (readers.skip f.gr (distance readers reader f)).1,
    ap
          (λ (x : Option Error × CompressedFile G).
            or_return x (λ f1. or_return (fast_forward readers f1) (read_here readers n)))
          (rewind-none readers reader f (
            ap (is_ahead f.gr_pos) at
            ∙ le→ltb k f.gr_pos (omega (arith, length-left readers reader f h, behind))))
        ∙ ap (λ (x : Option Error × CompressedFile G). or_return x (read_here readers n))
            (fast_forward-short readers reader f
              (omega (arith, far, length-left readers reader f h, behind)) short.0),
    short.1,
  )
    where
      far : distance readers reader f ≡ k - f.gr_pos
      far = ap (missing f.gr_pos) at

      short :
          ((readers.skip f.gr (distance readers reader f)).0 ≡ some eof)
          × (left (readers.skip f.gr (distance readers reader f)).1 ≡ [])
      short =
          reader.skip-short f.gr (distance readers reader f)
            (omega (arith, far, length-left readers reader f h, behind))

  read-nothing :
      (f : CompressedFile G) (n : ℕ)
      → f.seek_pos ≡ pos f.gr_pos
      → left f.gr ≡ []
      → (read readers f n).0.0 ≡ []
  unfolding read read_here
  read-nothing f n at gone =
      ap
        (λ (x : Option Error × CompressedFile G).
          (or_return x (λ f1. or_return (fast_forward readers f1) (read_here readers n))).0.0)
        (rewind-none readers reader f
          (ap (is_ahead f.gr_pos) at ∙ le→ltb f.gr_pos f.gr_pos (omega arith)))
      ∙ ap (λ (x : Option Error × CompressedFile G). (or_return x (read_here readers n)).0.0)
          (fast_forward-none readers reader f (ap (missing f.gr_pos) at ∙ omega arith))
      ∙ append-nil _ _ (sym (reader.read-left f.gr n) ∙ gone)

  -- A read behind the end gives no bytes and `io.EOF`, and leaves the reader at the end while the
  -- file still says where it was before: a seek back to that place, which is the beginning for a file
  -- that was just opened, and another read of any size give no bytes either.
  pub read-stale :
      (f : CompressedFile G) (n m k : ℕ)
      → InPlace readers reader f
      → f.seek_pos ≡ pos k
      → length text < k
      → ((read readers f n).0 ≡ ([], some eof))
        × ((read readers (seek (read readers f n).1 (pos f.gr_pos) 0).1 m).0.0 ≡ [])
  unfolding seek seek_to
  read-stale f n m k h at behind =
      let (g, e, gone) = read-short f n k h at behind in
      (
        ap (λ (x : (Text × Option Error) × CompressedFile G). x.0) e,
        ap
              (λ (x : (Text × Option Error) × CompressedFile G).
                (read readers (seek x.1 (pos f.gr_pos) 0).1 m).0.0)
              e
            ∙ read-nothing (record f { gr = g; seek_pos = pos f.gr_pos }) m refl gone,
      )
