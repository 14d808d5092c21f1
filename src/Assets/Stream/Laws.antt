-- ===== src/Assets/Stream/Laws.antt =====
-- What `Read` returns of an opened file after `Seek`.
use bitcoinx.Base.{
  ℕ, ◌+◌, ◌≤◌, [], ◌++◌, Option, none, some, Result, ok, err, Error, eof, length, ◌≡◌, refl, arith,
  ap, sym, subst, ◌∙◌, Text, ◌⊎◌, inl, inr, length-append,
}
use mathlib.Core.List.{append_assoc}
use bitcoinx.Base.Int.{pos}
use bitcoinx.Assets.{
  Readers, CompressedFile, Opened, compressed_file, compressed_file_info, open_gzip, open_asset,
}
use bitcoinx.Assets.Stream.{or_return, seek_to, seek, rewind, fast_forward, read_here, read}
use bitcoinx.Assets.Stream.Moves.{
  IsReader, place, StandsAt, InPlace, Arrives, rewind-InPlace, length-left, fast_forward-InPlace,
}

module _ {G B : Type 0} (readers : Readers G B) {content text : Text} {left : G → Text}
    (reader : IsReader readers content text left) where
  -- What a read at a place in the text gives: at most `n` bytes that stand there, no error but
  -- `io.EOF` at the end, and the file in place behind them.
  abbrev pub Reads : ℕ → ℕ → (Text × Option Error) × CompressedFile G → Type 0
  Reads at n ((bytes, e), f) =
      StandsAt text at bytes
      × (length bytes ≤ n)
      × ((e ≡ none) ⊎ ((e ≡ some eof) × (at + length bytes ≡ length text)))
      × InPlace readers reader f
      × (f.seek_pos ≡ pos (at + length bytes))

  read_here-Reads :
      (n : ℕ) (f : CompressedFile G)
      → InPlace readers reader f
      → Reads f.gr_pos n (read_here readers n f)
  unfolding read_here
  read_here-Reads n f h = (
    (h.passed, left after, splits, h.position),
    reader.read-length f.gr n,
    at_end (reader.read-error f.gr n),
    there,
    refl,
  )
    where
      bytes : Text
      bytes = (readers.read f.gr n).0.0

      after : G
      after = (readers.read f.gr n).1

      splits : text ≡ h.passed ++ (bytes ++ left after)
      splits = h.split ∙ ap (λ (t : Text). h.passed ++ t) (reader.read-left f.gr n)

      there : InPlace readers reader (read_here readers n f).1
      there = record {
        of_content = h.of_content;
        passed = h.passed ++ bytes;
        split = splits ∙ sym (append_assoc h.passed bytes (left after));
        position = length-append h.passed bytes ∙ omega (arith, h.position);
      }

      at_end :
          ((readers.read f.gr n).0.1 ≡ none)
            ⊎ (((readers.read f.gr n).0.1 ≡ some eof) × (left after ≡ []))
          → ((readers.read f.gr n).0.1 ≡ none)
            ⊎ (((readers.read f.gr n).0.1 ≡ some eof) × (f.gr_pos + length bytes ≡ length text))
      at_end (inl e) = inl e
      at_end (inr (e, last)) = inr (
        e,
        omega (arith, length-left readers reader (read_here readers n f).1 there, ap length last),
      )

  -- In an opened file that says truly where its reader is, a read gives the bytes that stand at the
  -- place which `Seek` has set, if that is not behind the end, or at the beginning for a place below
  -- zero; its only error is `io.EOF`, at the end; and the next read goes on behind these bytes.
  pub read-Reads :
      (f : CompressedFile G) (n : ℕ)
      → InPlace readers reader f
      → place f.seek_pos ≤ length text
      → Reads (place f.seek_pos) n (read readers f n)
  unfolding read
  read-Reads f n h within = go (rewind readers f) (rewind-InPlace readers reader f h)
    where
      last :
          (y : Option Error × CompressedFile G)
          → (y.0 ≡ none) × InPlace readers reader y.1 × (y.1.gr_pos ≡ place f.seek_pos)
          → Reads (place f.seek_pos) n (or_return y (read_here readers n))
      last (none, g) (e, i, at) =
          subst (λ (k : ℕ). Reads k n (read_here readers n g)) at (read_here-Reads n g i)
      last (some e, g) (k, i, at) = cc

      go :
          (x : Option Error × CompressedFile G)
          → Arrives readers reader f (λ k. k ≤ place f.seek_pos) x
          → Reads
              (place f.seek_pos)
              n
              (or_return x (λ f1. or_return (fast_forward readers f1) (read_here readers n)))
      go (none, f1) (e, i, same, at) =
          let same_place = ap place same in
          let (d, j, _, there) =
            fast_forward-InPlace readers reader f1 i (omega (arith, at, same_place))
              (omega (arith, within, same_place)) in
          last (fast_forward readers f1) (d, j, there ∙ same_place)
      go (some e, f1) (k, i, same, at) = cc

  compressed_file_inj :
      (f h : CompressedFile G) (r : Result (Opened G B))
      → r ≡ ok (compressed_file f)
      → r ≡ ok (compressed_file h)
      → f ≡ h
  compressed_file_inj f h r a b = cc

  -- A compressed file that was just opened is in place, and is read from its beginning.
  pub open_asset-InPlace :
      (name : Text) (size : ℕ) (f : CompressedFile G)
      → open_asset readers (compressed_file_info name content size) ≡ ok (compressed_file f)
      → InPlace readers reader f × (f.seek_pos ≡ pos 0)
  unfolding open_asset
  open_asset-InPlace name size f opened = go (readers.new_gzip content) refl opened
    where
      go :
          (r : Result G)
          → readers.new_gzip content ≡ r
          → open_gzip readers name content size r ≡ ok (compressed_file f)
          → InPlace readers reader f × (f.seek_pos ≡ pos 0)
      go (err x) made e = cc
      go (ok g) made e =
          subst (λ (h : CompressedFile G). InPlace readers reader h × (h.seek_pos ≡ pos 0))
            (compressed_file_inj _ f _ refl e)
            (
              record {
                of_content = refl;
                passed = [];
                split = sym (reader.new-left g made);
                position = refl;
              },
              refl,
            )

  -- In a compressed file that was just opened, a seek to a place that is not behind the end and a
  -- read give the bytes of the text that stand there, and the file goes on from there.
  pub open_asset-read :
      (name : Text) (size n k : ℕ) (f : CompressedFile G)
      → open_asset readers (compressed_file_info name content size) ≡ ok (compressed_file f)
      → k ≤ length text
      → Reads k n (read readers (seek f (pos k) 0).1 n)
  unfolding seek seek_to
  open_asset-read name size n k f opened within =
      let i = (open_asset-InPlace name size f opened).0 in
      read-Reads (record f { seek_pos = pos k }) n
        (record {
          of_content = i.of_content;
          passed = i.passed;
          split = i.split;
          position = i.position;
        })
        within
