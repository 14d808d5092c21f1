-- ===== src/Assets/File/Laws.antt =====
-- What `ReadFile` gives of the compressed templates.
use bitcoinx.Base.{
  ℕ, zero, suc, ◌+◌, ◌<◌, ◌≤◌, Text, ◌++◌, Option, none, some, ok, Error, eof, ◌≡◌, refl, ap, sym,
  ◌∙◌, arith, length, drop, inl, inr,
}
use bitcoinx.GoPath.{clean, slash}
use bitcoinx.Base.Int.{pos}
use bitcoinx.Assets.{
  Asset, Fs, Readers, CompressedFile, compressed_file, compressed_file_info, lookup, open_gzip,
  open_asset, open_path,
}
use bitcoinx.Assets.Stream
use bitcoinx.Assets.Stream.Moves.{IsReader, InPlace, place}
use bitcoinx.Assets.Stream.Laws.{read-Reads, open_asset-InPlace}
use bitcoinx.Assets.Stream.All.{IsLively, within_text, at_eof, read-lively, drop-StandsAt}
use bitcoinx.Assets.File.{BytesReader, after_read, read_opened, read_all, read_path}

module _ {G B : Type 0} (readers : Readers G B) (bytes : BytesReader B) {content text : Text}
    {left : G → Text} (reader : IsReader readers content text left)
    (lively : IsLively readers reader) (sizes : ℕ → ℕ) (some_asked : (i : ℕ) → 0 < sizes i) where
  -- What a file gives from its place on, if it does so behind the first read.
  read_all-step :
      (m : ℕ) (f : CompressedFile G)
      → InPlace readers reader f
      → place f.seek_pos ≤ length text
      → ((g : CompressedFile G)
          → InPlace readers reader g
          → place g.seek_pos ≤ length text
          → place f.seek_pos < place g.seek_pos
          → read_all readers bytes sizes m (compressed_file g)
            ≡ some (ok (drop (place g.seek_pos) text)))
      → read_all readers bytes sizes (suc m) (compressed_file f)
        ≡ some (ok (drop (place f.seek_pos) text))
  unfolding read_all read_opened
  read_all-step m f i within behind =
      let (stands, _, ends, next, at) = read-Reads readers reader f (sizes m) i within in
      let read = (Stream.read readers f (sizes m)).0.0 in
      let after = (Stream.read readers f (sizes m)).1 in
      let rest = read_all readers bytes sizes m (compressed_file after) in
      let there : place after.seek_pos ≡ place f.seek_pos + length read = ap place at in
      let inside = within_text readers reader (place f.seek_pos) read stands in
      elim ends [
        | inr (e, done) ↦
            ap (λ (x : Option Error). after_read (read, x) rest) e
            ∙ ap (λ (t : Text). some (ok t))
                (sym (
                  at_eof readers reader (place f.seek_pos) read (some eof) stands (inr (refl, done))
                    refl))
        | inl e ↦
            let further = read-lively readers reader lively f (sizes m) (some_asked m) e in
            ap (λ (x : Option Error). after_read (read, x) rest) e
            ∙ ap (after_read (read, none))
                (behind after next (omega (arith, there, inside)) (omega (arith, there, further)))
            ∙ ap (λ (k : ℕ). some (ok (read ++ drop k text))) there
            ∙ ap (λ (t : Text). some (ok t))
                (sym (drop-StandsAt text read (place f.seek_pos) stands))
      ]

  -- All from the place on is read, with a read for each byte that is left, and one more.
  read_all-drop :
      (m : ℕ) (f : CompressedFile G)
      → InPlace readers reader f
      → place f.seek_pos ≤ length text
      → length text ≤ place f.seek_pos + m
      → read_all readers bytes sizes (suc m) (compressed_file f)
        ≡ some (ok (drop (place f.seek_pos) text))
  read_all-drop zero f i within bound =
      read_all-step zero f i within
        (λ g j inside further. absurd (omega (arith, bound, inside, further)))
  read_all-drop (suc m) f i within bound =
      read_all-step (suc m) f i within
        (λ g j inside further. read_all-drop m g j inside (omega (arith, bound, further)))

  read_all-more :
      (m n : ℕ)
      → m < n
      → (f : CompressedFile G) → InPlace readers reader f
      → place f.seek_pos ≡ 0
      → length text ≤ m
      → read_all readers bytes sizes n (compressed_file f) ≡ some (ok text)
  read_all-more m zero lt f i e h = absurd (omega (arith, lt))
  read_all-more m (suc n) lt f i e h =
      read_all-drop n f i (omega (arith, e)) (omega (arith, e, h, lt))
      ∙ ap (λ (k : ℕ). some (ok (drop k text))) e

  -- Opening a path is opening the asset that stands there.
  open_path-asset :
      (fs : Fs) (path : Text) (asset : Asset)
      → lookup (clean (slash ++ path)) fs ≡ some asset
      → open_path readers fs path ≡ open_asset readers asset
  unfolding open_path
  open_path-asset fs path asset e = rw (open_path, e)

  -- On readers as their packages document them, which never return nothing without saying that they
  -- are at the end: where the file system has a compressed file, which gzip has accepted, `ReadFile`
  -- of the path ends and gives the text that was compressed, whatever the sizes of the single reads
  -- are, if none is zero: one read more than the text has bytes are enough.
  pub read_path-text :
      (fs : Fs) (path name : Text) (size fuel : ℕ) (g : G)
      → lookup (clean (slash ++ path)) fs ≡ some (compressed_file_info name content size)
      → readers.new_gzip content ≡ ok g
      → length text < fuel
      → read_path readers bytes sizes fuel fs path ≡ some (ok text)
  unfolding open_asset read_path
  read_path-text fs path name size fuel g found accepted enough =
      let f : CompressedFile G = record {
        name = name;
        content = content;
        uncompressed_size = size;
        gr = g;
        gr_pos = 0;
        seek_pos = pos 0;
      } in
      let at_asset : open_asset readers (compressed_file_info name content size)
          ≡ ok (compressed_file f) =
        ap (open_gzip readers name content size) accepted in
      let (i, e) = open_asset-InPlace readers reader name size f at_asset in
      rw
        (
          read_path,
          open_path-asset fs path (compressed_file_info name content size) found ∙ at_asset,
        )
        (read_all-more (length text) fuel enough f i refl (omega arith))
