-- ===== src/Assets/Tests.antt =====
-- The templates' file system on concrete files.
use bitcoinx.Base.{
  ◌+◌, Text, lit, [], ◌∷◌, false, none, some, ok, err, eof, not_exist, ◌≡◌, refl, arith, ◌-◌, ◌^◌,
  ◌++◌, eq_text,
}
use bitcoinx.Base.Int.{ℤ, pos, negsuc, int64}
use bitcoinx.Assets.{
  FileInfo, CompressedFile, OpenDir, open_path, open_asset, lookup, compressed_file_info,
}
use bitcoinx.GoPath.{clean, slash}
use bitcoinx.Assets.Folder.Laws.{list_all, readdir-list_all}
use bitcoinx.Assets.Stream.{seek, seek_to, read, rewind, fast_forward, read_here}
use bitcoinx.Assets.Stream.Moves.{InPlace}
use bitcoinx.Assets.Stream.Laws.{open_asset-read, Reads}
use bitcoinx.Assets.Stream.Stale.{read-stale}
use bitcoinx.Assets.File.{read_path}
use bitcoinx.Assets.File.Laws.{read_path-text}
use bitcoinx.Assets.Table.{assets}
use bitcoinx.Assets.Memory.{readers, readers-IsReader, readers-IsLively, bytes}

wraps : int64 (pos (2 ^ 63)) ≡ negsuc (2 ^ 63 - 1)
unfolding int64
wraps = refl

abbrev text : Text
text = lit "package app"

-- A file that was just opened, after a seek to the fourth byte.
abbrev opened : ℤ → CompressedFile Text
opened place = record {
  name = lit "app.go";
  content = text;
  uncompressed_size = 11;
  gr = text;
  gr_pos = 0;
  seek_pos = place;
}

bytes_read : (read readers (opened (pos 3)) 4).0 ≡ (lit "kage", none)
unfolding read rewind fast_forward read_here readers
bytes_read = refl

end_sought : (seek (opened (pos 0)) (negsuc 2) 2).0 ≡ ok (pos 8)
unfolding seek seek_to int64
end_sought = refl

in_place : (place : ℤ) → InPlace readers (readers-IsReader text) (opened place)
in_place place = record { of_content = refl; passed = []; split = refl; position = refl }

open_asset-read_example :
    Reads readers (readers-IsReader text) 8 5 (read readers (seek (opened (pos 0)) (pos 8) 0).1 5)
unfolding open_asset readers
open_asset-read_example =
    open_asset-read readers (readers-IsReader text) (lit "app.go") 11 5 8 (opened (pos 0)) refl
      (omega arith)

abbrev no_bytes : Text → Text
no_bytes path = []

-- Every file of the table has the same bytes.
abbrev these : Text → Text
these path = text

app_stands :
    lookup (clean (slash ++ lit "app.go.tmpl")) (assets these)
    ≡ some (compressed_file_info (lit "app.go.tmpl") text 2048)
unfolding lookup assets clean eq_text
app_stands = refl

gzip_accepts : readers.new_gzip text ≡ ok text
unfolding readers
gzip_accepts = refl

read_path-text_example :
    read_path readers bytes (λ i. i + 1) 20 (assets these) (lit "app.go.tmpl") ≡ some (ok text)
read_path-text_example =
    read_path-text readers bytes (readers-IsReader text) (readers-IsLively text) (λ i. i + 1)
      (λ i. omega arith) (assets these) (lit "app.go.tmpl") (lit "app.go.tmpl") 2048 20 text
      app_stands gzip_accepts (omega arith)

read-stale_example :
    ((read readers (opened (pos 12)) 4).0 ≡ ([], some eof))
    × ((read readers (seek (read readers (opened (pos 12)) 4).1 (pos 0) 0).1 8).0.0 ≡ [])
read-stale_example =
    read-stale readers (readers-IsReader text) (opened (pos 12)) 4 8 12 (in_place (pos 12)) refl
      (omega arith)

abbrev entry : Text → FileInfo
entry name = record { name = name; size = 1; mode = 292; is_dir = false }

abbrev folder : OpenDir
folder = record {
  name = lit "cmd";
  entries = entry (lit "a") ∷ entry (lit "b") ∷ entry (lit "c") ∷ [];
  position = 0;
}

readdir-list_all_example : list_all 4 1 folder ≡ some folder.entries
readdir-list_all_example = readdir-list_all 4 1 folder refl (omega arith)

missing_file : open_path readers (assets no_bytes) (lit "/cmd/main.go") ≡ err not_exist
unfolding open_path lookup assets clean
missing_file = refl
