-- ===== src/Assets.antt =====
-- templates/assets_vfsdata.go: the file system of the templates, which is kept in the program: the
-- descriptions of its files and `Open`. An opened file is a value that every call returns anew.
pub mod File
pub mod Folder
pub mod Memory
pub mod Stream
pub mod Table
pub mod Tree
mod Tests
use bitcoinx.Base.{
  ℕ, Text, List, [], ◌∷◌, ◌++◌, ◌+◌, ◌^◌, Bool, true, false, if◌then◌else◌, eq_text, Option, none,
  some, Result, ok, err, Error, not_exist, panic, length,
}
use bitcoinx.Base.Int.{ℤ, pos}
use bitcoinx.GoPath.{clean, slash}

-- What the methods of `os.FileInfo` return, but the time of modification.
pub record FileInfo : Type 0 where
  pub name : Text
  pub size : ℕ
  pub mode : ℕ
  pub is_dir : Bool

-- A file with its compressed bytes and its size, a file with its bytes, and a directory.
pub data Asset : Type 0 where
  compressed_file_info : Text → Text → ℕ → Asset
  file_info : Text → Text → Asset
  dir_info : Text → List FileInfo → Asset

-- 0444
abbrev pub file_mode : ℕ
file_mode = 292

-- 0755 | os.ModeDir
abbrev pub dir_mode : ℕ
dir_mode = 493 + 2 ^ 31

-- The methods of a compressed file, of a file, and of a directory.
abbrev pub compressed_file_stat : Text → ℕ → FileInfo
compressed_file_stat name size = record {
  name = name;
  size = size;
  mode = file_mode;
  is_dir = false;
}

abbrev pub file_stat : Text → Text → FileInfo
file_stat name content = record {
  name = name;
  size = length content;
  mode = file_mode;
  is_dir = false;
}

abbrev pub dir_stat : Text → FileInfo
dir_stat name = record { name = name; size = 0; mode = dir_mode; is_dir = true }

unfoldable pub stat : Asset → FileInfo
stat (compressed_file_info name content size) = compressed_file_stat name size
stat (file_info name content) = file_stat name content
stat (dir_info name entries) = dir_stat name

abbrev pub Fs : Type 0
Fs = List (Text × Asset)

-- The first value under a key.
unfoldable pub lookup : Text → Fs → Option Asset
lookup path [] = none
lookup path ((key, asset) ∷ rest) =
    let found = lookup path rest in if eq_text path key then some asset else found

-- The readers of the packages compress/gzip and bytes, of types `G` and `B`. `read` returns the
-- bytes that it has read and an error, and `skip` is `io.CopyN` to `ioutil.Discard`.
pub record Readers (G B : Type 0) : Type 0 where
  pub new_gzip : Text → Result G
  pub reset : G → Text → Option Error × G
  pub read : G → ℕ → (Text × Option Error) × G
  pub skip : G → ℕ → Option Error × G
  pub new_bytes : Text → B

-- `gr_pos` is the position of the reader `gr`, and `seek_pos` the one that the last `Seek` has set.
pub record CompressedFile (G : Type 0) : Type 0 where
  pub name : Text
  pub content : Text
  pub uncompressed_size : ℕ
  pub gr : G
  pub gr_pos : ℕ
  pub seek_pos : ℤ

pub record OpenDir : Type 0 where
  pub name : Text
  pub entries : List FileInfo
  pub position : ℕ

pub data Opened (G B : Type 0) : Type 0 where
  compressed_file : CompressedFile G → Opened G B
  file : Text → B → Opened G B
  dir : OpenDir → Opened G B

module _ {G B : Type 0} (readers : Readers G B) where
  open readers use {new_gzip, new_bytes}

  -- With the reader for the compressed bytes; no reader is a panic.
  abbrev pub open_gzip : Text → Text → ℕ → Result G → Result (Opened G B)
  open_gzip name content size (ok g) = ok (
      compressed_file (record {
        name = name;
        content = content;
        uncompressed_size = size;
        gr = g;
        gr_pos = 0;
        seek_pos = pos 0;
      }))
  open_gzip name content size (err e) = err panic

  unfoldable pub open_asset : Asset → Result (Opened G B)
  open_asset (compressed_file_info name content size) =
      open_gzip name content size (new_gzip content)
  open_asset (file_info name content) = ok (file name (new_bytes content))
  open_asset (dir_info name entries) =
      ok (dir (record { name = name; entries = entries; position = 0 }))

  -- `Open`
  unfoldable pub open_path : Fs → Text → Result (Opened G B)
  open_path fs path = elim (lookup (clean (slash ++ path)) fs) [
    | none ↦ err not_exist
    | some asset ↦ open_asset asset
  ]
