-- ===== src/Assets/File.antt =====
-- templates/assets_vfsdata.go: the methods of an opened file (`http.File`) of each kind, and
-- `ReadFile` of httpfs/utils.go on the file system.
pub mod Laws
use bitcoinx.Base.{
  ℕ, zero, suc, Text, lit, List, [], ◌++◌, Bool, true, false, if◌then◌else◌, Option, none, some,
  Result, ok, err, Error, eof, message,
}
use bitcoinx.Base.Int.{ℤ}
use bitcoinx.Assets.{
  FileInfo, Fs, Readers, CompressedFile, Opened, compressed_file, file, dir, open_path,
}
use bitcoinx.Assets.Stream
use bitcoinx.Assets.Folder

-- What the reader of the package bytes gives.
pub record BytesReader (B : Type 0) : Type 0 where
  pub read_bytes : B → ℕ → (Text × Option Error) × B
  pub seek_bytes : B → ℤ → ℕ → Result ℤ × B

abbrev pub no_read : Text → Error
no_read name = message (lit "cannot Read from directory " ++ name)

abbrev pub no_readdir : Text → Error
no_readdir name = message (lit "cannot Readdir from file " ++ name)

abbrev is_eof : Error → Bool
is_eof eof = true
is_eof _ = false

-- What follows on a read.
abbrev pub after_read : Text × Option Error → Option (Result Text) → Option (Result Text)
after_read (read, some e) rest = some (if is_eof e then ok read else err e)
after_read (read, none) (some (ok rest)) = some (ok (read ++ rest))
after_read (read, none) (some (err e)) = some (err e)
after_read (read, none) none = none

module _ {G B : Type 0} (readers : Readers G B) (bytes : BytesReader B) where
  -- `Read` into a slice of `n` bytes.
  unfoldable pub read_opened : Opened G B → ℕ → (Text × Option Error) × Opened G B
  read_opened (compressed_file f) n =
      let (r, f') = Stream.read readers f n in (r, compressed_file f')
  read_opened (file name b) n = let (r, b') = bytes.read_bytes b n in (r, file name b')
  read_opened (dir d) n = (([], some (no_read d.name)), dir d)

  -- `Seek`
  unfoldable pub seek_opened : Opened G B → ℤ → ℕ → Result ℤ × Opened G B
  seek_opened (compressed_file f) offset whence =
      let (r, f') = Stream.seek f offset whence in (r, compressed_file f')
  seek_opened (file name b) offset whence =
      let (r, b') = bytes.seek_bytes b offset whence in (r, file name b')
  seek_opened (dir d) offset whence = let (r, d') = Folder.seek d offset whence in (r, dir d')

  -- `Readdir`
  unfoldable pub readdir_opened : Opened G B → ℤ → Result (List FileInfo) × Opened G B
  readdir_opened (compressed_file f) count = (err (no_readdir f.name), compressed_file f)
  readdir_opened (file name b) count = (err (no_readdir name), file name b)
  readdir_opened (dir d) count = let (r, d') = Folder.readdir d count in (r, dir d')

  -- `ioutil.ReadAll` as documented: it reads until there is an error, of which `io.EOF` is the end of
  -- the file. `sizes` are those of the slices that it reads into, which are not said, by the number of
  -- reads that may still follow; `none` means that the fuel ran out.
  unfoldable pub read_all : (ℕ → ℕ) → ℕ → Opened G B → Option (Result Text)
  read_all sizes zero f = none
  read_all sizes (suc n) f =
      let (r, f') = read_opened f (sizes n) in after_read r (read_all sizes n f')

  -- `ReadFile`
  unfoldable pub read_path : (ℕ → ℕ) → ℕ → Fs → Text → Option (Result Text)
  read_path sizes fuel fs path = elim (open_path readers fs path) [
    | err e ↦ some (err e)
    | ok f ↦ read_all sizes fuel f
  ]
