-- ===== src/Assets/Folder.antt =====
-- templates/assets_vfsdata.go: `Seek` and `Readdir` of an opened directory.
pub mod Laws
use bitcoinx.Base.{
  ℕ, suc, ◌+◌, ◌-◌, List, Bool, true, false, ◌&&◌, if◌then◌else◌, ltb, leb, ◌==◌, Result, ok, err,
  Error, eof, panic, message, Text, lit, ◌++◌, length, take, drop,
}
use bitcoinx.Base.Int.{ℤ, pos, negsuc, eq_ℤ}
use bitcoinx.Assets.{FileInfo, OpenDir}

-- Back to the first entry; there is no other place to go. `whence` 0 is `io.SeekStart`.
unfoldable pub seek : OpenDir → ℤ → ℕ → Result ℤ × OpenDir
seek d offset whence =
    if eq_ℤ offset (pos 0) && (whence == 0)
    then (ok (pos 0), record d { position = 0 })
    else (err (message (lit "unsupported Seek in directory " ++ d.name)), d)

abbrev pub is_positive : ℤ → Bool
is_positive (pos n) = ltb 0 n
is_positive (negsuc n) = false

-- How many entries are returned, of those that are left.
unfoldable pub count_of : ℤ → ℕ → ℕ
count_of (pos n) left = if ltb 0 n && leb n left then n else left
count_of (negsuc n) left = left

-- A slice from behind the end is a panic.
unfoldable pub readdir : OpenDir → ℤ → Result (List FileInfo) × OpenDir
readdir d count =
    let n = count_of count (length d.entries - d.position) in
    if leb (length d.entries) d.position && is_positive count
    then (err eof, d)
    else if ltb (length d.entries) d.position
    then (err panic, d)
    else (ok (take n (drop d.position d.entries)), record d { position = d.position + n })
