-- ===== src/Assets/Tree.antt =====
-- httpfs/utils.go on the file system of templates/assets_vfsdata.go: what the walk gets from `Open`,
-- `Stat` and `Readdir`, level by level.
use bitcoinx.Base.{
  ℕ, zero, suc, Text, lit, List, [], ◌∷◌, none, some, Result, ok, err, message, if◌then◌else◌,
}
use bitcoinx.Base.Int.{negsuc}
use bitcoinx.GoPath.{path_join}
use bitcoinx.Httpfs.{Dir, dir, Entries, end, file, sub}
use bitcoinx.Assets.{FileInfo, Fs, Readers, Opened, open_path}
use bitcoinx.Assets.Folder.{readdir}

unfoldable pub entries_of : (Text → Dir) → Text → List FileInfo → Entries
entries_of below path [] = end
entries_of below path (e ∷ es) =
    let rest = entries_of below path es in
    let d = below (path_join (path ∷ e.name ∷ [])) in
    if e.is_dir then sub e.name d rest else file e.name rest

-- `Readdir` with a negative count asks for all entries.
abbrev listing : (List FileInfo → Entries) → Result (List FileInfo) → Dir
listing f (ok es) = dir none none none (f es)
listing f (err e) = dir none none (some e) end

module _ {G B : Type 0} (readers : Readers G B) (fs : Fs) where
  abbrev opened_as : (List FileInfo → Entries) → Result (Opened G B) → Dir
  opened_as f (ok (Opened.dir d)) = listing f (readdir d (negsuc 0)).0
  opened_as f (ok (Opened.file name b)) = dir none none (some (message (lit "cannot Readdir"))) end
  opened_as f (ok (Opened.compressed_file c)) =
      dir none none (some (message (lit "cannot Readdir"))) end
  opened_as f (err e) = dir (some e) none none end

  -- Down to a number of levels.
  unfoldable pub dir_at : ℕ → Text → Dir
  unfolding entries_of
  dir_at zero path = dir (some (message (lit "too deep"))) none none end
  dir_at (suc levels) path = opened_as (entries_of (dir_at levels) path) (open_path readers fs path)
