-- ===== src/Httpfs/Tests.antt =====
-- A walk that lists the paths it visits.
use bitcoinx.Base.{Text, lit, List, [], ◌∷◌, ◌++◌, none, ok}
use bitcoinx.Httpfs.{Dir, dir, end, file, sub, WalkFunc}

abbrev record_path : WalkFunc (List Text)
record_path path is_dir e seen = (ok tt, seen ++ path ∷ [])

abbrev templates : Dir
templates =
    dir none none none
      (file (lit "a") (sub (lit "cmd") (dir none none none (file (lit "main") end)) end))
