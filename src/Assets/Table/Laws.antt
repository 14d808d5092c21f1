-- ===== src/Assets/Table/Laws.antt =====
-- The directories of the file system list what can be opened in them, and a walk meets all of it.
use bitcoinx.Base.{
  Text, Bool, List, [], ◌∷◌, ◌++◌, Option, none, some, ◌≡◌, refl, ◌∙◌, ap, All, map, lit,
}
use bitcoinx.GoPath.{path_join, clean, slash}
use bitcoinx.Httpfs.{WalkFunc, walk}
use bitcoinx.Httpfs.Laws.{IsSound, preorder, NotSkip, visit_all, walk-visit_all}
use bitcoinx.Assets.{
  FileInfo, open_path, open_asset, Asset, compressed_file_info, file_info, dir_info, stat, Fs,
  lookup, Readers,
}
use bitcoinx.Assets.Folder.{readdir, count_of}
use bitcoinx.Assets.Table.{assets}
use bitcoinx.Assets.Tree.{dir_at, entries_of}

abbrev stat_of : Option Asset → Option FileInfo
stat_of none = none
stat_of (some asset) = some (stat asset)

-- The entry describes what is opened under its name.
abbrev pub Describes : Fs → Text → FileInfo → Type 0
Describes fs path e = stat_of (lookup (clean (slash ++ path_join (path ∷ e.name ∷ []))) fs) ≡ some e

abbrev pub Lists : Fs → Text × Asset → Type 0
Lists fs (path, dir_info name entries) = All (Describes fs path) entries
Lists fs (path, compressed_file_info name content size) = Unit
Lists fs (path, file_info name content) = Unit

-- Every entry of every directory of the templates is found when the directory's path joined with
-- the entry's name is opened, and is the description of what is found there.
pub assets-Lists : (bytes : Text → Text) → All (Lists (assets bytes)) (assets bytes)
unfolding assets lookup path_join clean stat
assets-Lists bytes = (
  (refl, (refl, (refl, (refl, (refl, (refl, (refl, tt))))))),
  (
    tt,
    (
      tt,
      (
        tt,
        (
          tt,
          (
            tt,
            (
              (refl, (refl, tt)),
              (
                (refl, tt),
                (
                  tt,
                  (
                    (refl, tt),
                    (
                      tt,
                      (
                        (refl, (refl, (refl, (refl, tt)))),
                        (
                          tt,
                          (
                            tt,
                            (
                              (refl, (refl, (refl, (refl, (refl, (refl, tt)))))),
                              (tt, (tt, (tt, (tt, (tt, (tt, (tt, tt))))))),
                            ),
                          ),
                        ),
                      ),
                    ),
                  ),
                ),
              ),
            ),
          ),
        ),
      ),
    ),
  ),
)

abbrev pub path_of : Text × Asset → Text × Bool
path_of (path, asset) = (path, (stat asset).is_dir)

module _ {G B : Type 0} (readers : Readers G B) (bytes : Text → Text) where
  -- Three levels below the root are enough.
  sound : IsSound (dir_at readers (assets bytes) 4 (lit "/"))
  unfolding IsSound dir_at assets open_path lookup open_asset readdir count_of entries_of clean
      path_join stat
  sound = (
    refl,
    refl,
    refl,
    (
      (refl, refl, refl, ((refl, refl, refl, tt), ((refl, refl, refl, tt), tt))),
      ((refl, refl, refl, ((refl, refl, refl, tt), tt)), tt),
    ),
  )

  paths :
      preorder (dir_at readers (assets bytes) 4 (lit "/")) (lit "/") ≡ map path_of (assets bytes)
  unfolding preorder dir_at assets open_path lookup open_asset readdir count_of entries_of clean
      path_join stat
  paths = refl

  -- A walk through the templates from the root, with a function that never asks to skip, calls it on
  -- every path of the file system, once, in the order in which the source lists them, up to the first
  -- error.
  pub walk-assets :
      {W : Type 0} (visit : WalkFunc W)
      → ((path : Text) (is_dir : Bool) (w : W) → NotSkip (visit path is_dir none w).0)
      → (w : W)
      → walk visit (dir_at readers (assets bytes) 4 (lit "/")) (lit "/") w
        ≡ visit_all visit (map path_of (assets bytes)) w
  walk-assets visit never w =
      walk-visit_all visit never _ (lit "/") w sound
      ∙ ap (λ (xs : List (Text × Bool)). visit_all visit xs w) paths
