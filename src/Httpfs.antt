-- ===== src/Httpfs.antt =====
-- httpfs/utils.go: the walk through a virtual file system, calling a function on every file and
-- directory. The file system (`http.FileSystem`) is third-party code: a directory is given by what
-- opening, describing and listing it return. The function may fail and changes a world.
pub mod Laws
pub mod Keeps
mod Tests
use bitcoinx.Base.{
  Text, Bool, true, false, Option, none, some, Result, ok, err, Error, is_skip_dir, Eff, [], ◌∷◌,
  if◌then◌else◌,
}
use bitcoinx.GoPath.{path_join}

-- The errors of `Open`, `Stat` and `Readdir`, if any, and the entries that `Readdir` returned.
mutual
  pub data Dir : Type 0 where
    dir : Option Error → Option Error → Option Error → Entries → Dir

  pub data Entries : Type 0 where
    end : Entries
    file : Text → Entries → Entries
    sub : Text → Dir → Entries → Entries

-- `filepath.WalkFunc`: the path, whether it is a directory, and the error of its listing.
abbrev pub WalkFunc : Type 0 → Type 0
WalkFunc W = Text → Bool → Option Error → Eff W (Unit {0})

-- An error of a subdirectory or of a file ends the loop, unless it says to skip.
abbrev pub or_continue :
    {W : Type 0} → Result (Unit {0}) × W → Eff W (Unit {0}) → Result (Unit {0}) × W
or_continue (ok u, w) next = next w
or_continue (err e, w) next = let rest = next w in if is_skip_dir e then rest else (err e, w)

module _ {W : Type 0} (visit : WalkFunc W) where
  -- After the call on the directory itself.
  abbrev pub and_then : Result (Unit {0}) × W → Eff W (Unit {0}) → Result (Unit {0}) × W
  and_then (ok u, w) next = next w
  and_then (err e, w) next = if is_skip_dir e then (ok tt, w) else (err e, w)

  unfoldable mutual
    pub walk : Dir → Text → Eff W (Unit {0})
    walk (dir (some e) stat read entries) root w = (err e, w)
    walk (dir none (some e) read entries) root w = (err e, w)
    walk (dir none none read entries) root w =
        and_then (visit root true read w) (λ w'. walk_entries entries root w')

    pub walk_entries : Entries → Text → Eff W (Unit {0})
    walk_entries end root w = (ok tt, w)
    walk_entries (file name rest) root w =
        or_continue (visit (path_join (root ∷ name ∷ [])) false none w)
          (λ w'. walk_entries rest root w')
    walk_entries (sub name d rest) root w =
        or_continue (walk d (path_join (root ∷ name ∷ [])) w) (λ w'. walk_entries rest root w')

-- `ReadFile`, from the results of opening the file and of reading all of it.
unfoldable pub read_file : Result (Result Text) → Result Text
read_file (ok content) = content
read_file (err e) = err e
