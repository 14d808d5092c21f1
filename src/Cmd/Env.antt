-- ===== src/Cmd/Env.antt =====
-- cmd/utils.go and the end of a command by `ui.Fatal`.
pub mod Laws
use mathlib.Core.List.{reverse}
use bitcoinx.Base.{
  Text, lit, List, [], ◌∷◌, ◌++◌, Bool, true, false, if◌then◌else◌, ◌==◌, Result, ok, err, Error,
  panic, exit, Eff, ◌>>=◌, ◌>>◌, pure, fail, is_empty, trim_prefix,
}
use bitcoinx.GoPath.{path_join}

-- `ui.Fatal` on an error ends the program; a panic does so by itself.
abbrev pub fatal : Error → Error
fatal panic = panic
fatal _ = exit

abbrev pub fatally {ℓ} : {A : Type ℓ} → Result A → Result A
fatally (ok a) = ok a
fatally (err e) = err (fatal e)

abbrev pub or_fatal : {W A : Type 0} → Eff W A → Eff W A
or_fatal m w = let r = m w in (fatally (r.0), r.1)

-- `getCwd`: the flag, `os.Getwd` and `filepath.Abs` are arguments.
unfoldable pub get_cwd : {W : Type 0} → Result Text → Eff W Text → (Text → Eff W Text) → Eff W Text
get_cwd flag getwd abs = do
  cwd ← or_fatal (λ w. (flag, w))
  dir ← (if is_empty cwd then or_fatal getwd else pure cwd)
  or_fatal (abs dir)

-- `goPath`, from the values of GOPATH and HOME.
unfoldable pub go_path : Text → Text → Text
go_path gopath home = if is_empty gopath then path_join (home ∷ lit "go" ∷ []) else gopath

unfoldable pub go_src : Text → Text → Text
go_src gopath home = path_join (go_path gopath home ∷ lit "src" ∷ [])

-- What follows the last dot of the last element, with the dot; the text is reversed.
unfoldable pub ext_of : Text → Text → Text
ext_of [] acc = []
ext_of (c ∷ s) acc =
    let rest = ext_of s (c ∷ acc) in if c == b'/' then [] else if c == b'.' then c ∷ acc else rest

-- `filepath.Ext`
unfoldable pub ext : Text → Text
unfolding ext_of
ext path = ext_of (reverse path) []

-- `strings.TrimSuffix`
unfoldable pub trim_suffix : Text → Text → Text
trim_suffix s suffix = reverse (trim_prefix (reverse s) (reverse suffix))

-- What stands before the first slash.
unfoldable pub before_slash : Text → Text
before_slash [] = []
before_slash (c ∷ s) = let rest = before_slash s in if c == b'/' then [] else c ∷ rest

unfoldable pub drop_slashes : Text → Text
drop_slashes [] = []
drop_slashes (c ∷ s) = let rest = drop_slashes s in if c == b'/' then rest else c ∷ s

-- `filepath.Base`
unfoldable pub base : Text → Text
unfolding before_slash drop_slashes
base path =
    let name = reverse (before_slash (drop_slashes (reverse path))) in
    if is_empty path then lit "." else if is_empty name then lit "/" else name
