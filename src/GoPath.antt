-- ===== src/GoPath.antt =====
-- Go's `path.Clean` and `path.Join`, which the program calls on almost every file name, over texts
-- of bytes.
pub mod Laws
use mathlib.Core.List.{foldl, reverse}
use bitcoinx.Base.{Text, lit, Bool, true, false, List, [], ◌∷◌, eq_text, is_empty, has_prefix, ◌||◌}
use bitcoinx.Base.{if◌then◌else◌, join_with, split_at, arith}

abbrev pub slash : Text
slash = b'/' ∷ []

abbrev pub dot : Text
dot = b'.' ∷ []

abbrev pub dot_dot : Text
dot_dot = b'.' ∷ b'.' ∷ []

-- `..` takes the last component away, unless there is none to take.
pub go_up : Bool → List Text → List Text
go_up true [] = []
go_up false [] = dot_dot ∷ []
go_up rooted (top ∷ rest) = if eq_text top dot_dot then dot_dot ∷ top ∷ rest else rest

-- One component of a path, with the components kept so far, the last one first.
pub clean_step : Bool → List Text → Text → List Text
clean_step rooted kept c =
    if is_empty c || eq_text c dot
    then kept
    else if eq_text c dot_dot
    then go_up rooted kept
    else c ∷ kept

clean_parts : Bool → List Text → List Text → List Text
clean_parts rooted kept [] = kept
clean_parts rooted kept (c ∷ cs) = clean_parts rooted (clean_step rooted kept c) cs

-- `path.Clean`
unfoldable pub clean : Text → Text
unfolding clean_parts clean_step go_up eq_text split_at join_with has_prefix
clean p =
    let rooted = has_prefix p slash in
    let body = join_with slash (reverse (clean_parts rooted [] (split_at b'/' p))) in
    if rooted then b'/' ∷ body else if is_empty body then dot else body

-- `path.Join`
unfoldable pub path_join : List Text → Text
unfolding clean
path_join [] = []
path_join (e ∷ es) =
    let rest = path_join es in if is_empty e then rest else clean (join_with slash (e ∷ es))
