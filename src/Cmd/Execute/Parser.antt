-- ===== src/Cmd/Execute/Parser.antt =====
-- A small parser of lines, which does what is asked of cobra: flags are written `--name` or
-- `--name=value`, and follow the command.
pub mod Laws
use bitcoinx.Base.{
  Text, lit, List, [], ◌∷◌, Bool, true, false, ◌==◌, if◌then◌else◌, eq_text, has_prefix,
  trim_prefix, Option, none, some, Result, ok, err, exit, ◌≡◌, refl, ap, sym, ◌∙◌, subst, arith,
  length, Bool-cases, inl, inr,
}
use bitcoinx.Cmd.Flags.{
  Cobra, IsCobra, Outcome, refused, helped, selected, Subcommand, creating, starting, joining,
  building, calling, Kind, string, boolean, declared, flag_of, accepts, first_word,
}

pub record Given : Type 0 where
  pub command : Subcommand
  pub settings : List (Text × Text)

unfoldable pub setting_of : Text → List (Text × Text) → Option Text
setting_of name [] = none
setting_of name ((n, v) ∷ vs) =
    let rest = setting_of name vs in if eq_text n name then some v else rest

abbrev pub or_default : Text → Option Text → Text
or_default d none = d
or_default d (some v) = v

abbrev pub or_default_bool : Bool → Option Text → Bool
or_default_bool d none = d
or_default_bool d (some v) = eq_text v (lit "true")

abbrev pub is_given : Option Text → Bool
is_given none = false
is_given (some v) = true

abbrev pub as_string : Option Kind → Option Text → Result Text
as_string (some (string d)) v = ok (or_default d v)
as_string (some (boolean d)) v = err exit
as_string none v = err exit

abbrev pub as_bool : Option Kind → Option Text → Result Bool
as_bool (some (string d)) v = err exit
as_bool (some (boolean d)) v = ok (or_default_bool d v)
as_bool none v = err exit

-- What stands before and after the first sign of equality.
unfoldable pub before_equals : Text → Text
before_equals [] = []
before_equals (c ∷ s) = let rest = before_equals s in if c == b'=' then [] else c ∷ rest

unfoldable pub after_equals : Text → Text
after_equals [] = lit "true"
after_equals (c ∷ s) = let rest = after_equals s in if c == b'=' then s else rest

-- One word more, before what the others gave.
abbrev pub and_word :
    Subcommand
    → Text
    → Option (List (Text × Text) × List Text)
    → Option (List (Text × Text) × List Text)
and_word s word none = none
and_word s word (some (given, args)) =
    let body = trim_prefix word (lit "--") in
    if has_prefix word (lit "--")
    then (elim (flag_of s (before_equals body)) [
      | none ↦ none
      | some k ↦ some ((before_equals body, after_equals body) ∷ given, args)
    ])
    else some (given, word ∷ args)

unfoldable pub parse_words : Subcommand → List Text → Option (List (Text × Text) × List Text)
parse_words s [] = some ([], [])
parse_words s (word ∷ words) = and_word s word (parse_words s words)

unfoldable pub subcommand_of : Text → Option Subcommand
subcommand_of word =
    if eq_text word (lit "create")
    then some creating
    else if eq_text word (lit "start")
    then some starting
    else if eq_text word (lit "join")
    then some joining
    else if eq_text word (lit "build")
    then some building
    else if eq_text word (lit "cli")
    then some calling
    else none

abbrev pub parsed_in : Subcommand → Option (List (Text × Text) × List Text) → Outcome Given
parsed_in s none = refused exit
parsed_in s (some (given, args)) =
    if accepts ((declared s).args) (length args)
    then selected s args (record { command = s; settings = given })
    else refused exit

abbrev pub resolve_in : List Text → Option Subcommand → Outcome Given
resolve_in words none = refused exit
resolve_in words (some calling) =
    selected calling words (record { command = calling; settings = [] })
resolve_in words (some creating) = parsed_in creating (parse_words creating words)
resolve_in words (some starting) = parsed_in starting (parse_words starting words)
resolve_in words (some joining) = parsed_in joining (parse_words joining words)
resolve_in words (some building) = parsed_in building (parse_words building words)

unfoldable pub resolve : List Text → Outcome Given
unfolding subcommand_of parse_words
resolve [] = helped
resolve (word ∷ words) = resolve_in words (subcommand_of word)

abbrev pub parser : Cobra
parser = record {
  Flags = Given;
  resolve = resolve;
  get_string = λ g name. as_string (flag_of (g.command) name) (setting_of name (g.settings));
  get_bool = λ g name. as_bool (flag_of (g.command) name) (setting_of name (g.settings));
  changed = λ g name. is_given (setting_of name (g.settings));
}
