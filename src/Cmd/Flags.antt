-- ===== src/Cmd/Flags.antt =====
-- cmd/: the commands as they are declared, with their arguments and flags, and what is asked of cobra,
-- the library that finds and parses them in a line.
use bitcoinx.Base.{
  ℕ, Text, lit, List, [], ◌∷◌, ◌++◌, Bool, true, false, ◌==◌, if◌then◌else◌, eq_text, Option, none,
  some, Result, ok, Error, ◌≡◌, length,
}

-- The type of a flag, with its default value.
pub data Kind : Type 0 where
  string : Text → Kind
  boolean : Bool → Kind

pub record Flag : Type 0 where
  pub name : Text
  pub shorthand : Text
  pub kind : Kind

pub data Args : Type 0 where
  arbitrary_args : Args
  exact_args : ℕ → Args

-- `use_line` is the field `Use`.
pub record Command : Type 0 where
  pub use_line : Text
  pub args : Args
  pub disable_flag_parsing : Bool
  pub flags : List Flag

abbrev string_flag : Text → Text → Flag
string_flag name value = record { name = name; shorthand = []; kind = string value }

abbrev bool_flag : Text → Text → Flag
bool_flag name shorthand = record { name = name; shorthand = shorthand; kind = boolean false }

abbrev pub cwd_flag : Flag
cwd_flag = string_flag (lit "cwd") (lit ".")

-- The persistent flags of the root command, which all others have.
abbrev pub persistent_flags : List Flag
persistent_flags = bool_flag (lit "no-color") [] ∷ []

abbrev pub create_flags : List Flag
create_flags = cwd_flag ∷ []

abbrev pub create_cmd : Command
create_cmd = record {
  use_line = lit "create <name>";
  args = exact_args 1;
  disable_flag_parsing = false;
  flags = create_flags;
}

abbrev pub start_flags : List Flag
start_flags = cwd_flag ∷ string_flag (lit "join") [] ∷ bool_flag (lit "edit-genesis") [] ∷ []

abbrev pub start_cmd : Command
start_cmd = record {
  use_line = lit "start";
  args = exact_args 0;
  disable_flag_parsing = false;
  flags = start_flags;
}

abbrev pub join_cmd : Command
join_cmd = record {
  use_line = lit "join";
  args = exact_args 1;
  disable_flag_parsing = false;
  flags = [];
}

abbrev pub build_flags : List Flag
build_flags = cwd_flag ∷ bool_flag (lit "verbose") (lit "v") ∷ bool_flag (lit "no-cache") [] ∷ []

abbrev pub build_cmd : Command
build_cmd = record {
  use_line = lit "build";
  args = exact_args 0;
  disable_flag_parsing = false;
  flags = build_flags;
}

abbrev pub cli_flags : List Flag
cli_flags = cwd_flag ∷ []

abbrev pub cli_cmd : Command
cli_cmd = record {
  use_line = lit "cli args ...";
  args = arbitrary_args;
  disable_flag_parsing = true;
  flags = cli_flags;
}

-- The commands that are added to the root command.
pub data Subcommand : Type 0 where
  creating starting joining building calling : Subcommand

unfoldable pub declared : Subcommand → Command
declared creating = create_cmd
declared starting = start_cmd
declared joining = join_cmd
declared building = build_cmd
declared calling = cli_cmd

-- The method `Name` of a command: its line up to the first space.
unfoldable pub first_word : Text → Text
first_word [] = []
first_word (c ∷ s) = let rest = first_word s in if c == b' ' then [] else c ∷ rest

unfoldable pub find_flag : Text → List Flag → Option Kind
find_flag name [] = none
find_flag name (f ∷ fs) =
    let rest = find_flag name fs in if eq_text f.name name then some f.kind else rest

-- The flag of that name which a command has.
unfoldable pub flag_of : Subcommand → Text → Option Kind
unfolding find_flag declared
flag_of s name = find_flag name ((declared s).flags ++ persistent_flags)

unfoldable pub accepts : Args → ℕ → Bool
accepts arbitrary_args n = true
accepts (exact_args k) n = n == k

-- What cobra makes of a line: an error, a text of help, or a command with its arguments and flags.
pub data Outcome (Flags : Type 0) : Type 0 where
  refused : Error → Outcome Flags
  helped : Outcome Flags
  selected : Subcommand → List Text → Flags → Outcome Flags

-- The library: `resolve` is all that it does with a line before it calls the program.
pub record Cobra : Type 1 where
  pub Flags : Type 0
  pub resolve : List Text → Outcome Flags
  pub get_string : Flags → Text → Result Text
  pub get_bool : Flags → Text → Result Bool
  pub changed : Flags → Text → Bool

-- What its documentation says: a line is only accepted with as many arguments as the command asks for;
-- a flag that the command has is got at the type it was declared with, and has its default when it was
-- not given; where the parsing of flags is disabled none is given, and all that follows the command is
-- an argument.
pub record IsCobra (cobra : Cobra) : Type 0 where
  pub accepted :
      (line : List Text) (s : Subcommand) (args : List Text) (flags : cobra.Flags)
      → cobra.resolve line ≡ selected s args flags
      → accepts ((declared s).args) (length args) ≡ true
  pub got_string :
      (line : List Text) (s : Subcommand) (args : List Text) (flags : cobra.Flags) (name d : Text)
      → cobra.resolve line ≡ selected s args flags
      → flag_of s name ≡ some (string d)
      → (v : Text) × (cobra.get_string flags name ≡ ok v)
  pub got_bool :
      (line : List Text) (s : Subcommand) (args : List Text) (flags : cobra.Flags) (name : Text)
      (d : Bool)
      → cobra.resolve line ≡ selected s args flags
      → flag_of s name ≡ some (boolean d)
      → (v : Bool) × (cobra.get_bool flags name ≡ ok v)
  pub default_string :
      (line : List Text) (s : Subcommand) (args : List Text) (flags : cobra.Flags) (name d : Text)
      → cobra.resolve line ≡ selected s args flags
      → flag_of s name ≡ some (string d)
      → cobra.changed flags name ≡ false
      → cobra.get_string flags name ≡ ok d
  pub default_bool :
      (line : List Text) (s : Subcommand) (args : List Text) (flags : cobra.Flags) (name : Text)
      (d : Bool)
      → cobra.resolve line ≡ selected s args flags
      → flag_of s name ≡ some (boolean d)
      → cobra.changed flags name ≡ false
      → cobra.get_bool flags name ≡ ok d
  pub unparsed :
      (line : List Text) (s : Subcommand) (args : List Text) (flags : cobra.Flags) (name : Text)
      → cobra.resolve line ≡ selected s args flags
      → (declared s).disable_flag_parsing ≡ true
      → cobra.changed flags name ≡ false
  pub verbatim :
      (rest : List Text) (s : Subcommand) (args : List Text) (flags : cobra.Flags)
      → (declared s).disable_flag_parsing ≡ true
      → cobra.resolve (first_word ((declared s).use_line) ∷ rest) ≡ selected s args flags
      → args ≡ rest
