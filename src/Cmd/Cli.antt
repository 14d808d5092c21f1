-- ===== src/Cmd/Cli.antt =====
-- cmd/cli.go, a command of the application's own client in its running container, and the choice of
-- colours in cmd/root.go.
pub mod Laws
use bitcoinx.Base.{
  ℕ, Text, lit, List, [], ◌∷◌, ◌++◌, Bool, true, false, not, if◌then◌else◌, Option, none, some,
  Result, ok, err, Error, panic, Eff, ◌>>=◌, ◌>>◌, pure, fail, split_at,
}
use bitcoinx.Files.{Files}
use bitcoinx.Project.{Project, Binaries, Yaml, load}
use bitcoinx.Cmd.Env.{or_fatal}

-- `capture` is `util.RunWithFD` with a buffer for the output, `run` is `util.Run`.
pub record Shell (W : Type 0) : Type 0 where
  pub capture : Text → List Text → Eff W Text
  pub run : Text → List Text → Eff W (Unit {0})

unfoldable pub container_args : Project → List Text
container_args p =
    lit "ps"
    ∷ lit "-q"
    ∷ lit "-f"
    ∷ lit "label=chainkit.cosmos.daemon"
    ∷ lit "-f"
    ∷ (lit "label=chainkit.project=" ++ p.name)
    ∷ []

-- `strings.Split(s, "\n")[0]`
unfoldable pub first_line : Text → Text
first_line s = elim (split_at 10 s) [ [] ↦ [] | l ∷ ls ↦ l ]

unfoldable pub exec_args : Text → Binaries → List Text → List Text
exec_args id b args = (lit "exec" ∷ lit "-it" ∷ id ∷ b.cli ∷ []) ++ args

-- `PersistentPreRun`: whether text is coloured, from whether the flag --no-color was given, its value,
-- and whether the output is a terminal.
unfoldable pub colors_enabled : {W : Type 0} → Bool → Result Bool → Bool → Eff W Bool
colors_enabled false flag is_terminal = pure is_terminal
colors_enabled true flag is_terminal = or_fatal (λ w. (flag, w)) >>= λ no_color. pure (not no_color)

module _ {W : Type 0} (shell : Shell W) where
  unfoldable pub get_container_id : Project → Eff W Text
  get_container_id p =
      or_fatal (shell.capture (lit "docker") (container_args p)) >>= λ out. pure (first_line out)

  -- A nil pointer to the binaries panics.
  unfoldable pub cli_in : Option Binaries → Text → List Text → Eff W (Unit {0})
  cli_in none id args = fail panic
  cli_in (some b) id args = or_fatal (shell.run (lit "docker") (exec_args id b args))

  unfoldable pub cli : Project → List Text → Eff W (Unit {0})
  cli p args = do id ← get_container_id p; cli_in (p.binaries) id args

  -- The command, in the directory `root`.
  unfoldable pub cli_command : Yaml → Files W → Text → List Text → Eff W (Unit {0})
  cli_command yaml files root args = do p ← or_fatal (load yaml files root); cli p args
