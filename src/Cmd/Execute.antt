-- ===== src/Cmd/Execute.antt =====
-- cmd/root.go, main.go, and the functions `Run` of the commands in cmd/: a line is parsed, text
-- coloured or not, and the command run with its arguments and the values of its flags.
pub mod Typed
pub mod Laws
pub mod Parser
mod Tests
use bitcoinx.Base.{
  ℕ, Text, lit, List, [], ◌∷◌, Bool, true, false, Option, none, some, Result, ok, err, Error, panic,
  exit, Eff, ◌>>=◌, ◌>>◌, pure, fail,
}
use bitcoinx.Ui.Message.{enable_colors}
use bitcoinx.Builder.Build.{DockerBuild}
use bitcoinx.Cmd.Env.{or_fatal, get_cwd}
use bitcoinx.Cmd.Create.{Tools, create_command}
use bitcoinx.Cmd.Launch.{Launch, Program, flag_value, prepare_start, prepare_join, build_command}
use bitcoinx.Cmd.Cli.{Shell, cli_command, colors_enabled}
use bitcoinx.Cmd.Flags.{
  Cobra, Outcome, refused, helped, selected, Subcommand, creating, starting, joining, building,
  calling,
}

-- What the commands call: `disable` sets the field that tells colorstring to leave colours out, and
-- `print_error` and `print_help` write to the terminal.
pub record Platform (W : Type 0) : Type 1 where
  pub program : Program W
  pub tools : Tools W
  pub shell : Shell W
  pub getwd : Eff W Text
  pub abs : Text → Eff W Text
  pub is_terminal : Bool
  pub disable : Bool → W → W
  pub print_error : Error → W → W
  pub print_help : List Text → W → W

-- `args[0]`
unfoldable pub first_arg : {W : Type 0} → List Text → Eff W Text
first_arg [] = fail panic
first_arg (a ∷ args) = pure a

module _ {W : Type 0} (platform : Platform W) where
  open platform use {program, tools, shell, getwd, abs}

  -- The commands on the results of reading their flags. The node that is started, if one is.
  unfoldable pub run_create : Result Text → List Text → Eff W (Option Launch)
  run_create cwd_flag args = do
    name ← first_arg args
    cwd ← get_cwd cwd_flag getwd abs
    create_command tools cwd name
    pure none

  unfoldable pub run_start : Result Text → Result Text → Result Bool → Eff W (Option Launch)
  run_start cwd_flag join_flag edit_flag = do
    root ← get_cwd cwd_flag getwd abs
    l ← prepare_start program root join_flag edit_flag
    pure (some l)

  unfoldable pub run_join : List Text → Eff W (Option Launch)
  run_join args = do chain_id ← first_arg args; l ← prepare_join program chain_id; pure (some l)

  unfoldable pub run_build : Result Text → Result Bool → Result Bool → Eff W (Option Launch)
  run_build cwd_flag verbose_flag no_cache_flag = do
    verbose ← or_fatal (flag_value verbose_flag)
    no_cache ← or_fatal (flag_value no_cache_flag)
    root ← get_cwd cwd_flag getwd abs
    build_command program (tools.docker) (tools.strip) (tools.widths) root (ok verbose)
        (ok no_cache)
    pure none

  unfoldable pub run_cli : Result Text → List Text → Eff W (Option Launch)
  run_cli cwd_flag args = do
    root ← get_cwd cwd_flag getwd abs
    cli_command shell (program.yaml) (program.host.files) root args
    pure none

  abbrev pub set_colors : Bool → Eff W (Unit {0})
  set_colors enabled w = (ok tt, platform.disable (enable_colors enabled) w)

  -- `PersistentPreRun`
  unfoldable pub pre_run : Bool → Result Bool → Eff W (Unit {0})
  pre_run given no_color_flag =
      colors_enabled given no_color_flag (platform.is_terminal) >>= λ enabled. set_colors enabled

  module _ (cobra : Cobra) where
    open cobra use {Flags, get_string, get_bool, changed}

    -- `Run`
    unfoldable pub run_command : Subcommand → Flags → List Text → Eff W (Option Launch)
    run_command creating flags args = run_create (get_string flags (lit "cwd")) args
    run_command starting flags args =
        run_start (get_string flags (lit "cwd")) (get_string flags (lit "join"))
          (get_bool flags (lit "edit-genesis"))
    run_command joining flags args = run_join args
    run_command building flags args =
        run_build (get_string flags (lit "cwd")) (get_bool flags (lit "verbose"))
          (get_bool flags (lit "no-cache"))
    run_command calling flags args = run_cli (get_string flags (lit "cwd")) args

    unfoldable pub run_selected : Subcommand → List Text → Flags → Eff W (Option Launch)
    run_selected s args flags =
        pre_run (changed flags (lit "no-color")) (get_bool flags (lit "no-color"))
        >> run_command s flags args

    -- On what was made of the line.
    unfoldable pub execute_on : List Text → Outcome Flags → Eff W (Option Launch)
    execute_on line (refused e) w = (err exit, platform.print_error e w)
    execute_on line helped w = (ok none, platform.print_help line w)
    execute_on line (selected s args flags) w = run_selected s args flags w

    -- `Execute`
    unfoldable pub execute : List Text → Eff W (Option Launch)
    execute line = execute_on line (cobra.resolve line)

    -- On `os.Args`, whose first_arg element is the program.
    unfoldable pub main : List Text → Eff W (Option Launch)
    main [] = execute []
    main (program_name ∷ line) = execute line
