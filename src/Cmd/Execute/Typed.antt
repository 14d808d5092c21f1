-- ===== src/Cmd/Execute/Typed.antt =====
-- cmd/: the commands on arguments and values of flags of their types, and that each accepted line
-- stands for one of them.
use bitcoinx.Base.{
  ◌≡◌, subst, Text, lit, List, [], ◌∷◌, Bool, true, false, Option, none, some, ok, refl, sym, arith,
  Eff, ◌>>=◌, ◌>>◌, pure, length, eq_text,
}
use bitcoinx.Cmd.Env.{get_cwd}
use bitcoinx.Cmd.Create.{create_command}
use bitcoinx.Cmd.Launch.{Launch, prepare_start, prepare_join, build_command}
use bitcoinx.Cmd.Cli.{cli_command}
use bitcoinx.Cmd.Flags.{
  Cobra, IsCobra, selected, Subcommand, creating, starting, joining, building, calling, accepts,
  declared, find_flag, flag_of, exact_args,
}
use bitcoinx.Cmd.Execute.{
  Platform, first_arg, run_create, run_start, run_join, run_build, run_cli, run_command,
}

-- A command with its arguments, of their types.
pub data Typed : Type 0 where
  create_in : (cwd name : Text) → Typed
  start_in : (cwd chain_id : Text) → Bool → Typed
  join_network : (chain_id : Text) → Typed
  build_in : (cwd : Text) → (verbose no_cache : Bool) → Typed
  call_in : (cwd : Text) → (args : List Text) → Typed

module _ {W : Type 0} (platform : Platform W) where
  open platform use {program, tools, shell, getwd, abs}

  -- What is done on them.
  unfoldable pub perform : Typed → Eff W (Option Launch)
  perform (create_in cwd name) = do
    root ← get_cwd (ok cwd) getwd abs
    create_command tools root name
    pure none
  perform (start_in cwd chain_id edit) = do
    root ← get_cwd (ok cwd) getwd abs
    l ← prepare_start program root (ok chain_id) (ok edit)
    pure (some l)
  perform (join_network chain_id) = do l ← prepare_join program chain_id; pure (some l)
  perform (build_in cwd verbose no_cache) = do
    root ← get_cwd (ok cwd) getwd abs
    build_command program (tools.docker) (tools.strip) (tools.widths) root (ok verbose)
        (ok no_cache)
    pure none
  perform (call_in cwd args) = do
    root ← get_cwd (ok cwd) getwd abs
    cli_command shell (program.yaml) (program.host.files) root args
    pure none

  module _ (cobra : Cobra) where
    open cobra use {Flags, resolve, get_string, get_bool, changed}

    -- The typed command that a command's arguments and flags stand for.
    pub data Reads (flags : Flags) : Subcommand → List Text → Typed → Type 0 where
      reads_create :
          (cwd name : Text)
          → get_string flags (lit "cwd") ≡ ok cwd
          → Reads flags creating (name ∷ []) (create_in cwd name)
      reads_start :
          (cwd chain_id : Text) (edit : Bool)
          → get_string flags (lit "cwd") ≡ ok cwd
          → get_string flags (lit "join") ≡ ok chain_id
          → get_bool flags (lit "edit-genesis") ≡ ok edit
          → Reads flags starting [] (start_in cwd chain_id edit)
      reads_join : (chain_id : Text) → Reads flags joining (chain_id ∷ []) (join_network chain_id)
      reads_build :
          (cwd : Text) (verbose no_cache : Bool)
          → get_string flags (lit "cwd") ≡ ok cwd
          → get_bool flags (lit "verbose") ≡ ok verbose
          → get_bool flags (lit "no-cache") ≡ ok no_cache
          → Reads flags building [] (build_in cwd verbose no_cache)
      reads_cli :
          (cwd : Text) (args : List Text)
          → get_string flags (lit "cwd") ≡ ok cwd
          → Reads flags calling args (call_in cwd args)

    -- The command is run on the typed command.
    pub run_command-perform :
        (flags : Flags) (s : Subcommand) (args : List Text) (c : Typed)
        → Reads flags s args c
        → run_command platform cobra s flags args ≡ perform c
    unfolding run_command run_create run_start run_join run_build run_cli first_arg get_cwd perform
    run_command-perform flags _ _ _ (reads_create cwd name e) = rw e
    run_command-perform flags _ _ _ (reads_start cwd chain_id edit e j g) = rw (e, j, g)
    run_command-perform flags _ _ _ (reads_join chain_id) = refl
    run_command-perform flags _ _ _ (reads_build cwd verbose no_cache e v n) = rw (e, v, n)
    run_command-perform flags _ _ _ (reads_cli cwd args e) = rw e

    module _ (lawful : IsCobra cobra) where
      one_arg :
          (args : List Text)
          → accepts (exact_args 1) (length args) ≡ true
          → (a : Text) × (args ≡ a ∷ [])
      unfolding accepts
      one_arg [] h = absurd (ground (arith, h))
      one_arg (a ∷ []) h = (a, refl)
      one_arg (a ∷ b ∷ args) h = absurd (ground (arith, h))

      no_args : (args : List Text) → accepts (exact_args 0) (length args) ≡ true → args ≡ []
      unfolding accepts
      no_args [] h = refl
      no_args (a ∷ args) h = absurd (ground (arith, h))

      -- An accepted line stands for a typed command.
      pub selected-Reads :
          (line : List Text) (s : Subcommand) (args : List Text) (flags : Flags)
          → resolve line ≡ selected s args flags
          → (c : Typed) × Reads flags s args c
      unfolding flag_of find_flag declared eq_text
      selected-Reads line creating args flags e =
          let (a, q) = one_arg args (lawful.accepted line creating args flags e) in
          let (cwd, g) = lawful.got_string line creating args flags (lit "cwd") (lit ".") e refl in
          (
            create_in cwd a,
            subst (λ l. Reads flags creating l (create_in cwd a)) (sym q) (reads_create cwd a g),
          )
      selected-Reads line starting args flags e =
          let q = no_args args (lawful.accepted line starting args flags e) in
          let (cwd, g) = lawful.got_string line starting args flags (lit "cwd") (lit ".") e refl in
          let (chain_id, j) = lawful.got_string line starting args flags (lit "join") [] e refl in
          let (edit, b) =
            lawful.got_bool line starting args flags (lit "edit-genesis") false e refl in
          (
            start_in cwd chain_id edit,
            subst (λ l. Reads flags starting l (start_in cwd chain_id edit)) (sym q)
                (reads_start cwd chain_id edit g j b),
          )
      selected-Reads line joining args flags e =
          let (a, q) = one_arg args (lawful.accepted line joining args flags e) in
          (
            join_network a,
            subst (λ l. Reads flags joining l (join_network a)) (sym q) (reads_join a),
          )
      selected-Reads line building args flags e =
          let q = no_args args (lawful.accepted line building args flags e) in
          let (cwd, g) = lawful.got_string line building args flags (lit "cwd") (lit ".") e refl in
          let (verbose, v) =
            lawful.got_bool line building args flags (lit "verbose") false e refl in
          let (no_cache, n) =
            lawful.got_bool line building args flags (lit "no-cache") false e refl in
          (
            build_in cwd verbose no_cache,
            subst (λ l. Reads flags building l (build_in cwd verbose no_cache)) (sym q)
                (reads_build cwd verbose no_cache g v n),
          )
      selected-Reads line calling args flags e =
          let (cwd, g) = lawful.got_string line calling args flags (lit "cwd") (lit ".") e refl in
          (call_in cwd args, reads_cli cwd args g)
