-- ===== src/Node/Init.antt =====
-- node/init.go, node/genesis.go and `init` of node/node.go: a chain is initialised once, its genesis
-- file may be edited by the user, and the configuration is updated at every start.
pub mod Laws
pub mod Once
pub mod Again
mod Tests
use bitcoinx.Base.{
  ℕ, Text, lit, List, [], ◌∷◌, ◌++◌, Bool, true, false, Option, none, some, Result, ok, err, Error,
  message, wrap, panic, exit, is_not_exist, is_empty,
}
use bitcoinx.Base.{if◌then◌else◌, Eff, ◌>>=◌, ◌>>◌, pure, fail, wrapped, continue}
use bitcoinx.Files.{Files, write_file}
use bitcoinx.GoPath.{path_join}
use bitcoinx.Config.{Config, state_dir, cli_dir, config_path, genesis_path}
use bitcoinx.Project.{Project, Binaries}
use bitcoinx.Util.Docker.{docker_run_args, container_dir}
use bitcoinx.Node.Update.{Vars, update_config}

-- The user's answer to the prompt.
pub data Answer : Type 0 where
  apply keep abort : Answer

-- What the node calls outside: files, commands (`util.Run`), the environment, the prompt, the
-- printing of the source tree, and the quoting of `%q`.
pub record Host (W : Type 0) : Type 0 where
  pub files : Files W
  pub run : Text → List Text → Eff W (Unit {0})
  pub hostname : Eff W Text
  pub current_user : Eff W (Text × Text)
  pub editor : W → Text
  pub ask : Eff W Answer
  pub print_tree : Text → List Text → Eff W (Unit {0})
  pub quote : Text → Text

abbrev pub recover : {W : Type 0} → Result (Unit {0}) × W → Eff W (Unit {0}) → Result (Unit {0}) × W
recover (ok u, w) k = (ok tt, w)
recover (err e, w) k = k w

module _ {W : Type 0} (host : Host W) where
  open host use {files, run, hostname, current_user, editor, ask, print_tree, quote}

  -- `copyFile`: the source is opened first.
  unfoldable pub copy_file : Text → Text → Eff W (Unit {0})
  copy_file src dst = do bytes ← files.read src; files.create dst; files.put dst bytes

  -- The switch on the answer.
  unfoldable pub answered : Text → Text → Answer → Eff W (Unit {0})
  answered new_path path apply = files.rename new_path path
  answered new_path path keep = pure tt
  answered new_path path abort = fail exit

  unfoldable pub editor_name : W → Text
  editor_name w = if is_empty (editor w) then lit "nano" else editor w

  unfoldable pub spawn_genesis_editor : Text → Eff W (Unit {0})
  spawn_genesis_editor path w =
      (do
        copy_file path (path ++ lit ".edit")
        run (editor_name w) ((path ++ lit ".edit") ∷ [])
        files.read path
        files.read (path ++ lit ".edit")
        answer ← ask
        answered (path ++ lit ".edit") path answer)
        w

  -- A method call through a nil pointer to the binaries panics.
  unfoldable pub with_binaries : Project → (Binaries → Eff W (Unit {0})) → Eff W (Unit {0})
  with_binaries p f w = elim (p.binaries) [ none ↦ (err panic, w) | some b ↦ f b w ]

  -- `util.DockerRun`
  unfoldable pub docker_run : Config → Project → List Text → Eff W (Unit {0})
  docker_run c p args = with_binaries p (λ b. run (lit "docker") (docker_run_args c p b args))

  unfoldable pub chown_args : Config → Project → Binaries → Text × Text → List Text
  chown_args c p b (uid, gid) =
      lit "run"
      ∷ lit "--rm"
      ∷ lit "-v"
      ∷ (state_dir c ++ (lit ":" ++ container_dir b.daemon))
      ∷ lit "-v"
      ∷ (cli_dir c ++ (lit ":" ++ container_dir b.cli))
      ∷ lit "--name"
      ∷ p.image
      ∷ (p.image ++ lit ":latest")
      ∷ lit "chown"
      ∷ lit "-R"
      ∷ (uid ++ (lit ":" ++ gid))
      ∷ container_dir b.daemon
      ∷ container_dir b.cli
      ∷ []

  unfoldable pub fix_fs_permissions : Config → Project → Eff W (Unit {0})
  fix_fs_permissions c p = do
    user ← wrapped (lit "Cannot get user id") current_user
    with_binaries p λ b.
        wrapped (lit "Cannot change directories permissions")
          (run (lit "docker") (chown_args c p b user))

  -- The second command, tried when the first one has failed.
  unfoldable pub or_else : Eff W (Unit {0}) → Eff W (Unit {0}) → Eff W (Unit {0})
  or_else m k w = recover (m w) k

  unfoldable pub init_with_moniker : Config → Project → Eff W (Unit {0})
  init_with_moniker c p = do
    name ← hostname
    docker_run c p (lit "init" ∷ lit "--moniker" ∷ name ∷ [])

  unfoldable pub edit_if : Bool → Text → Eff W (Unit {0})
  edit_if false path = pure tt
  edit_if true path = wrapped (lit "Cannot edit the genesis file") (spawn_genesis_editor path)

  -- What follows when there is no genesis file yet.
  unfoldable pub generate : Config → Project → Bool → Eff W (Unit {0})
  generate c p edit = do
    or_else (docker_run c p (lit "init" ∷ [])) (init_with_moniker c p)
    fix_fs_permissions c p
    edit_if edit (genesis_path c)
    wrapped (lit "Cannot print source tree") (print_tree (state_dir c) (lit "ipfs" ∷ []))

  abbrev pub already_initialized : Error
  already_initialized =
      message (lit "cannot use the option \"--edit-genesis\": the chain is already initialized")

  -- On the result of `os.Stat` of the genesis file.
  unfoldable pub initialize_on : Config → Project → Bool → Result (Unit {0}) → Eff W (Unit {0})
  initialize_on c p edit (ok u) w = if edit then (err already_initialized, w) else (ok tt, w)
  initialize_on c p edit (err e) w =
      let made = generate c p edit w in if is_not_exist e then made else (err e, w)

  unfoldable pub initialize : Config → Project → Bool → Eff W (Unit {0})
  initialize c p edit w =
      let (found, w') = files.stat (genesis_path c) w in initialize_on c p edit found w'

  -- The variables that every start sets.
  unfoldable pub node_vars : Text → Vars
  node_vars moniker =
      (lit "moniker", quote moniker)
      ∷ (lit "addr_book_strict", lit "false")
      ∷ (lit "unsafe", lit "true")
      ∷ []

  -- A nil genesis is `none`.
  unfoldable pub write_genesis : Config → Option Text → Eff W (Unit {0})
  write_genesis c none = pure tt
  write_genesis c (some bytes) =
      wrapped (lit "unable to overwrite genesis file") (write_file files (genesis_path c) bytes)

  unfoldable pub init : Config → Project → Option Text → Bool → Eff W (Unit {0})
  init c p genesis edit = do
    moniker ← wrapped (lit "unable to determine hostname") hostname
    wrapped (lit "initialization failed") (initialize c p edit)
    update_config files (config_path c) (node_vars moniker)
    write_genesis c genesis
