-- ===== src/Cmd/Launch.antt =====
-- cmd/start.go, cmd/join.go and cmd/build.go: what the commands do before a node runs or an image is
-- built. The values of the flags are arguments.
pub mod Laws
pub mod Join
use bitcoinx.Base.{
  ℕ, Text, lit, List, [], ◌∷◌, ◌++◌, Bool, true, false, not, ◌&&◌, if◌then◌else◌, Option, none,
  some, Result, ok, err, Error, exit, Eff, ◌>>=◌, ◌>>◌, pure, fail, is_empty,
}
use bitcoinx.GoPath.{path_join}
use bitcoinx.Ports.{Net, PortMapper, Allocation, allocate_ports}
use bitcoinx.Config.{Config, ipfs_dir, manifest_path}
use bitcoinx.Project.{Project, Yaml, load, parse}
use bitcoinx.Builder.Parser.{BuildOpts, Widths}
use bitcoinx.Builder.Build
use bitcoinx.Builder.Build.{DockerBuild, build}
use bitcoinx.Discovery.Network.{Ipfs, NetworkInfo, join, write_manifest}
use bitcoinx.Discovery.Server.{Libraries}
use bitcoinx.Discovery.Server
use bitcoinx.Node.Init.{Host}
use bitcoinx.Node.Start.{Running}
use bitcoinx.Node.Start
use bitcoinx.Cmd.Env.{or_fatal, base}

-- What a node is started with, and the discovery server that runs beside it.
pub record Launch : Type 0 where
  pub config : Config
  pub project : Project
  pub genesis : Option Text
  pub edit_genesis : Bool

-- The parts of the program, and what they call.
pub record Program (W : Type 0) : Type 1 where
  pub yaml : Yaml
  pub net : Net W
  pub libraries : Libraries W
  pub ipfs : Ipfs W
  pub host : Host W
  pub running : Running W
  pub home : Text

abbrev pub flag_value : {W A : Type 0} → Result A → Eff W A
flag_value flag w = (flag, w)

-- The result of the search; it always has one.
abbrev pub found : Option Allocation → Result PortMapper
found none = err exit
found (some a) = a.ports

module _ {W : Type 0} (program : Program W) where
  open program use {yaml, net, libraries, ipfs, host, running, home}

  unfoldable pub allocate : Eff W PortMapper
  allocate w = let (a, w') = allocate_ports net w in (found a, w')

  unfoldable pub start_discovery : Config → Eff W (Unit {0})
  start_discovery c = Server.start libraries (Server.new (ipfs_dir c) c.ports.ipfs)

  -- The two options that exclude each other.
  unfoldable pub refuse_both : Bool → Text → Eff W (Unit {0})
  refuse_both edit chain_id = if edit && not (is_empty chain_id) then fail exit else pure tt

  abbrev pub genesis_of : NetworkInfo ipfs.Handle → Option Text
  genesis_of n = some n.genesis

  -- The configuration that is left, and the genesis file of the network that is joined, if one is.
  unfoldable pub join_if : Config → Eff W (Config × Option Text)
  join_if c =
      if is_empty c.chain_id
      then pure (c, none)
      else (join ipfs c.chain_id >>= λ n. pure (record c { publish_network = false }, genesis_of n))

  abbrev pub initial_config : Text → Text → PortMapper → Config
  initial_config root chain_id ports = record {
    root_dir = root;
    ports = ports;
    chain_id = chain_id;
    publish_network = true;
  }

  -- The command `start`, up to the goroutine that starts the node.
  unfoldable pub prepare_start : Text → Result Text → Result Bool → Eff W Launch
  prepare_start root join_flag edit_flag = do
    p ← or_fatal (load yaml (host.files) root)
    chain_id ← or_fatal (flag_value join_flag)
    edit ← or_fatal (flag_value edit_flag)
    refuse_both edit chain_id
    ports ← or_fatal allocate
    or_fatal (start_discovery (initial_config root chain_id ports))
    joined ← or_fatal (join_if (initial_config root chain_id ports))
    pure (record { config = joined.0; project = p; genesis = joined.1; edit_genesis = edit })

  -- The directory of the networks that were joined, `$HOME/.bitcoinx/networks`.
  abbrev pub networks_dir : Text
  networks_dir = home ++ lit "/.bitcoinx/networks"

  abbrev pub joined_config : Text → PortMapper → Config
  joined_config chain_id ports = record {
    root_dir = path_join (networks_dir ∷ base chain_id ∷ []);
    ports = ports;
    chain_id = chain_id;
    publish_network = false;
  }

  -- The method `Project` of the network's information.
  abbrev pub parsed : Text → Eff W Project
  parsed manifest w = (parse yaml manifest, w)

  -- The command `join`, up to the goroutine that starts the node.
  unfoldable pub prepare_join : Text → Eff W Launch
  prepare_join chain_id = do
    ports ← or_fatal allocate
    or_fatal (start_discovery (joined_config chain_id ports))
    n ← or_fatal (join ipfs chain_id)
    or_fatal (write_manifest (host.files) n (manifest_path (joined_config chain_id ports)))
    p ← or_fatal (parsed n.manifest)
    pure (record {
      config = joined_config chain_id ports;
      project = p;
      genesis = some n.genesis;
      edit_genesis = false;
    })

  -- The goroutine of both commands.
  unfoldable pub run_node : Launch → Eff W (Unit {0})
  run_node l = Start.start host ipfs running l.config l.project l.genesis l.edit_genesis

-- The command `build`.
unfoldable pub build_command :
    {W : Type 0}
    → Program W
    → DockerBuild W
    → (Text → Text)
    → (ℕ → Widths)
    → Text
    → Result Bool
    → Result Bool
    → Eff W (Unit {0})
build_command program docker strip widths root verbose_flag no_cache_flag = do
  verbose ← or_fatal (flag_value verbose_flag)
  no_cache ← or_fatal (flag_value no_cache_flag)
  p ← or_fatal (load (program.yaml) (program.host.files) root)
  or_fatal (
      build docker strip widths (Build.new root p.image)
        (record { verbose = verbose; no_cache = no_cache }))
