-- ===== src/Util/Docker.antt =====
-- util/run.go: the commands for Docker.
pub mod Laws
use bitcoinx.Base.{
  ℕ, zero, suc, ◌%◌, Text, lit, List, [], ◌∷◌, ◌++◌, Result, Eff, replicate, ok, err,
}
use bitcoinx.Base.Decimal.{decimal}
use bitcoinx.Config.{Config, state_dir, cli_dir}
use bitcoinx.GoPath.{path_join}
use bitcoinx.Project.{Project, Binaries}

-- The home of a binary in the container, `path.Join("/", "root", "."+name)`.
unfoldable pub container_dir : Text → Text
container_dir name = path_join (lit "/" ∷ lit "root" ∷ (lit "." ++ name) ∷ [])

-- The arguments of `docker` in `DockerRunWithFD`, for a project with binaries `b`.
unfoldable pub docker_run_args : Config → Project → Binaries → List Text → List Text
docker_run_args c p b args =
    (lit "run"
      ∷ lit "--rm"
      ∷ lit "-p"
      ∷ (decimal c.ports.tendermint_p2p ++ lit ":26656")
      ∷ lit "-p"
      ∷ (decimal c.ports.tendermint_rpc ++ lit ":26657")
      ∷ lit "-v"
      ∷ (state_dir c ++ (lit ":" ++ container_dir b.daemon))
      ∷ lit "-v"
      ∷ (cli_dir c ++ (lit ":" ++ container_dir b.cli))
      ∷ lit "-l"
      ∷ lit "chainkit.cosmos.daemon"
      ∷ lit "-l"
      ∷ (lit "chainkit.project=" ++ p.name)
      ∷ (p.image ++ lit ":latest")
      ∷ b.daemon
      ∷ [])
    ++ args

abbrev pub docker_load_args : List Text
docker_load_args = lit "load" ∷ lit "-q" ∷ []

abbrev pub loading : Text
loading = lit "Loading image"

-- The live messages from tick `i` on, for so many ticks.
unfoldable pub load_ticks : ℕ → ℕ → List Text
load_ticks zero i = []
load_ticks (suc n) i = (loading ++ replicate (i % 4) b'.') ∷ load_ticks n (suc i)

-- `DockerLoad`: what it shows and returns when the command ends with `result` after `ticks` ticks.
unfoldable pub docker_load : ℕ → Result (Unit {0}) → Result (Unit {0}) × List Text
docker_load ticks result = (result, loading ∷ load_ticks ticks 0)
