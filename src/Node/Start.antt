-- ===== src/Node/Start.antt =====
-- `Start` and `createNetwork` of node/node.go, `peerInfo` of node/server.go and node/explorer.go: the
-- calls by which a node starts, in their order. What the module `Serve` has as steps, the start of the
-- server, is one call here, and so is the wait for the group of the module `Group`.
pub mod Laws
mod Tests
use bitcoinx.Base.{
  Text, lit, List, [], ◌∷◌, ◌++◌, Bool, true, false, if◌then◌else◌, Option, none, Eff, ◌>>=◌, ◌>>◌,
  pure, wrapped,
}
use bitcoinx.Base.Int.{ℤ, pos}
use bitcoinx.Base.Decimal.{decimal}
use bitcoinx.Config.{Config, manifest_path, genesis_path}
use bitcoinx.Project.{Project}
use bitcoinx.Discovery.{PeerInfo}
use bitcoinx.Discovery.Network.{Ipfs, publish}
use bitcoinx.Node.Init.{Host, init}

-- `temp_file` is `ioutil.TempFile`, `run_into` is `util.RunWithFD` with a file for the output,
-- `status` gives the identity from the server's status, `start_server` is `server.start`, and
-- `run_group` runs the goroutines for a network and a peer and waits for them.
pub record Running (W : Type 0) : Type 0 where
  pub temp_file : Eff W Text
  pub run_into : Text → Text → List Text → Eff W (Unit {0})
  pub status : Eff W Text
  pub start_server : Config → Project → Eff W (Unit {0})
  pub run_group : Text → PeerInfo → Eff W (Unit {0})

abbrev pub explorer_image : Text
explorer_image = lit "samalba/bitcoinx-explorer-localdev:20181204"

unfoldable pub explorer_args : Config → Project → List Text
explorer_args c p =
    lit "run"
    ∷ lit "--rm"
    ∷ lit "-p"
    ∷ (decimal c.ports.explorer ++ lit ":8080")
    ∷ lit "-l"
    ∷ lit "bitcoinx.cosmos.explorer"
    ∷ lit "-l"
    ∷ (lit "bitcoinx.project=" ++ p.name)
    ∷ explorer_image
    ∷ []

module _ {W : Type 0} (host : Host W) (ipfs : Ipfs W) (running : Running W) where
  open running use {temp_file, run_into, status, start_server, run_group}

  unfoldable pub start_explorer : Config → Project → Eff W (Unit {0})
  start_explorer c p =
      wrapped (lit "failed to start the explorer") (host.run (lit "docker") (explorer_args c p))

  -- The image is saved to a temporary file, and published with the manifest and the genesis file.
  unfoldable pub create_network : Config → Project → Eff W Text
  create_network c p = do
    f ← wrapped (lit "unable to create temporary file") temp_file
    wrapped (lit "unable to save image") (run_into f (lit "docker") (lit "save" ∷ p.image ∷ []))
    wrapped (lit "unable to create network") (publish ipfs (manifest_path c) (genesis_path c) f)

  unfoldable pub peer_info : Config → Eff W PeerInfo
  peer_info c = do
    id ← status
    pure (record { node_id = id; ip = none; tendermint_p2p_port = pos c.ports.tendermint_p2p })

  -- The identifier of the network that the node announces.
  unfoldable pub network_of : Config → Project → Eff W Text
  network_of c p = if c.publish_network then create_network c p else pure c.chain_id

  unfoldable pub start : Config → Project → Option Text → Bool → Eff W (Unit {0})
  start c p genesis edit = do
    init host c p genesis edit
    chain_id ← network_of c p
    start_server c p
    peer ← peer_info c
    run_group chain_id peer
