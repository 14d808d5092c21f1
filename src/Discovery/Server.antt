-- ===== src/Discovery/Server.antt =====
-- discovery/discovery.go, `New`, `Start`, `Stop`, `ipfsInit`, `dhtConnect`, `Announce` and `Peers`: the IPFS
-- node behind the discovery server. The libraries that it calls are a parameter.
pub mod Laws
mod Tests
use bitcoinx.Base.{
  ℕ, Text, lit, List, [], ◌∷◌, ◌++◌, Bool, true, false, if◌then◌else◌, Result, ok, err, Error,
  message, panic, Eff, ◌>>=◌, ◌>>◌, pure, fail,
}
use bitcoinx.Base.Decimal.{decimal}
use bitcoinx.GoPath.{path_join}
use bitcoinx.Discovery.{PeerInfo}
use bitcoinx.Discovery.Peers.{Provider, peers}

pub record Server : Type 0 where
  pub root : Text
  pub port : ℕ

-- The addresses in the configuration of a repository.
pub record Addresses : Type 0 where
  pub api : List Text
  pub gateway : List Text
  pub swarm : List Text

-- The calls, in the order of their use: `locked` is `LockedByOtherProcess`, `default_config` is
-- `config.Init`, `init_repo` and `open_repo` are of fsrepo, `set_swarm` is `SetConfigKey` for
-- "Addresses.Swarm", `new_node` is `core.NewNode`, `new_dht` is `dht.New`. `parse_addr` makes the
-- information on a peer from an address, and `connect` is the connection to it. `wait_connected`
-- waits for the channel that `dhtConnect` closes, `decode_cid` is `cid.Decode`, `set_handler` sets
-- what is sent on a stream, `provide` and `find_providers` are those of the DHT, and `close_node` is the
-- `Close` of the node.
pub record Libraries (W : Type 0) : Type 0 where
  pub locked : Text → Eff W Bool
  pub load_plugins : Text → Eff W (Unit {0})
  pub is_initialized : Text → W → Bool
  pub default_config : Eff W Addresses
  pub init_repo : Text → Addresses → Eff W (Unit {0})
  pub open_repo : Text → Eff W (Unit {0})
  pub set_swarm : Text → List Text → Eff W (Unit {0})
  pub new_node : Eff W (Unit {0})
  pub new_dht : Eff W (Unit {0})
  pub parse_addr : Text → Result Text
  pub connect : Text → Eff W (Unit {0})
  pub wait_connected : Eff W (Unit {0})
  pub decode_cid : Text → Result Text
  pub set_handler : Text → Eff W (Unit {0})
  pub provide : Text → Eff W (Unit {0})
  pub find_providers : Text → Eff W (List Provider)
  pub close_node : Eff W (Unit {0})
  pub own_id : Text
  pub encode : PeerInfo → Text
  pub quote : Text → Text

unfoldable pub new : Text → ℕ → Server
new root port = record { root = root; port = port }

abbrev pub bootstrap_peers : List Text
bootstrap_peers =
    lit "/ip4/104.131.131.82/tcp/4001/ipfs/QmaCpDMGvV2BGHeYERUEnRQAwe3N8SzbUtfsmvsqQLuvuJ"
    ∷ lit "/ip4/104.236.179.241/tcp/4001/ipfs/QmSoLPppuBtQSGwKDZT2M73ULpjvfd3aZ6ha4oFGL1KrGM"
    ∷ lit "/ip4/104.236.76.40/tcp/4001/ipfs/QmSoLV4Bbm51jM9C4gDYZQ9Cy3U6aXMJDAbzgu2fzaDs64"
    ∷ lit "/ip4/128.199.219.111/tcp/4001/ipfs/QmSoLSafTMBsPKadTEgaXctDQVcqN88CNLHXMkTNwMKPnu"
    ∷ lit "/ip4/178.62.158.247/tcp/4001/ipfs/QmSoLer265NRgSp2LA3dPaeykiS1J6DifTC88f5uVQKNAd"
    ∷ []

-- The addresses on which the node listens.
unfoldable pub swarm_addrs : ℕ → List Text
swarm_addrs port =
    (lit "/ip4/0.0.0.0/tcp/" ++ decimal port) ∷ (lit "/ip6/::/tcp/" ++ decimal port) ∷ []

module _ {W : Type 0} (lib : Libraries W) where
  open lib use {
    locked, load_plugins, is_initialized, default_config, init_repo, open_repo, set_swarm, new_node,
    new_dht, parse_addr, connect, wait_connected, decode_cid, set_handler, provide, find_providers,
    close_node, own_id, encode, quote,
  }

  unfoldable pub ipfs_init : Server → Eff W (Unit {0})
  ipfs_init s = do conf ← default_config; init_repo s.root (record conf { api = []; gateway = [] })

  unfoldable pub init_if_needed : Server → Eff W (Unit {0})
  init_if_needed s w = if is_initialized s.root w then (ok tt, w) else ipfs_init s w

  abbrev pub already_locked : Server → Error
  already_locked s = message (lit "another instance is already accessing " ++ quote s.root)

  unfoldable pub refuse_if : Bool → Error → Eff W (Unit {0})
  refuse_if true e = fail e
  refuse_if false e = pure tt

  -- All of `Start` but the goroutine that it leaves behind, `dht_connect`.
  unfoldable pub start : Server → Eff W (Unit {0})
  start s = do
    is_locked ← locked s.root
    refuse_if is_locked (already_locked s)
    load_plugins (path_join (s.root ∷ lit "plugins" ∷ []))
    init_if_needed s
    open_repo s.root
    set_swarm s.root (swarm_addrs s.port)
    new_node
    new_dht

  -- `Stop`, which is called after `Start`.
  unfoldable pub stop : Eff W (Unit {0})
  stop = close_node

  -- One round of the loop. An address that cannot be parsed is a nil pointer that is dereferenced;
  -- a connection that fails is passed over.
  unfoldable pub connect_to : Text → Eff W (Unit {0})
  connect_to addr w = elim (parse_addr addr) [
    | err e ↦ (err panic, w)
    | ok info ↦ (ok tt, (connect info w).1)
  ]

  unfoldable pub dht_connect : List Text → Eff W (Unit {0})
  dht_connect [] = pure tt
  dht_connect (addr ∷ addrs) = connect_to addr >> dht_connect addrs

  abbrev decoded : Text → Eff W Text
  decoded chain_id w = (decode_cid chain_id, w)

  unfoldable pub announce : Text → PeerInfo → Eff W (Unit {0})
  announce chain_id peer = do
    wait_connected
    id ← decoded chain_id
    set_handler (encode peer)
    provide id

  -- The peers that are sent on the channel which `Peers` returns.
  unfoldable pub find_peers : Text → Eff W (List PeerInfo)
  find_peers chain_id = do
    wait_connected
    id ← decoded chain_id
    found ← find_providers id
    pure (peers own_id found)
