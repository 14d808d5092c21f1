-- ===== src/Discovery/Server/Tests.antt =====
-- A server that starts on a repository in memory, and a node that is found.
use bitcoinx.Base.{
  Text, lit, List, [], ◌∷◌, Bool, true, false, Option, none, some, ok, err, external, ◌≡◌, refl,
}
use bitcoinx.Base.Int.{pos}
use bitcoinx.Discovery.{PeerInfo}
use bitcoinx.Discovery.Peers.{Provider}
use bitcoinx.Discovery.Server.{
  Server, Addresses, Libraries, start, init_if_needed, ipfs_init, refuse_if,
}

-- The configuration of the one repository, if it was initialised.
abbrev Repo : Type 0
Repo = Option Addresses

abbrev is_some : Repo → Bool
is_some none = false
is_some (some a) = true

abbrev set : List Text → Repo → Repo
set addrs none = none
set addrs (some a) = some (record a { swarm = addrs })

abbrev lib : Libraries Repo
lib = record {
  locked = λ r w. (ok false, w);
  load_plugins = λ r w. (ok tt, w);
  is_initialized = λ r w. is_some w;
  default_config =
      λ w. (ok (record { api = lit "5001" ∷ []; gateway = lit "8080" ∷ []; swarm = [] }), w);
  init_repo = λ r a w. (ok tt, some a);
  open_repo = λ r w. (ok tt, w);
  set_swarm = λ r addrs w. (ok tt, set addrs w);
  new_node = λ w. (ok tt, w);
  new_dht = λ w. (ok tt, w);
  parse_addr = λ a. ok a;
  connect = λ i w. (err (external 1), w);
  wait_connected = λ w. (ok tt, w);
  decode_cid = λ c. ok c;
  set_handler = λ t w. (ok tt, w);
  provide = λ c w. (ok tt, w);
  find_providers = λ c w. (ok [], w);
  close_node = λ w. (ok tt, w);
  own_id = lit "a";
  encode = λ p. p.node_id;
  quote = λ s. s;
}

abbrev server : Server
server = record { root = lit "/home/state/ipfs"; port = 52003 }

started : (start lib server none).0 ≡ ok tt
unfolding start init_if_needed ipfs_init refuse_if
started = refl

abbrev peer : PeerInfo
peer = record { node_id = lit "n"; ip = none; tendermint_p2p_port = pos 52002 }

abbrev provider : Provider
provider = record {
  id = lit "b";
  addrs = ok (lit "1.2.3.4") ∷ err (external 1) ∷ [];
  stream = ok tt;
  decoded = ok peer;
}
