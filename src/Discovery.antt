-- ===== src/Discovery.antt =====
-- discovery/discovery.go: publishing, joining and finding the nodes of a network. IPFS and libp2p
-- are parameters of the modules that use them.
pub mod Peers
pub mod Network
pub mod Server
pub mod Memory
mod Tests
use bitcoinx.Base.{Text, List, [], ◌∷◌, Option, none, some}
use bitcoinx.Base.Int.{ℤ}

-- A nil slice of addresses is `none`.
pub record PeerInfo : Type 0 where
  pub node_id : Text
  pub ip : Option (List Text)
  pub tendermint_p2p_port : ℤ

-- The addresses that a loop over the slice meets.
abbrev pub ip_list : Option (List Text) → List Text
ip_list none = []
ip_list (some ips) = ips
