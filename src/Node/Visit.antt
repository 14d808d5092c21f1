-- ===== src/Node/Visit.antt =====
-- node/node.go, one round of `discoverPeers` with its calls: the peers of the network are found, and
-- those that were not reached before are dialled. The channel is read after all peers were found.
pub mod Laws
use bitcoinx.Base.{ℕ, Text, List, [], ◌∷◌, Result, ok, err, Eff, if◌then◌else◌}
use bitcoinx.Discovery.{PeerInfo}
use bitcoinx.Discovery.Server.{Libraries, find_peers}
use bitcoinx.Node.Dial.{Http, dial_seeds}
use bitcoinx.Node.Discover.{is_seen, is_ok}

module _ {W : Type 0} (http : Http W) (rpc_port : ℕ) where
  -- The loop over the channel: the keys of `seenNodes` after it, and the world.
  unfoldable pub visit : List Text → List PeerInfo → W → List Text × W
  visit seen [] w = (seen, w)
  visit seen (peer ∷ peers) w =
      let id = peer.node_id in
      let old = is_seen seen id in
      let (r, w') = dial_seeds http rpc_port peer w in
      visit (if old then seen else if is_ok r then id ∷ seen else seen) peers
        (if old then w else w')

  -- What follows on the result of `Peers`.
  abbrev pub visit_found : List Text → Result (List PeerInfo) × W → Result (List Text) × W
  visit_found seen (ok peers, w) = let (seen', w') = visit seen peers w in (ok seen', w')
  visit_found seen (err e, w) = (err e, w)

  -- The keys of `seenNodes` after the round.
  unfoldable pub round : Libraries W → Text → List Text → Eff W (List Text)
  round lib chain_id seen w = visit_found seen (find_peers lib chain_id w)
