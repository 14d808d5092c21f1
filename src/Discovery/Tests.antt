-- ===== src/Discovery/Tests.antt =====
-- A network that is published and joined in memory, and the providers of another one.
use bitcoinx.Base.{lit, [], ◌∷◌, none, some, Result, ok, err, external, ◌≡◌, refl, eq_text}
use bitcoinx.Base.Int.{pos}
use bitcoinx.GoPath.{path_join}
use bitcoinx.Discovery.{PeerInfo}
use bitcoinx.Discovery.Peers.{Provider}
use bitcoinx.Discovery.Network.{publish}
use bitcoinx.Discovery.Memory.{World, held, held_in, ipfs, sandbox}

abbrev start : World
start = record { links = []; stored = λ p. none }

published : (publish ipfs (lit "/m") (lit "/g") (lit "/i") start).0 ≡ ok (lit "Qm")
unfolding publish held_in eq_text path_join sandbox
published = refl

three_files :
    (held start (lit "/m") ≡ some (lit "manifest"))
    × (held start (lit "/g") ≡ some (lit "genesis"))
    × (held start (lit "/i") ≡ some (lit "image"))
unfolding held_in eq_text
three_files = (refl, refl, refl)

abbrev after : World
after = (publish ipfs (lit "/m") (lit "/g") (lit "/i") start).1

abbrev peer : PeerInfo
peer = record { node_id = lit "n"; ip = none; tendermint_p2p_port = pos 42000 }

abbrev provider : Result (Unit {0}) → Provider
provider stream = record {
  id = lit "b";
  addrs = ok (lit "1.2.3.4") ∷ err (external 1) ∷ [];
  stream = stream;
  decoded = ok peer;
}

abbrev ip_peer : PeerInfo
ip_peer = record peer { ip = some (lit "1.2.3.4" ∷ []) }
