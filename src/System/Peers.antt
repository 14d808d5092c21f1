-- ===== src/System/Peers.antt =====
-- From `Announce` of discovery/discovery.go on one node to `dialSeeds` of node/server.go on another.
use bitcoinx.Base.{lit, Bool, true, Option, map, join_with, Text, List, ◌++◌, some, ok, ◌≡◌, ℕ}
use bitcoinx.Discovery.Server.{Libraries}
use bitcoinx.Base.Decimal.{decimal, decimal_ℤ}
use bitcoinx.Base.Int.{ℤ}
use bitcoinx.Node.Dial.Escape.{query_escape}

-- What the libraries of a node do for others: `handled` is what it sends on a stream, and `provided`
-- whether it is a provider of an identifier.
pub record IsProviding {W : Type 0} (there : Libraries W) (handled : W → Option Text)
    (provided : W → Text → Bool) : Type 0 where
  pub set_handler-handled :
      (t : Text) (w v : W) → there.set_handler t w ≡ (ok tt, v) → handled v ≡ some t
  pub provide-handled :
      (id : Text) (w v : W) → there.provide id w ≡ (ok tt, v) → handled v ≡ handled w
  pub provide-provided :
      (id : Text) (w v : W) → there.provide id w ≡ (ok tt, v) → provided v id ≡ true

-- The request by which the underlying server is told to dial a node at some addresses.
pub dial_request : ℕ → Text → ℤ → List Text → Text
dial_request rpc_port node_id p2p_port ips =
    lit "http://localhost:"
    ++ (decimal rpc_port ++ lit "/dial_seeds?seeds=")
    ++ query_escape (
        lit "["
        ++ (join_with (lit ",") (
              map
                (λ (ip : Text).
                  lit "\""
                  ++ (node_id
                      ++ (lit "@" ++ (ip ++ (lit ":" ++ (decimal_ℤ p2p_port ++ lit "\""))))))
                ips)
            ++ lit "]"))
