-- ===== src/Node/Dial.antt =====
-- node/server.go, `dialSeeds`: the request by which a peer is added to the underlying node.
pub mod Escape
pub mod Laws
use bitcoinx.Base.{
  ℕ, Text, lit, List, [], ◌∷◌, ◌++◌, map, join_with, Eff, Result, ok, err, Error, message, wrap,
  ◌>>=◌, ◌>>◌, pure, fail, if◌then◌else◌, ◌==◌,
}
use bitcoinx.Base.Decimal.{decimal, decimal_ℤ}
use bitcoinx.Discovery.{PeerInfo, ip_list}
use bitcoinx.Node.Dial.Escape.{query_escape}

-- `http.NewRequest`, and `client.Do` with the status of the response.
pub record Http (W : Type 0) : Type 0 where
  pub new_request : Text → Eff W (Unit {0})
  pub send : Text → Eff W ℕ

-- `fmt.Sprintf("\"%s@%s:%d\"", ...)`
unfoldable pub seed : PeerInfo → Text → Text
seed peer ip =
    lit "\""
    ++ (peer.node_id
        ++ (lit "@" ++ (ip ++ (lit ":" ++ (decimal_ℤ peer.tendermint_p2p_port ++ lit "\"")))))

unfoldable pub seed_string : PeerInfo → Text
seed_string peer = lit "[" ++ (join_with (lit ",") (map (seed peer) (ip_list peer.ip)) ++ lit "]")

unfoldable pub url_before_seeds : ℕ → Text
url_before_seeds rpc_port =
    lit "http://localhost:" ++ (decimal rpc_port ++ lit "/dial_seeds?seeds=")

unfoldable pub dial_url : ℕ → PeerInfo → Text
dial_url rpc_port peer = url_before_seeds rpc_port ++ query_escape (seed_string peer)

-- `fmt.Errorf("requested failed with code %d", ...)`
abbrev pub bad_status : ℕ → Error
bad_status code = message (lit "requested failed with code " ++ decimal code)

module _ {W : Type 0} (http : Http W) where
  unfoldable pub check_status : ℕ → Eff W (Unit {0})
  check_status code = if code == 200 then pure tt else fail (bad_status code)

  unfoldable pub dial_seeds : ℕ → PeerInfo → Eff W (Unit {0})
  dial_seeds rpc_port peer = do
    http.new_request (dial_url rpc_port peer)
    code ← http.send (dial_url rpc_port peer)
    check_status code
