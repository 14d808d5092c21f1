-- ===== src/Node/Dial/Laws.antt =====
-- What the underlying node is asked for.
use bitcoinx.Base.{ℕ, ◌<◌, All, ◌≡◌, some, ok, err, ◌∙◌, ap, arith}
use bitcoinx.Base.{trim_prefix, trim_prefix-append, ◌==◌, if◌then◌else◌}
use bitcoinx.Discovery.{PeerInfo}
use bitcoinx.Node.Dial.{
  Http, seed_string, url_before_seeds, dial_url, bad_status, check_status, dial_seeds,
}
use bitcoinx.Node.Dial.Escape.{query_escape, query_unescape, query_unescape-query_escape}

-- The query of the request's URL is decoded to the list of seeds, for any peer whose names and
-- addresses are bytes.
pub dial_url-seeds :
    (rpc_port : ℕ) (peer : PeerInfo)
    → All (λ c. c < 256) (seed_string peer)
    → query_unescape (trim_prefix (dial_url rpc_port peer) (url_before_seeds rpc_port))
      ≡ some (seed_string peer)
unfolding dial_url
dial_url-seeds rpc_port peer bytes =
    ap query_unescape
      (trim_prefix-append (url_before_seeds rpc_port) (query_escape (seed_string peer)))
    ∙ query_unescape-query_escape (seed_string peer) bytes

module _ {W : Type 0} (http : Http W) where
  -- Once the request was made and answered, dialling succeeds exactly when the status is 200, and
  -- fails with the status if it is another.
  pub dial_seeds-status :
      (rpc_port code : ℕ) (peer : PeerInfo) (w w1 w2 : W)
      → http.new_request (dial_url rpc_port peer) w ≡ (ok tt, w1)
      → http.send (dial_url rpc_port peer) w1 ≡ (ok code, w2)
      → dial_seeds http rpc_port peer w
        ≡ ((if code == 200 then ok tt else err (bad_status code)), w2)
  unfolding dial_seeds check_status
  dial_seeds-status rpc_port code peer w w1 w2 made sent = ground arith
