-- ===== src/System/Scenarios.antt =====
-- A node is found and dialled by another one.
use bitcoinx.Base.{
  Text, lit, List, [], ◌∷◌, ◌++◌, Option, none, some, ok, err, ◌≡◌, refl, external, Bool, true,
  false,
}
use bitcoinx.Base.Int.{pos}
use bitcoinx.Discovery.{PeerInfo}
use bitcoinx.Discovery.Peers.{Provider}
use bitcoinx.Discovery.Server.{Libraries}
use bitcoinx.Node.Dial.{Http, dial_url, dial_seeds, check_status, url_before_seeds}
use bitcoinx.Node.Dial.Escape.{query_escape}
use bitcoinx.Node.Discover.{is_seen}
use bitcoinx.Node.Visit.{visit}
use bitcoinx.Node.Visit.Laws.{IsLogged, visit-no_ip}

-- The requests that were sent.
abbrev Log : Type 0
Log = List Text

abbrev http : Http Log
http = record { new_request = λ u w. (ok tt, w); send = λ u w. (ok 200, w ++ u ∷ []) }

http-IsLogged : IsLogged http 26657 (λ w. w)
http-IsLogged = record {
  new_request-ok = λ peer w. refl;
  new_request-sent = λ u w. refl;
  send-sent = λ u w. refl;
}

abbrev peer : PeerInfo
peer = record { node_id = lit "id"; ip = none; tendermint_p2p_port = pos 52000 }

abbrev provider : Provider
provider = record {
  id = lit "b";
  addrs = err (external 1) ∷ ok (lit "10.0.0.1") ∷ [];
  stream = ok tt;
  decoded = ok peer;
}

-- A provider that cannot be reached.
abbrev silent : Provider
silent = record {
  id = lit "c";
  addrs = ok (lit "10.0.0.2") ∷ [];
  stream = err (external 2);
  decoded = ok peer;
}

-- A world that keeps the requests, what is sent on a stream, and the identifiers that are provided.
record Net : Type 0 where
  requests : Log
  handled : Option Text
  provided : Bool

abbrev net_http : Http Net
net_http = record {
  new_request = λ u w. (ok tt, w);
  send = λ u w. (ok 200, record w { requests = w.requests ++ u ∷ [] });
}

-- All calls succeed and change nothing.
abbrev quiet : Libraries Net
quiet = record {
  locked = λ root w. (ok false, w);
  load_plugins = λ root w. (ok tt, w);
  is_initialized = λ root w. true;
  default_config = λ w. (ok (record { api = []; gateway = []; swarm = [] }), w);
  init_repo = λ root conf w. (ok tt, w);
  open_repo = λ root w. (ok tt, w);
  set_swarm = λ root addrs w. (ok tt, w);
  new_node = λ w. (ok tt, w);
  new_dht = λ w. (ok tt, w);
  parse_addr = λ addr. ok addr;
  connect = λ info w. (ok tt, w);
  wait_connected = λ w. (ok tt, w);
  decode_cid = λ t. ok t;
  set_handler = λ t w. (ok tt, record w { handled = some t });
  provide = λ id w. (ok tt, record w { provided = true });
  find_providers = λ id w. (ok (silent ∷ provider ∷ []), w);
  close_node = λ w. (ok tt, w);
  own_id = lit "a";
  encode = λ p. p.node_id;
  quote = λ t. t;
}

abbrev started : Net
started = record { requests = []; handled = none; provided = false }

abbrev announced : Net
announced = record started { handled = some (lit "id"); provided = true }

abbrev found_later : PeerInfo
found_later = record peer { ip = some (lit "10.0.0.1" ∷ []) }

visit-no_ip_example :
    (dial_url 26657 peer ≡ url_before_seeds 26657 ++ query_escape (lit "[]"))
    × (visit http 26657 (visit http 26657 [] (peer ∷ []) []).0 (found_later ∷ []) []
        ≡ ((visit http 26657 [] (peer ∷ []) []).0, []))
unfolding is_seen dial_seeds check_status
visit-no_ip_example =
    visit-no_ip http 26657 [] peer (found_later ∷ []) [] [] refl refl refl (refl, tt)
