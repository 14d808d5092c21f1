-- ===== src/Discovery/Server/Laws.antt =====
-- What a started server listens on, and how nodes meet.
use bitcoinx.Base.{
  Text, List, [], ◌∷◌, true, Option, none, some, Result, ok, Eff, ◌≡◌, ◌≢◌, refl, ◌∙◌, arith,
  >>=-ok, ◌>>◌,
}
use bitcoinx.Discovery.{PeerInfo}
use bitcoinx.Discovery.Peers.{Provider, offer, ipv4s, with_addrs}
use bitcoinx.Discovery.Peers.Laws.{offer_iff}
use bitcoinx.Discovery.Server.{Server, Addresses, Libraries, swarm_addrs, connect_to, dht_connect}

-- What the libraries guarantee of the configuration that a repository holds: initialising writes it,
-- setting a key changes that key, and nothing else that `Start` calls changes it.
pub record IsRepository {W : Type 0} (lib : Libraries W) (config : W → Text → Option Addresses)
    : Type 0 where
  pub locked-config : (r q : Text) (w : W) → config (lib.locked r w).1 q ≡ config w q
  pub load_plugins-config : (r q : Text) (w : W) → config (lib.load_plugins r w).1 q ≡ config w q
  pub is_initialized-config :
      (r : Text) (w : W) → lib.is_initialized r w ≡ true → (a : Addresses) × (config w r ≡ some a)
  pub init_repo-config :
      (r : Text) (a : Addresses) (w : W)
      → (lib.init_repo r a w).0 ≡ ok tt
      → config (lib.init_repo r a w).1 r ≡ some a
  pub open_repo-config : (r q : Text) (w : W) → config (lib.open_repo r w).1 q ≡ config w q
  pub set_swarm-config :
      (r : Text) (addrs : List Text) (a : Addresses) (w : W)
      → (lib.set_swarm r addrs w).0 ≡ ok tt
      → config w r ≡ some a
      → config (lib.set_swarm r addrs w).1 r ≡ some (record a { swarm = addrs })
  pub new_node-config : (q : Text) (w : W) → config (lib.new_node w).1 q ≡ config w q
  pub new_dht-config : (q : Text) (w : W) → config (lib.new_dht w).1 q ≡ config w q

module _ {W : Type 0} (lib : Libraries W) where
  -- When the addresses can be parsed, the goroutine tries every bootstrap peer, in order, and ends,
  -- whichever connections fail.
  unfoldable pub connect_all : List Text → W → W
  connect_all [] w = w
  connect_all (i ∷ infos) w = connect_all infos (lib.connect i w).1

  -- The addresses are parsed to the given peers.
  abbrev pub Parsed : List Text → List Text → Type 0
  Parsed [] [] = Unit
  Parsed [] (i ∷ infos) = ⊥
  Parsed (a ∷ addrs) [] = ⊥
  Parsed (a ∷ addrs) (i ∷ infos) = (lib.parse_addr a ≡ ok i) × Parsed addrs infos

  connect_to-ok :
      (a i : Text) (w : W)
      → lib.parse_addr a ≡ ok i
      → connect_to lib a w ≡ (ok tt, (lib.connect i w).1)
  unfolding connect_to
  connect_to-ok a i w h = ground arith

  pub dht_connect-connect_all :
      (addrs infos : List Text) (w : W)
      → Parsed addrs infos
      → dht_connect lib addrs w ≡ (ok tt, connect_all infos w)
  unfolding dht_connect connect_all
  dht_connect-connect_all [] [] w h = refl
  dht_connect-connect_all [] (i ∷ infos) w h = absurd h
  dht_connect-connect_all (a ∷ addrs) [] w h = absurd h
  dht_connect-connect_all (a ∷ addrs) (i ∷ infos) w h =
      >>=-ok (connect_to lib a) _ (connect_to-ok a i w h.0)
      ∙ dht_connect-connect_all addrs infos (lib.connect i w).1 h.1

  module _ {config : W → Text → Option Addresses} (repo : IsRepository lib config) where
    -- Neither the API nor a gateway is served.
    abbrev pub IsClosed : Option Addresses → Type 0
    IsClosed none = Unit
    IsClosed (some a) = (a.api ≡ []) × (a.gateway ≡ [])

    -- The repository serves nothing but the swarm, on the server's port.
    abbrev pub Serves : Server → W → Type 0
    Serves s w =
        (a : Addresses) × (config w s.root ≡ some a)
        × (a.api ≡ [])
        × (a.gateway ≡ [])
        × (a.swarm ≡ swarm_addrs s.port)

    -- The calls of `Start` once the repository is there.
    abbrev run_node : Server → Eff W (Unit {0})
    run_node s =
        lib.open_repo s.root
        >> (lib.set_swarm s.root (swarm_addrs s.port) >> (lib.new_node >> lib.new_dht))

-- A node that announces itself is offered to every other node that finds it as a provider with an
-- address and can open a stream to it: with its identity and its port, and with just the IPv4
-- addresses of the provider.
pub offer-announced :
    (decode : Text → Result PeerInfo) (encode : PeerInfo → Text) (self : Text) (peer : PeerInfo)
    (p : Provider)
    → decode (encode peer) ≡ ok peer
    → p.decoded ≡ decode (encode peer)
    → peer.ip ≡ none
    → p.id ≢ self
    → p.addrs ≢ []
    → p.stream ≡ ok tt
    → offer self p ≡ some (record peer { ip = some (ipv4s p.addrs) })
unfolding with_addrs
offer-announced decode encode self peer p round sent no_ip other addrs open_ =
    (offer_iff self p (with_addrs peer p.addrs)).1 (peer, other, addrs, open_, sent ∙ round, refl)
    ∙ rw no_ip
