-- ===== src/Discovery/Peers.antt =====
-- discovery/discovery.go, `Peers`: which of the providers of a network are offered to the node, and
-- with which addresses. What the libraries return for a provider is part of the input.
pub mod Laws
use bitcoinx.Base.{
  Text, List, [], ◌∷◌, ◌++◌, Bool, true, false, ◌&&◌, Option, none, some, Result, ok, err, Error,
  not, eq_text, if◌then◌else◌, is_empty,
}
use bitcoinx.Discovery.{PeerInfo, ip_list}

-- A provider, with the result of `ValueForProtocol(P_IP4)` for each of its addresses, that of opening
-- a stream to it, and that of decoding what it sends.
pub record Provider : Type 0 where
  pub id : Text
  pub addrs : List (Result Text)
  pub stream : Result (Unit {0})
  pub decoded : Result PeerInfo

-- The loop over the addresses.
unfoldable pub ipv4s : List (Result Text) → List Text
ipv4s [] = []
ipv4s (err e ∷ addrs) = ipv4s addrs
ipv4s (ok v ∷ addrs) = let rest = ipv4s addrs in if is_empty v then rest else v ∷ rest

-- The peer that is sent on the channel.
unfoldable pub with_addrs : PeerInfo → List (Result Text) → PeerInfo
with_addrs peer addrs = record peer { ip = some (ip_list peer.ip ++ ipv4s addrs) }

abbrev pub has_addrs : List (Result Text) → Bool
has_addrs [] = false
has_addrs (a ∷ addrs) = true

-- The body of the loop, for a provider that is not the node itself and has addresses.
unfoldable pub ask : Result (Unit {0}) → Result PeerInfo → List (Result Text) → Option PeerInfo
ask (err e) decoded addrs = none
ask (ok u) (err e) addrs = none
ask (ok u) (ok peer) addrs = some (with_addrs peer addrs)

unfoldable pub offer : Text → Provider → Option PeerInfo
offer self p =
    if not (eq_text p.id self) && has_addrs p.addrs then ask p.stream p.decoded p.addrs else none

-- The peers sent on the channel, in order.
unfoldable pub peers : Text → List Provider → List PeerInfo
peers self [] = []
peers self (p ∷ ps) = elim (offer self p) [
  | none ↦ peers self ps
  | some peer ↦ peer ∷ peers self ps
]
