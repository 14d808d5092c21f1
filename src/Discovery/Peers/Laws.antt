-- ===== src/Discovery/Peers/Laws.antt =====
-- One provider never keeps another one from being offered, and no peer is offered without addresses
-- or for the node itself.
use bitcoinx.Base.{
  Text, List, [], ◌∷◌, ◌++◌, Option, none, some, Result, ok, err, ◌≡◌, ◌≢◌, refl, arith, ap, ◌↔◌,
  eq_text_iff,
}
use bitcoinx.Discovery.{PeerInfo}
use bitcoinx.Discovery.Peers.{Provider, with_addrs, ask, offer, peers}

-- What one provider contributes.
abbrev pub contribution : Option PeerInfo → List PeerInfo
contribution none = []
contribution (some peer) = peer ∷ []

-- A provider in the middle contributes its peer, or nothing; those before and behind it are offered
-- as without it, whatever fails for it.
pub peers-middle :
    (self : Text) (before after : List Provider) (p : Provider)
    → peers self (before ++ p ∷ after)
      ≡ peers self before ++ (contribution (offer self p) ++ peers self after)
unfolding peers
peers-middle self [] after p = go (offer self p)
  where
    go :
        (o : Option PeerInfo)
        → (elim o as (λ _. List PeerInfo) [
          | none ↦ peers self after
          | some peer ↦ peer ∷ peers self after
        ])
          ≡ contribution o ++ peers self after
    go none = refl
    go (some peer) = refl
peers-middle self (q ∷ before) after p = go (offer self q) (peers-middle self before after p)
  where
    go :
        (o : Option PeerInfo)
        → peers self (before ++ p ∷ after)
          ≡ peers self before ++ (contribution (offer self p) ++ peers self after)
        → (elim o as (λ _. List PeerInfo) [
          | none ↦ peers self (before ++ p ∷ after)
          | some peer ↦ peer ∷ peers self (before ++ p ∷ after)
        ])
          ≡ (elim o as (λ _. List PeerInfo) [
            | none ↦ peers self before
            | some peer ↦ peer ∷ peers self before
          ])
            ++ (contribution (offer self p) ++ peers self after)
    go none h = h
    go (some peer) h = ap (λ (l : List PeerInfo). peer ∷ l) h

-- A provider is offered exactly when it is another node, has an address, and a peer was decoded from
-- a stream to it; the peer then has its own addresses and the provider's IPv4 addresses.
pub offer_iff :
    (self : Text) (p : Provider) (peer : PeerInfo)
    → (offer self p ≡ some peer) ↔ (
        (old : PeerInfo) × (p.id ≢ self)
        × (p.addrs ≢ [])
        × (p.stream ≡ ok tt)
        × (p.decoded ≡ ok old)
        × (peer ≡ with_addrs old p.addrs))
offer_iff self p peer = (forth p.addrs p.stream p.decoded, λ h. back p.addrs p.stream p.decoded h)
  where
    forth :
        (addrs : List (Result Text)) (stream : Result (Unit {0})) (decoded : Result PeerInfo)
        → offer self (record { id = p.id; addrs = addrs; stream = stream; decoded = decoded })
          ≡ some peer
        → (old : PeerInfo) × (p.id ≢ self)
          × (addrs ≢ [])
          × (stream ≡ ok tt)
          × (decoded ≡ ok old)
          × (peer ≡ with_addrs old addrs)
    forth (a ∷ addrs) (ok u) (ok old) h =
        unfold offer ask in
        (
          old,
          ground (arith, eq_text_iff p.id self),
          λ e. cc,
          refl,
          refl,
          ground (arith, eq_text_iff p.id self),
        )
    forth [] stream decoded h = unfold offer ask in absurd (ground arith)
    forth (a ∷ addrs) (err e) decoded h = unfold offer ask in absurd (ground arith)
    forth (a ∷ addrs) (ok u) (err e) h = unfold offer ask in absurd (ground arith)

    back :
        (addrs : List (Result Text)) (stream : Result (Unit {0})) (decoded : Result PeerInfo)
        → (old : PeerInfo) × (p.id ≢ self)
          × (addrs ≢ [])
          × (stream ≡ ok tt)
          × (decoded ≡ ok old)
          × (peer ≡ with_addrs old addrs)
        → offer self (record { id = p.id; addrs = addrs; stream = stream; decoded = decoded })
          ≡ some peer
    back [] stream decoded h = absurd (h.2 refl)
    back (a ∷ addrs) (ok u) (ok old) h = unfold offer ask in ground (arith, eq_text_iff p.id self)
    back (a ∷ addrs) (err e) decoded h = cc
    back (a ∷ addrs) (ok u) (err e) h = cc
