-- ===== src/Node/Visit/Laws.antt =====
-- Which requests a round sends.
use bitcoinx.Base.{
  ℕ, Text, lit, List, [], ◌∷◌, ◌++◌, true, false, Result, ok, err, if◌then◌else◌, ◌≡◌, refl, ◌∙◌,
  ap, sym, subst, ◌⊎◌, inl, inr, arith, All, Bool-cases, eq_text, eq_text_refl, ◌>>=◌, continue,
  >>=-ok, join_with,
}
use bitcoinx.Discovery.{PeerInfo, ip_list}
use bitcoinx.Node.Dial.{Http, dial_url, dial_seeds, check_status, seed_string, url_before_seeds}
use bitcoinx.Node.Dial.Escape.{query_escape}
use bitcoinx.Node.Discover.{Found, is_seen, is_ok, visit_peers}
use bitcoinx.Node.Visit.{visit}

abbrev pub Within : Text → List Text → Type 0
Within u [] = ⊥
Within u (x ∷ xs) = (x ≡ u) ⊎ Within u xs

Within-append : (u : Text) (xs ys : List Text) → Within u xs → Within u (xs ++ ys)
Within-append u (x ∷ xs) ys (inl e) = inl e
Within-append u (x ∷ xs) ys (inr m) = inr (Within-append u xs ys m)
Within-append u [] ys m = absurd m

Within-last : (u : Text) (xs : List Text) → Within u (xs ++ u ∷ [])
Within-last u [] = inl refl
Within-last u (x ∷ xs) = inr (Within-last u xs)

-- The requests that were sent so far: a request that is made is no request that is sent, and one
-- that is sent stays in the list.
pub record IsLogged {W : Type 0} (http : Http W) (rpc_port : ℕ) (sent : W → List Text)
    : Type 0 where
  pub new_request-ok :
      (peer : PeerInfo) (w : W) → (http.new_request (dial_url rpc_port peer) w).0 ≡ ok tt
  pub new_request-sent : (u : Text) (w : W) → sent (http.new_request u w).1 ≡ sent w
  pub send-sent : (u : Text) (w : W) → sent (http.send u w).1 ≡ sent w ++ u ∷ []

module _ {W : Type 0} (http : Http W) (rpc_port : ℕ) {sent : W → List Text}
    (logged : IsLogged http rpc_port sent) where
  checked-world : (r : Result ℕ × W) → (continue r (check_status http)).1 ≡ r.1
  unfolding check_status
  checked-world (ok code, w) = ground arith
  checked-world (err e, w) = refl

  requested :
      (peer : PeerInfo) (w : W)
      → dial_seeds http rpc_port peer w
        ≡ (http.send (dial_url rpc_port peer) >>= check_status http)
            (http.new_request (dial_url rpc_port peer) w).1
  unfolding dial_seeds
  requested peer w = >>=-ok (http.new_request (dial_url rpc_port peer)) _ (
      ap (λ (r : Result (Unit {0})). (r, (http.new_request (dial_url rpc_port peer) w).1))
        (logged.new_request-ok peer w))

  -- A peer that is dialled gets exactly one request.
  pub dial_seeds-sent :
      (peer : PeerInfo) (w : W)
      → sent (dial_seeds http rpc_port peer w).1 ≡ sent w ++ dial_url rpc_port peer ∷ []
  dial_seeds-sent peer w =
      let u = dial_url rpc_port peer in
      ap (λ (r : Result (Unit {0}) × W). sent r.1) (requested peer w)
      ∙ ap sent (checked-world (http.send u (http.new_request u w).1))
      ∙ logged.send-sent u (http.new_request u w).1
      ∙ ap (λ (l : List Text). l ++ u ∷ []) (logged.new_request-sent u w)

  -- The world and the keys with which the loop goes on after one peer.
  abbrev seen_after : List Text → PeerInfo → W → List Text
  seen_after seen peer w =
      if is_seen seen peer.node_id
      then seen
      else if is_ok (dial_seeds http rpc_port peer w).0
      then peer.node_id ∷ seen
      else seen

  abbrev world_after : List Text → PeerInfo → W → W
  world_after seen peer w =
      if is_seen seen peer.node_id then w else (dial_seeds http rpc_port peer w).1

  Within-world_after :
      (u : Text) (seen : List Text) (peer : PeerInfo) (w : W)
      → Within u (sent w)
      → Within u (sent (world_after seen peer w))
  Within-world_after u seen peer w h = elim (Bool-cases (is_seen seen peer.node_id)) [
    | inl old ↦ rw old h
    | inr new ↦
        rw new (subst (Within u) (sym (dial_seeds-sent peer w)) (Within-append u (sent w) _ h))
  ]

  -- What was sent stays sent.
  pub visit-keeps :
      (u : Text) (seen : List Text) (peers : List PeerInfo) (w : W)
      → Within u (sent w)
      → Within u (sent (visit http rpc_port seen peers w).1)
  unfolding visit
  visit-keeps u seen [] w h = h
  visit-keeps u seen (peer ∷ peers) w h =
      visit-keeps u (seen_after seen peer w) peers (world_after seen peer w)
        (Within-world_after u seen peer w h)

  -- The identity of another peer stays unseen.
  unseen_after :
      (id : Text) (seen : List Text) (peer : PeerInfo) (w : W)
      → is_seen seen id ≡ false
      → eq_text peer.node_id id ≡ false
      → is_seen (seen_after seen peer w) id ≡ false
  unfolding is_seen
  unseen_after id seen peer w h other = ground arith

  -- A peer that is not among the reached ones is sent a request, wherever it comes in the channel, if
  -- no peer before it has the same identity; a request that fails for another peer does not matter.
  pub visit-dials :
      (seen : List Text) (before after : List PeerInfo) (peer : PeerInfo) (w : W)
      → is_seen seen peer.node_id ≡ false
      → All (λ q. eq_text q.node_id peer.node_id ≡ false) before
      → Within
          (dial_url rpc_port peer)
          (sent (visit http rpc_port seen (before ++ peer ∷ after) w).1)
  unfolding visit
  visit-dials seen [] after peer w new others =
      visit-keeps (dial_url rpc_port peer) (seen_after seen peer w) after (world_after seen peer w)
        (rw new (
          subst (Within (dial_url rpc_port peer)) (sym (dial_seeds-sent peer w))
            (Within-last (dial_url rpc_port peer) (sent w))))
  visit-dials seen (q ∷ before) after peer w new others =
      visit-dials (seen_after seen q w) before after peer (world_after seen q w)
        (unseen_after peer.node_id seen q w new others.0) others.1

-- A peer of which no address is known is dialled with an empty list of seeds.
pub seed_string-no_ip : (peer : PeerInfo) → ip_list peer.ip ≡ [] → seed_string peer ≡ lit "[]"
unfolding seed_string join_with
seed_string-no_ip peer h = rw h

module _ {W : Type 0} (http : Http W) (rpc_port : ℕ) where
  -- Once a peer was dialled with success, no round does anything for a peer of that identity,
  -- whatever addresses it then has.
  pub visit-old :
      (seen : List Text) (peers : List PeerInfo) (w : W)
      → All (λ q. is_seen seen q.node_id ≡ true) peers
      → visit http rpc_port seen peers w ≡ (seen, w)
  unfolding visit
  visit-old seen [] w h = refl
  visit-old seen (q ∷ peers) w h = rw (h.0) (visit-old seen peers w h.1)

  All-seen :
      (id : Text) (seen : List Text) (peers : List PeerInfo)
      → is_seen seen id ≡ true
      → All (λ q. q.node_id ≡ id) peers
      → All (λ q. is_seen seen q.node_id ≡ true) peers
  All-seen id seen [] h same = tt
  All-seen id seen (q ∷ peers) h same =
      (ap (is_seen seen) (same.0) ∙ h, All-seen id seen peers h same.1)

  -- When a peer without a known address is dialled with success, which the server may well grant as
  -- the list of seeds is empty, then the node is never asked to dial that peer again in the rounds
  -- that follow, also when addresses of it are found.
  pub visit-no_ip :
      (seen : List Text) (peer : PeerInfo) (later : List PeerInfo) (w w' : W)
      → ip_list peer.ip ≡ []
      → is_seen seen peer.node_id ≡ false
      → (dial_seeds http rpc_port peer w).0 ≡ ok tt
      → All (λ q. q.node_id ≡ peer.node_id) later
      → (dial_url rpc_port peer ≡ url_before_seeds rpc_port ++ query_escape (lit "[]"))
        × (visit http rpc_port (visit http rpc_port seen (peer ∷ []) w).0 later w'
            ≡ ((visit http rpc_port seen (peer ∷ []) w).0, w'))
  unfolding dial_url
  visit-no_ip seen peer later w w' empty new dialled same = (
    ap (λ (t : Text). url_before_seeds rpc_port ++ query_escape t) (seed_string-no_ip peer empty),
    visit-old (visit http rpc_port seen (peer ∷ []) w).0 later w'
        (All-seen peer.node_id _ later recorded same),
  )
    where
      recorded : is_seen (visit http rpc_port seen (peer ∷ []) w).0 peer.node_id ≡ true
      recorded = unfold visit is_seen in rw (new, dialled) (rw (eq_text_refl peer.node_id))

  -- What the loop of `Discover` has as its input, when the dials are the calls that are made.
  unfoldable pub founds : List Text → List PeerInfo → W → List Found
  founds seen [] w = []
  founds seen (peer ∷ peers) w =
      let id = peer.node_id in
      let old = is_seen seen id in
      let (r, w') = dial_seeds http rpc_port peer w in
      record { peer = peer; dialled = r }
      ∷ founds (if old then seen else if is_ok r then id ∷ seen else seen) peers
          (if old then w else w')

  -- With the calls that the code makes, the loop reaches the nodes that the model of the loop on the
  -- results of the dials reaches.
  pub visit-visit_peers :
      (seen : List Text) (peers : List PeerInfo) (w : W)
      → (visit http rpc_port seen peers w).0 ≡ (visit_peers seen (founds seen peers w)).0
  unfolding visit visit_peers founds
  visit-visit_peers seen [] w = refl
  visit-visit_peers seen (peer ∷ peers) w =
      visit-visit_peers
        (if is_seen seen peer.node_id
          then seen
          else if is_ok (dial_seeds http rpc_port peer w).0
          then peer.node_id ∷ seen
          else seen)
        peers (if is_seen seen peer.node_id then w else (dial_seeds http rpc_port peer w).1)
