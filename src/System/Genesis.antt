-- ===== src/System/Genesis.antt =====
-- `createNetwork` of node/node.go on one node, and the commands of cmd/start.go and cmd/join.go on
-- another one: the files of the network that the first one publishes are those of the second.
use bitcoinx.Base.{
  Text, false, Bool, Option, some, Result, ok, ◌≡◌, ◌∙◌, ap, subst, wrapping-inv, >>=-inv, is_empty,
}
use bitcoinx.Files.{IsLawful}
use bitcoinx.Config.{Config, manifest_path, genesis_path}
use bitcoinx.Project.{Project, parse}
use bitcoinx.Discovery.Network.{
  Ipfs, NetworkInfo, network_path, manifest_name, genesis_name, cannot_read, fetch, fetch_image,
  join,
}
use bitcoinx.Discovery.Network.Laws.{IsContentStore}
use bitcoinx.Node.Init.{Host, init}
use bitcoinx.Node.Start.{Running, create_network}
use bitcoinx.Node.Start.Laws.{IsRunning, create_network-join}
use bitcoinx.Cmd.Launch.{Program, Launch, prepare_start, prepare_join}
use bitcoinx.Cmd.Launch.Join.{prepare_join-Starts}
use bitcoinx.Cmd.Launch.Laws.{start-genesis}

-- IPFS names content: at all times and on every node, there is at most one text under a path.
pub record IsAddressed {W : Type 0} (stored : W → Text → Option Text) : Type 0 where
  pub stored-unique :
      (path b d : Text) (w v : W) → stored w path ≡ some b → stored v path ≡ some d → b ≡ d

-- A node gets what is stored: parsing a path does not change it, and what is read under a path is
-- the text that is stored there.
pub record IsGateway {W : Type 0} (ipfs : Ipfs W) (stored : W → Text → Option Text) : Type 0 where
  pub parse_path-same : (p q : Text) → ipfs.parse_path p ≡ ok q → q ≡ p
  pub read_all-stored :
      (path b : Text) (h : ipfs.Handle) (w v : W)
      → ipfs.get (some path) w ≡ (ok h, v)
      → (ipfs.read_all h v).0 ≡ ok b
      → stored w path ≡ some b

module _ {W : Type 0} (ipfs : Ipfs W) {stored : W → Text → Option Text}
    (gateway : IsGateway ipfs stored) where
  fetch-inv :
      (cid name b : Text) (w : W)
      → (fetch ipfs cid name w).0 ≡ ok b
      → (v : W) × (stored v (network_path ipfs cid name) ≡ some b)
  unfolding fetch
  fetch-inv cid name b w done =
      let place = network_path ipfs cid name in
      let (path, w1, e1, h1, _) = >>=-inv (λ v. (ipfs.parse_path place, v)) _ w done in
      let (f, w2, e2, h2, _) = >>=-inv (ipfs.get (some path)) _ w1 h1 in
      (
        w1,
        subst (λ (p : Text). stored w1 p ≡ some b)
            (gateway.parse_path-same place path (ap (λ (r : Result Text × W). r.0) e1))
            (gateway.read_all-stored path b f w1 w2 e2
              (wrapping-inv (cannot_read ipfs) (ipfs.read_all f) w2 h2)),
      )

  -- What joining a network gives is stored under the network's identifier.
  pub join-inv :
      (cid : Text) (w : W) (n : NetworkInfo ipfs.Handle)
      → (join ipfs cid w).0 ≡ ok n
      → ((v : W) × (stored v (network_path ipfs cid manifest_name) ≡ some n.manifest))
        × ((v : W) × (stored v (network_path ipfs cid genesis_name) ≡ some n.genesis))
  unfolding join
  join-inv cid w n done =
      let (m, w1, e1, h1, _) = >>=-inv (fetch ipfs cid manifest_name) _ w done in
      let (g, w2, e2, h2, _) = >>=-inv (fetch ipfs cid genesis_name) _ w1 h1 in
      let (i, w3, e3, h3, _) = >>=-inv (fetch_image ipfs cid) _ w2 h2 in
      let info : NetworkInfo ipfs.Handle = record { manifest = m; genesis = g; image = i } in
      let (v, at) = fetch-inv cid manifest_name m w (ap (λ (r : Result Text × W). r.0) e1) in
      let (v', at') = fetch-inv cid genesis_name g w1 (ap (λ (r : Result Text × W). r.0) e2) in
      (
        (v, at ∙ ap (λ (x : NetworkInfo ipfs.Handle). some x.manifest) (made info n h3)),
        (v', at' ∙ ap (λ (x : NetworkInfo ipfs.Handle). some x.genesis) (made info n h3)),
      )
    where
      made : (x y : NetworkInfo ipfs.Handle) → ok x ≡ ok y → x ≡ y
      made x y e = cc

-- One node, which creates a network, and the program on another one.
module _ {W : Type 0} (host : Host W) (ipfs : Ipfs W) (running : Running W)
    {content stored : W → Text → Option Text} {image_of : ipfs.Handle → Text}
    (store : IsContentStore ipfs content stored image_of) (safe : IsRunning running content)
    (addressed : IsAddressed stored) (gateway : IsGateway ipfs stored) (program : Program W)
    (other : IsGateway program.ipfs stored) where
  -- Whoever joins a network that a node has created gets the manifest and the genesis file that the
  -- node had when it created the network, on whatever node and at whatever time.
  pub join-create_network :
      (c : Config) (p : Project) (m g cid : Text) (w v : W)
      → (n : NetworkInfo program.ipfs.Handle) → content w (manifest_path c) ≡ some m
      → content w (genesis_path c) ≡ some g
      → (create_network host ipfs running c p w).0 ≡ ok cid
      → (join program.ipfs cid v).0 ≡ ok n
      → (n.manifest ≡ m) × (n.genesis ≡ g)
  join-create_network c p m g cid w v n hm hg created joined =
      let (h, own) = create_network-join host ipfs running store safe c p m g cid w hm hg created in
      let ((a, ma), (b, gb)) =
        join-inv ipfs gateway cid (create_network host ipfs running c p w).1
          (record { manifest = m; genesis = g; image = h })
          (ap (λ (r : Result (NetworkInfo ipfs.Handle) × W). r.0) own) in
      let ((a', ma'), (b', gb')) = join-inv program.ipfs other cid v n joined in
      (
        addressed.stored-unique _ n.manifest m a' a ma' ma,
        addressed.stored-unique _ n.genesis g b' b gb' gb,
      )

  -- When IPFS names content and gives both nodes what is stored, and saving the image spares the
  -- first node's files: a node that was started to join a network which another node has created,
  -- and that has been initialised, has exactly the genesis file which the other node had when it
  -- created the network.
  pub start-create_network :
      {content_there : W → Text → Option Text}
      → IsLawful program.host.files content_there
      → (c : Config) (p : Project) (m g cid root : Text) (edit_flag : Result Bool) (w v v' : W)
      → (l : Launch) → is_empty cid ≡ false
      → content w (manifest_path c) ≡ some m
      → content w (genesis_path c) ≡ some g
      → (create_network host ipfs running c p w).0 ≡ ok cid
      → (prepare_start program root (ok cid) edit_flag v).0 ≡ ok l
      → (init program.host l.config l.project l.genesis l.edit_genesis v').0 ≡ ok tt
      → content_there
          (init program.host l.config l.project l.genesis l.edit_genesis v').1
          (genesis_path l.config)
        ≡ some g
  start-create_network lawful c p m g cid root edit_flag w v v' l given hm hg created prepared
        done =
      let (n, before, after, joined, held) =
        start-genesis program lawful root cid edit_flag v v' l given prepared done in
      held
      ∙ ap (λ (t : Text). some t)
          (join-create_network c p m g cid w before n hm hg created
            (ap (λ (r : Result (NetworkInfo program.ipfs.Handle) × W). r.0) joined)).1

  -- When IPFS names content and gives both nodes what is stored, and saving the image spares the
  -- first node's files: the command `join`, given the identifier of a network that another node has created, starts a
  -- node with that node's genesis file and with the project of which that node's manifest is the
  -- text, and does not publish.
  pub prepare_join-create_network :
      (c : Config) (p : Project) (m g cid : Text) (w v : W) (l : Launch)
      → content w (manifest_path c) ≡ some m
      → content w (genesis_path c) ≡ some g
      → (create_network host ipfs running c p w).0 ≡ ok cid
      → (prepare_join program cid v).0 ≡ ok l
      → (l.genesis ≡ some g)
        × (parse program.yaml m ≡ ok l.project)
        × (l.config.publish_network ≡ false)
  prepare_join-create_network c p m g cid w v l hm hg created prepared =
      let (n, before, after, joined, genesis, read, own, _) =
        prepare_join-Starts program cid v l prepared in
      let (em, eg) =
        join-create_network c p m g cid w before n hm hg created
          (ap (λ (r : Result (NetworkInfo program.ipfs.Handle) × W). r.0) joined) in
      (
        genesis ∙ ap (λ (t : Text). some t) eg,
        subst (λ (t : Text). parse program.yaml t ≡ ok l.project) em read,
        own,
      )
