-- ===== src/System/CommandLine.antt =====
-- `createNetwork` of node/node.go on one node, and on another one a line of the program, as main.go
-- and cmd/root.go run it, which joins the network.
use bitcoinx.Base.{
  Text, lit, List, [], ◌∷◌, false, Option, some, Result, ok, ◌≡◌, ◌∙◌, sym, subst, is_empty,
}
use bitcoinx.Files.{IsLawful}
use bitcoinx.Config.{Config, manifest_path, genesis_path}
use bitcoinx.Project.{Project, parse}
use bitcoinx.Discovery.Network.{Ipfs}
use bitcoinx.Discovery.Network.Laws.{IsContentStore}
use bitcoinx.Node.Init.{Host, init}
use bitcoinx.Node.Start.{Running, create_network}
use bitcoinx.Node.Start.Laws.{IsRunning}
use bitcoinx.Cmd.Launch.{Launch, prepare_start}
use bitcoinx.Cmd.Flags.{Cobra, IsCobra, selected, starting, joining}
use bitcoinx.Cmd.Execute.{Platform, execute}
use bitcoinx.Cmd.Execute.Laws.{execute-inv, start-inv, join-inv}
use bitcoinx.System.Genesis.{
  IsAddressed, IsGateway, start-create_network, prepare_join-create_network,
}

module _ {W : Type 0} (host : Host W) (ipfs : Ipfs W) (running : Running W)
    {content stored : W → Text → Option Text} {image_of : ipfs.Handle → Text}
    (store : IsContentStore ipfs content stored image_of) (safe : IsRunning running content)
    (addressed : IsAddressed stored) (gateway : IsGateway ipfs stored) (platform : Platform W)
    (other : IsGateway platform.program.ipfs stored) (cobra : Cobra) (lawful : IsCobra cobra) where
  open platform use {program}
  open cobra use {Flags, resolve, get_string}

  -- When IPFS names content and gives both nodes what is stored, saving the image spares the first
  -- node's files, and files and cobra are as documented: a node that was started by an accepted line
  -- `start` whose --join is the identifier of a network which another node has created, and that has
  -- been initialised, has exactly the genesis file which the other node had when it created the network.
  pub execute-start_network :
      {content_there : W → Text → Option Text}
      → IsLawful program.host.files content_there
      → (c : Config) (p : Project) (m g cid : Text) (line args : List Text) (flags : Flags)
      → (w v v' : W) (l : Launch) → is_empty cid ≡ false
      → content w (manifest_path c) ≡ some m
      → content w (genesis_path c) ≡ some g
      → (create_network host ipfs running c p w).0 ≡ ok cid
      → resolve line ≡ selected starting args flags
      → get_string flags (lit "join") ≡ ok cid
      → (execute platform cobra line v).0 ≡ ok (some l)
      → (init program.host l.config l.project l.genesis l.edit_genesis v').0 ≡ ok tt
      → content_there
          (init program.host l.config l.project l.genesis l.edit_genesis v').1
          (genesis_path l.config)
        ≡ some g
  execute-start_network files c p m g cid line args flags w v v' l given hm hg created accepted j
        prepared done =
      let (typed, r, u, k) =
        execute-inv platform cobra lawful line starting args flags v accepted prepared in
      let (root, chain_id, edit, u', j', q) =
        start-inv platform cobra lawful flags args typed u l r k in
      start-create_network host ipfs running store safe addressed gateway program other files c p m
        g cid root (ok edit) w u' v' l given hm hg created
        (subst (λ (x : Result Text). (prepare_start program root x (ok edit) u').0 ≡ ok l)
          (sym j' ∙ j) q)
        done

  -- When IPFS names content and gives both nodes what is stored, saving the image spares the first
  -- node's files, and cobra is as documented: an accepted line `join` with the identifier of a
  -- network that another node has created, when it starts a node, starts one with that node's
  -- genesis file and with the project of which that node's manifest is the text, and does not
  -- publish.
  pub execute-join_network :
      (c : Config) (p : Project) (m g cid : Text) (line : List Text) (flags : Flags)
      → (w v : W) (l : Launch) → content w (manifest_path c) ≡ some m
      → content w (genesis_path c) ≡ some g
      → (create_network host ipfs running c p w).0 ≡ ok cid
      → resolve line ≡ selected joining (cid ∷ []) flags
      → (execute platform cobra line v).0 ≡ ok (some l)
      → (l.genesis ≡ some g)
        × (parse program.yaml m ≡ ok l.project)
        × (l.config.publish_network ≡ false)
  execute-join_network c p m g cid line flags w v l hm hg created accepted prepared =
      let (typed, r, u, k) =
        execute-inv platform cobra lawful line joining (cid ∷ []) flags v accepted prepared in
      prepare_join-create_network host ipfs running store safe addressed gateway program other c p m
        g cid w u l hm hg created (join-inv platform cobra lawful flags cid typed u l r k)
