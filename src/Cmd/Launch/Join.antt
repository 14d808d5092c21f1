-- ===== src/Cmd/Launch/Join.antt =====
-- With which project and genesis file the command `join` starts a node.
use bitcoinx.Base.{Text, false, some, Result, ok, ◌≡◌, refl, ap, >>=-inv, ◌∙◌}
use bitcoinx.Config.{Config, manifest_path}
use bitcoinx.Project.{Project, parse}
use bitcoinx.Discovery.Network.{NetworkInfo, join, write_manifest}
use bitcoinx.Cmd.Env.{or_fatal}
use bitcoinx.Cmd.Env.Laws.{or_fatal_inv}
use bitcoinx.Cmd.Launch.{
  Launch, Program, allocate, start_discovery, joined_config, parsed, prepare_join,
}

module _ {W : Type 0} (program : Program W) where
  -- The node gets the genesis file that joining the network returned, and the project of which the
  -- manifest that it returned is the text; it does not publish, and nothing is edited.
  abbrev pub Starts : Text → Launch → Type 0
  Starts chain_id l =
      (n : NetworkInfo program.ipfs.Handle) × (before : W) × (after : W) × (join program.ipfs
          chain_id before
        ≡ (ok n, after))
      × (l.genesis ≡ some n.genesis)
      × (parse program.yaml n.manifest ≡ ok l.project)
      × (l.config.publish_network ≡ false)
      × (l.edit_genesis ≡ false)

  starts :
      (chain_id : Text) (c : Config) (p : Project) (n : NetworkInfo program.ipfs.Handle) (w w' : W)
      → (l : Launch) → join program.ipfs chain_id w ≡ (ok n, w')
      → parse program.yaml n.manifest ≡ ok p
      → c.publish_network ≡ false
      → ok (record { config = c; project = p; genesis = some n.genesis; edit_genesis = false })
        ≡ ok l
      → Starts chain_id l
  starts chain_id c p n w w' l joined read own made = (n, w, w', joined, cc, read ∙ cc, cc, cc)

  -- When `join` gets as far as starting the node, it has joined the network, and starts the node with
  -- the genesis file and the project that the network's files give.
  pub prepare_join-Starts :
      (chain_id : Text) (w : W) (l : Launch)
      → (prepare_join program chain_id w).0 ≡ ok l
      → Starts chain_id l
  unfolding prepare_join
  prepare_join-Starts chain_id w l done =
      let (ports, w1, e1, h1, _) = >>=-inv (or_fatal (allocate program)) _ w done in
      let (_, w2, e2, h2, _) =
        >>=-inv (or_fatal (start_discovery program (joined_config program chain_id ports))) _ w1
          h1 in
      let (n, w3, e3, h3, _) = >>=-inv (or_fatal (join program.ipfs chain_id)) _ w2 h2 in
      let (_, w4, e4, h4, _) =
        >>=-inv
          (or_fatal (
            write_manifest program.host.files n
              (manifest_path (joined_config program chain_id ports))))
          _ w3 h3 in
      let (p, w5, e5, h5, _) = >>=-inv (or_fatal (parsed program n.manifest)) _ w4 h4 in
      starts chain_id (joined_config program chain_id ports) p n w2 w3 l
        (or_fatal_inv (join program.ipfs chain_id) w2 w3 e3)
        (ap (λ (r : Result Project × W). r.0) (or_fatal_inv (parsed program n.manifest) w4 w5 e5))
        refl h5
