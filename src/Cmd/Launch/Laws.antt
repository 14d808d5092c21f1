-- ===== src/Cmd/Launch/Laws.antt =====
-- With which network, configuration and genesis file the commands start a node.
use bitcoinx.Base.{
  Text, Bool, true, false, Option, none, some, Result, ok, ◌≡◌, refl, ap, sym, arith, is_empty, ◌⊎◌,
  inl, inr, Bool-cases, >>=-inv, pure, subst,
}
use bitcoinx.Files.{IsLawful}
use bitcoinx.Config.{Config, genesis_path}
use bitcoinx.Project.{Project, load}
use bitcoinx.Discovery.Network.{NetworkInfo, join}
use bitcoinx.Node.Init.{init}
use bitcoinx.Node.Init.Laws.{init-genesis}
use bitcoinx.Cmd.Env.{or_fatal}
use bitcoinx.Cmd.Env.Laws.{or_fatal_inv}
use bitcoinx.Cmd.Launch.{
  Launch, Program, flag_value, allocate, start_discovery, refuse_both, genesis_of, join_if,
  initial_config, prepare_start,
}

module _ {W : Type 0} (program : Program W) where
  -- The network that `start` was asked to join: what the node gets is what joining it returned.
  abbrev pub Joins : Text → Launch → Type 0
  Joins chain_id l =
      (n : NetworkInfo program.ipfs.Handle) × (before : W) × (after : W) × (join program.ipfs
          chain_id before
        ≡ (ok n, after))
      × (l.genesis ≡ some n.genesis)
      × (l.config.publish_network ≡ false)
      × (l.edit_genesis ≡ false)

  -- A network of its own.
  abbrev pub Founds : Launch → Type 0
  Founds l = (l.genesis ≡ none) × (l.config.publish_network ≡ true)

  -- What the last call before the start gives.
  abbrev Joined : Config → Config × Option Text → Type 0
  Joined c r =
      ((is_empty c.chain_id ≡ true) × (r ≡ (c, none)))
      ⊎ ((is_empty c.chain_id ≡ false)
          × ((n : NetworkInfo program.ipfs.Handle) × (before : W) × (after : W) × (join program.ipfs
                  c.chain_id before
                ≡ (ok n, after))
              × (r ≡ (record c { publish_network = false }, some n.genesis))))

  join_if-Joined :
      (c : Config) (w : W) (r : Config × Option Text) → (join_if program c w).0 ≡ ok r → Joined c r
  unfolding join_if
  join_if-Joined c w r h = elim (Bool-cases (is_empty c.chain_id)) [
    | inl e ↦ inl (e, same (c, none) r (rw e at h))
    | inr e ↦
        let (n, w', e1, k, _) =
          >>=-inv (join program.ipfs c.chain_id)
            (λ n. pure (record c { publish_network = false }, genesis_of program n)) w
            (rw e at h) in
        inr (e, (n, w, w', e1, same (record c { publish_network = false }, some n.genesis) r k))
  ]
    where
      same : (x y : Config × Option Text) → ok x ≡ ok y → y ≡ x
      same x y q = cc

  refuse_both-ok :
      (edit : Bool) (chain_id : Text) (w : W)
      → (refuse_both program edit chain_id w).0 ≡ ok tt
      → is_empty chain_id ≡ false
      → edit ≡ false
  unfolding refuse_both
  refuse_both-ok edit chain_id w h e = ground arith

  conclude :
      (c : Config) (p : Project) (edit : Bool) (r : Config × Option Text) (l : Launch)
      → Joined c r
      → (is_empty c.chain_id ≡ false → edit ≡ false)
      → record { config = r.0; project = p; genesis = r.1; edit_genesis = edit } ≡ l
      → c.publish_network ≡ true
      → (l.config.chain_id ≡ c.chain_id)
        × (((is_empty c.chain_id ≡ true) × Founds l)
            ⊎ ((is_empty c.chain_id ≡ false) × Joins c.chain_id l))
  conclude c p edit r l (inl (e, q)) h made own =
      (ground arith, inl (e, (ground arith, ground arith)))
  conclude c p edit r l (inr (e, (n, v, v', j, q))) h made own =
      (ground arith, inr (e, (n, v, v', j, ground arith, ground arith, ground (arith, h e))))

  -- When `start` gets as far as starting the node, it was asked either to found a network, and then
  -- publishes it and brings no genesis file, or to join one, and then the node gets the genesis file
  -- that joining returned, which is not edited, and does not publish.
  pub prepare_start-cases :
      (root chain_id : Text) (edit_flag : Result Bool) (w : W) (l : Launch)
      → (prepare_start program root (ok chain_id) edit_flag w).0 ≡ ok l
      → (l.config.chain_id ≡ chain_id)
        × (((is_empty chain_id ≡ true) × Founds l)
            ⊎ ((is_empty chain_id ≡ false) × Joins chain_id l))
  unfolding prepare_start
  prepare_start-cases root chain_id edit_flag w l done =
      let (p, w1, e1, h1, _) =
        >>=-inv (or_fatal (load program.yaml program.host.files root)) _ w done in
      let (edit, w3, e3, h3, _) = >>=-inv (or_fatal (flag_value edit_flag)) _ w1 h1 in
      let (_, w4, e4, h4, _) = >>=-inv (refuse_both program edit chain_id) _ w3 h3 in
      let (ports, w5, e5, h5, _) = >>=-inv (or_fatal (allocate program)) _ w4 h4 in
      let (_, w6, e6, h6, _) =
        >>=-inv (or_fatal (start_discovery program (initial_config program root chain_id ports))) _
          w5 h5 in
      let (r, w7, e7, h7, _) =
        >>=-inv (or_fatal (join_if program (initial_config program root chain_id ports))) _ w6 h6 in
      conclude (initial_config program root chain_id ports) p edit r l
        (join_if-Joined (initial_config program root chain_id ports) w6 r (
          ap (λ (x : Result (Config × Option Text) × W). x.0)
            (or_fatal_inv (join_if program (initial_config program root chain_id ports)) w6 w7 e7)))
        (refuse_both-ok edit chain_id w3 (ap (λ (x : Result (Unit {0}) × W). x.0) e4))
        (launched _ l h7) refl
    where
      launched : (x y : Launch) → ok x ≡ ok y → x ≡ y
      launched x y q = cc

  -- A node that was started to join a network and has been initialised has, as its genesis file, the
  -- one that joining the network returned.
  pub start-genesis :
      {content : W → Text → Option Text}
      → IsLawful program.host.files content
      → (root chain_id : Text) (edit_flag : Result Bool) (w w' : W) (l : Launch)
      → is_empty chain_id ≡ false
      → (prepare_start program root (ok chain_id) edit_flag w).0 ≡ ok l
      → (init program.host l.config l.project l.genesis l.edit_genesis w').0 ≡ ok tt
      → (n : NetworkInfo program.ipfs.Handle) × (before : W) × (after : W) × (join program.ipfs
            chain_id before
          ≡ (ok n, after))
        × (content
              (init program.host l.config l.project l.genesis l.edit_genesis w').1
              (genesis_path l.config)
            ≡ some n.genesis)
  start-genesis {content} lawful root chain_id edit_flag w w' l given prepared done =
      elim ((prepare_start-cases root chain_id edit_flag w l prepared).1) [
        | inl (e, _) ↦ absurd (ground arith)
        | inr (_, (n, before, after, joined, g, _, _)) ↦ (
          n,
          before,
          after,
          joined,
          subst
              (λ (x : Option Text).
                content (init program.host l.config l.project x l.edit_genesis w').1
                  (genesis_path l.config)
                ≡ some n.genesis)
              (sym g)
              (init-genesis program.host lawful l.config l.project n.genesis l.edit_genesis w' (
                subst
                  (λ (x : Option Text).
                    (init program.host l.config l.project x l.edit_genesis w').0 ≡ ok tt)
                  g done)),
        )
      ]
