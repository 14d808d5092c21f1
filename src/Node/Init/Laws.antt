-- ===== src/Node/Init/Laws.antt =====
-- When a chain is initialised, what is tried, and which genesis file the node starts with.
use bitcoinx.Base.{Text, lit, [], ◌∷◌, Bool, Option, some, Result, ok, err, Error, has_prefix}
use bitcoinx.Base.{
  wrapped, ◌≡◌, ◌≢◌, refl, arith, ◌∙◌, ap, >>=-ok, >>=-err, continue-inv, wrapping-inv,
  eq_text_refl, not_exist,
}
use bitcoinx.Files.{IsLawful, write_file}
use bitcoinx.Files.Laws.{content-write_file}
use bitcoinx.Config.{Config, genesis_path, config_path}
use bitcoinx.Project.{Project}
use bitcoinx.Node.Update.{update_config}
use bitcoinx.Node.Update.Laws.{PrefixFree}
use bitcoinx.Node.Init.{
  Host, initialize, initialize_on, generate, recover, or_else, docker_run, init_with_moniker, init,
  node_vars, write_genesis,
}

module _ {W : Type 0} (host : Host W) where
  -- When there is a genesis file, or it cannot be looked for, nothing is done after looking for it:
  -- the world is left as that call left it, whether or not editing was asked for.
  pub initialize-found :
      (c : Config) (p : Project) (edit : Bool) (w w' : W) (found : Result (Unit {0}))
      → host.files.stat (genesis_path c) w ≡ (found, w')
      → found ≢ err not_exist
      → (initialize host c p edit w).1 ≡ w'
  unfolding initialize initialize_on
  initialize-found c p edit w w' found h ne = ground arith

  -- When both commands that could initialise the chain fail, the second one's error is the result,
  -- and nothing that follows is done.
  pub generate-failed :
      (c : Config) (p : Project) (edit : Bool) (w w1 w2 : W) {e e' : Error}
      → docker_run host c p (lit "init" ∷ []) w ≡ (err e, w1)
      → init_with_moniker host c p w1 ≡ (err e', w2)
      → generate host c p edit w ≡ (err e', w2)
  unfolding generate or_else
  generate-failed c p edit w w1 w2 first second =
      >>=-err (or_else host (docker_run host c p (lit "init" ∷ [])) (init_with_moniker host c p)) _
        (ap (λ (r : Result (Unit {0}) × W). recover r (init_with_moniker host c p)) first ∙ second)

  module _ {content : W → Text → Option Text} (lawful : IsLawful host.files content) where
    write_genesis-content :
        (c : Config) (bytes : Text) (w : W)
        → (write_genesis host c (some bytes) w).0 ≡ ok tt
        → content (write_genesis host c (some bytes) w).1 (genesis_path c) ≡ some bytes
    unfolding write_genesis
    write_genesis-content c bytes w h =
        content-write_file host.files lawful (genesis_path c) bytes (genesis_path c) w (
          wrapping-inv (lit "unable to overwrite genesis file")
            (write_file host.files (genesis_path c) bytes) w h)
        ∙ rw (eq_text_refl (genesis_path c))

    -- A node that joins a network starts with the network's genesis file: whenever `init` succeeds
    -- with a genesis given, the file holds exactly that, whatever initialisation made before.
    pub init-genesis :
        (c : Config) (p : Project) (bytes : Text) (edit : Bool) (w : W)
        → (init host c p (some bytes) edit w).0 ≡ ok tt
        → content (init host c p (some bytes) edit w).1 (genesis_path c) ≡ some bytes
    unfolding init
    init-genesis c p bytes edit w h =
        let (moniker, w1, e1, h1) =
          continue-inv (wrapped (lit "unable to determine hostname") host.hostname w) _ h in
        let (u, w2, e2, h2) =
          continue-inv (wrapped (lit "initialization failed") (initialize host c p edit) w1) _ h1 in
        let (v, w3, e3, h3) =
          continue-inv (update_config host.files (config_path c) (node_vars host moniker) w2) _
            h2 in
        let run : init host c p (some bytes) edit w ≡ write_genesis host c (some bytes) w3 =
          >>=-ok (wrapped (lit "unable to determine hostname") host.hostname) _ e1
          ∙ >>=-ok (wrapped (lit "initialization failed") (initialize host c p edit)) _ e2
          ∙ >>=-ok (update_config host.files (config_path c) (node_vars host moniker)) _ e3 in
        rw run (write_genesis-content c bytes w3 h3)

-- No key of the three variables that every start sets begins with another one, so they are set
-- independently of the order of the Go map.
pub node_vars-PrefixFree :
    {W : Type 0} (host : Host W) (moniker : Text) → PrefixFree (node_vars host moniker)
unfolding node_vars has_prefix
node_vars-PrefixFree host moniker =
    (((refl, refl), ((refl, refl), tt)), (((refl, refl), tt), (tt, tt)))
