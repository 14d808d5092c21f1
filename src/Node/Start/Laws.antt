-- ===== src/Node/Start/Laws.antt =====
-- A network that a node creates when it starts can be joined by others.
use bitcoinx.Base.{
  Text, lit, List, [], ◌∷◌, false, Option, some, Result, ok, Eff, wrapped, ◌≡◌, ◌∙◌, ap, sym, subst,
  eq_text, continue-inv, wrapping-inv, >>=-ok,
}
use bitcoinx.Config.{Config, manifest_path, genesis_path}
use bitcoinx.Project.{Project}
use bitcoinx.Discovery.Network.{Ipfs, publish, join}
use bitcoinx.Discovery.Network.Laws.{IsContentStore}
use bitcoinx.Discovery.Network.Publish.{join-publish}
use bitcoinx.Node.Init.{Host}
use bitcoinx.Node.Start.{Running, create_network}

-- What the node relies on: a temporary file is a new one, making it leaves all others as they are,
-- and a command whose output goes to a file changes no other file that there was.
pub record IsRunning {W : Type 0} (running : Running W) (content : W → Text → Option Text)
    : Type 0 where
  pub temp_file-content :
      (q d : Text) (w : W) → content w q ≡ some d → content (running.temp_file w).1 q ≡ some d
  pub temp_file-new :
      (f q d : Text) (w : W)
      → (running.temp_file w).0 ≡ ok f
      → content w q ≡ some d
      → eq_text f q ≡ false
  pub run_into-content :
      (f cmd q d : Text) (args : List Text) (w : W)
      → eq_text f q ≡ false
      → content w q ≡ some d
      → content (running.run_into f cmd args w).1 q ≡ some d
  pub run_into-output :
      (f cmd : Text) (args : List Text) (w : W)
      → (running.run_into f cmd args w).0 ≡ ok tt
      → (d : Text) × (content (running.run_into f cmd args w).1 f ≡ some d)

-- A call that succeeded with its error wrapped.
wrapped-ok :
    {W A : Type 0} (text : Text) (m : Eff W A) (w w' : W) {a : A}
    → wrapped text m w ≡ (ok a, w')
    → m w ≡ (ok a, w')
wrapped-ok {W} {A} text m w w' {a} h =
    ap (λ (r : Result A). (r, (m w).1)) (wrapping-inv text m w (ap (λ (r : Result A × W). r.0) h))
    ∙ ap (λ (v : W). (ok a, v)) (ap (λ (r : Result A × W). r.1) h)

module _ {W : Type 0} (host : Host W) (ipfs : Ipfs W) (running : Running W)
    {content stored : W → Text → Option Text} {image_of : ipfs.Handle → Text}
    (store : IsContentStore ipfs content stored image_of) (safe : IsRunning running content) where
  -- The worlds between the calls of a run of `create_network` that succeeded.
  record Created (c : Config) (p : Project) (cid : Text) (w after : W) : Type 0 where
    f : Text
    w1 : W
    w2 : W
    made : running.temp_file w ≡ (ok f, w1)
    saved : running.run_into f (lit "docker") (lit "save" ∷ p.image ∷ []) w1 ≡ (ok tt, w2)
    published : publish ipfs (manifest_path c) (genesis_path c) f w2 ≡ (ok cid, after)

  create_network-Created :
      (c : Config) (p : Project) (cid : Text) (w : W)
      → (create_network host ipfs running c p w).0 ≡ ok cid
      → Created c p cid w (create_network host ipfs running c p w).1
  unfolding create_network
  create_network-Created c p cid w done =
      let (f, w1, e1, h1) =
        continue-inv (wrapped (lit "unable to create temporary file") running.temp_file w) _ done in
      let (u, w2, e2, h2) =
        continue-inv
          (wrapped (lit "unable to save image")
            (running.run_into f (lit "docker") (lit "save" ∷ p.image ∷ [])) w1)
          _ h1 in
      let last =
        wrapped (lit "unable to create network")
          (publish ipfs (manifest_path c) (genesis_path c) f) in
      let same : create_network host ipfs running c p w ≡ last w2 =
        >>=-ok (wrapped (lit "unable to create temporary file") running.temp_file) _ e1
        ∙ >>=-ok
            (wrapped (lit "unable to save image")
              (running.run_into f (lit "docker") (lit "save" ∷ p.image ∷ [])))
            _ e2 in
      record {
        f = f;
        w1 = w1;
        w2 = w2;
        made = wrapped-ok _ running.temp_file w w1 e1;
        saved =
            wrapped-ok _ (running.run_into f (lit "docker") (lit "save" ∷ p.image ∷ [])) w1 w2 e2;
        published = wrapped-ok _ (publish ipfs (manifest_path c) (genesis_path c) f) w2 _ (
            sym same
            ∙ ap (λ (r : Result Text). (r, (create_network host ipfs running c p w).1)) done);
      }

  -- A file that the node had before is still there when the network is published.
  Created-keeps :
      (c : Config) (p : Project) (cid q d : Text) (w after : W)
      → (r : Created c p cid w after) → content w q ≡ some d
      → content r.w2 q ≡ some d
  Created-keeps c p cid q d w after r h =
      let made = ap (λ (x : Result Text × W). x.0) r.made in
      let kept =
        subst (λ (v : W). content v q ≡ some d) (ap (λ (x : Result Text × W). x.1) r.made)
          (safe.temp_file-content q d w h) in
      subst (λ (v : W). content v q ≡ some d) (ap (λ (x : Result (Unit {0}) × W). x.1) r.saved)
        (safe.run_into-content r.f (lit "docker") q d (lit "save" ∷ p.image ∷ []) r.w1
          (safe.temp_file-new r.f q d w made h) kept)

  -- When a node has created its network, whoever joins the network under the identifier gets the
  -- manifest and the genesis file that the node had before, and an image.
  pub create_network-join :
      (c : Config) (p : Project) (m g cid : Text) (w : W)
      → content w (manifest_path c) ≡ some m
      → content w (genesis_path c) ≡ some g
      → (create_network host ipfs running c p w).0 ≡ ok cid
      → (h : ipfs.Handle) × (join ipfs cid (create_network host ipfs running c p w).1 ≡ (
        ok (record { manifest = m; genesis = g; image = h }),
        (create_network host ipfs running c p w).1,
      ))
  create_network-join c p m g cid w hm hg done =
      let r = create_network-Created c p cid w done in
      let (i, output) =
        safe.run_into-output r.f (lit "docker") (lit "save" ∷ p.image ∷ []) r.w1
          (ap (λ (x : Result (Unit {0}) × W). x.0) r.saved) in
      let image =
        subst (λ (v : W). content v r.f ≡ some i) (ap (λ (x : Result (Unit {0}) × W). x.1) r.saved)
          output in
      let (h, joined, held) =
        join-publish ipfs store (manifest_path c) (genesis_path c) r.f m g i cid r.w2
          (Created-keeps c p cid (manifest_path c) m w _ r hm)
          (Created-keeps c p cid (genesis_path c) g w _ r hg) image
          (ap (λ (x : Result Text × W). x.0) r.published) in
      (
        h,
        subst
            (λ (v : W). join ipfs cid v ≡ (ok (record { manifest = m; genesis = g; image = h }), v))
            (ap (λ (x : Result Text × W). x.1) r.published) joined,
      )
