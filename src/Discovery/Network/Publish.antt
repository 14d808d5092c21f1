-- ===== src/Discovery/Network/Publish.antt =====
-- What is stored under the identifier that `Publish` returns.
use bitcoinx.Base.{
  Text, List, [], ◌∷◌, false, Option, none, some, Result, ok, ◌≡◌, refl, ◌∙◌, ap, sym, arith,
  continue-inv, >>=-ok, eq_text, subst, All,
}
use bitcoinx.GoPath.{path_join}
use bitcoinx.GoPath.Laws.{IsName, absolute, path_join-ne}
use bitcoinx.Discovery.Network.{
  Ipfs, manifest_name, genesis_name, image_name, publish, join, network_path,
}
use bitcoinx.Discovery.Network.Laws.{IsContentStore, join-stored, linked, link_here, link_other}

manifest_IsName : IsName manifest_name
unfolding eq_text
manifest_IsName = record {
  no_slash = omega arith;
  nonempty = refl;
  not_dot = refl;
  not_dot_dot = refl;
}

genesis_IsName : IsName genesis_name
unfolding eq_text
genesis_IsName = record {
  no_slash = omega arith;
  nonempty = refl;
  not_dot = refl;
  not_dot_dot = refl;
}

image_IsName : IsName image_name
unfolding eq_text
image_IsName = record {
  no_slash = omega arith;
  nonempty = refl;
  not_dot = refl;
  not_dot_dot = refl;
}

module _ {W : Type 0} (ipfs : Ipfs W) {content stored : W → Text → Option Text}
    {image_of : ipfs.Handle → Text} (store : IsContentStore ipfs content stored image_of) where
  -- The three links, into an empty directory.
  record Linked (sandbox manifest genesis image : Text) (w : W) : Type 0 where
    manifest_in : content w (path_join (sandbox ∷ manifest_name ∷ [])) ≡ some manifest
    genesis_in : content w (path_join (sandbox ∷ genesis_name ∷ [])) ≡ some genesis
    image_in : content w (path_join (sandbox ∷ image_name ∷ [])) ≡ some image

  apart :
      (sandbox a b : Text)
      → (ps : List Text) × (sandbox ≡ absolute ps) × All IsName ps
      → IsName a
      → IsName b
      → eq_text a b ≡ false
      → eq_text (path_join (sandbox ∷ a ∷ [])) (path_join (sandbox ∷ b ∷ [])) ≡ false
  apart sandbox a b (ps, e, names) ha hb ne = rw e (path_join-ne ps a b names ha hb ne)

  links :
      (sandbox mp gp ip m g i : Text) (w w1 w2 w3 : W)
      → (ps : List Text) × (sandbox ≡ absolute ps) × All IsName ps
      → ((name : Text) → IsName name → content w (path_join (sandbox ∷ name ∷ [])) ≡ none)
      → content w mp ≡ some m
      → content w gp ≡ some g
      → content w ip ≡ some i
      → ipfs.files.link mp (path_join (sandbox ∷ manifest_name ∷ [])) w ≡ (ok tt, w1)
      → ipfs.files.link gp (path_join (sandbox ∷ genesis_name ∷ [])) w1 ≡ (ok tt, w2)
      → ipfs.files.link ip (path_join (sandbox ∷ image_name ∷ [])) w2 ≡ (ok tt, w3)
      → Linked sandbox m g i w3
  links sandbox mp gp ip m g i w w1 w2 w3 abs empty hm hg hi e1 e2 e3 =
      let ab =
        apart sandbox manifest_name genesis_name abs manifest_IsName genesis_IsName
          (unfold eq_text in refl) in
      let ba =
        apart sandbox genesis_name manifest_name abs genesis_IsName manifest_IsName
          (unfold eq_text in refl) in
      let ac =
        apart sandbox manifest_name image_name abs manifest_IsName image_IsName
          (unfold eq_text in refl) in
      let ca =
        apart sandbox image_name manifest_name abs image_IsName manifest_IsName
          (unfold eq_text in refl) in
      let bc =
        apart sandbox genesis_name image_name abs genesis_IsName image_IsName
          (unfold eq_text in refl) in
      let cb =
        apart sandbox image_name genesis_name abs image_IsName genesis_IsName
          (unfold eq_text in refl) in
      let free1 = link_other ipfs store e1 _ ab ∙ empty genesis_name genesis_IsName in
      let free2 =
        link_other ipfs store e2 _ bc
        ∙ link_other ipfs store e1 _ ac
        ∙ empty image_name image_IsName in
      let g1 = linked ipfs store e1 gp g (empty manifest_name manifest_IsName) hg in
      let i2 =
        linked ipfs store e2 ip i free1
          (linked ipfs store e1 ip i (empty manifest_name manifest_IsName) hi) in
      record {
        manifest_in =
            link_other ipfs store e3 _ ca
            ∙ link_other ipfs store e2 _ ba
            ∙ link_here ipfs store e1 m hm;
        genesis_in = link_other ipfs store e3 _ cb ∙ link_here ipfs store e2 g g1;
        image_in = link_here ipfs store e3 i i2;
      }

  -- The worlds between the calls of a run of `publish` that succeeded.
  record Run (mp gp ip cid : Text) (w after : W) : Type 0 where
    sandbox : Text
    w1 : W
    w2 : W
    w3 : W
    w4 : W
    w5 : W
    w6 : W
    made : ipfs.temp_dir w ≡ (ok sandbox, w1)
    described : ipfs.files.stat sandbox w1 ≡ (ok tt, w2)
    link1 : ipfs.files.link mp (path_join (sandbox ∷ manifest_name ∷ [])) w2 ≡ (ok tt, w3)
    link2 : ipfs.files.link gp (path_join (sandbox ∷ genesis_name ∷ [])) w3 ≡ (ok tt, w4)
    link3 : ipfs.files.link ip (path_join (sandbox ∷ image_name ∷ [])) w4 ≡ (ok tt, w5)
    listed : ipfs.serial_file sandbox w5 ≡ (ok tt, w6)
    added : ipfs.add sandbox w6 ≡ (ok cid, after)

  Run-of_publish :
      (mp gp ip cid : Text) (w : W)
      → (publish ipfs mp gp ip w).0 ≡ ok cid
      → Run mp gp ip cid w (publish ipfs mp gp ip w).1
  unfolding publish
  Run-of_publish mp gp ip cid w done =
      let (sandbox, w1, e1, h1) = continue-inv (ipfs.temp_dir w) _ done in
      let (u2, w2, e2, h2) = continue-inv (ipfs.files.stat sandbox w1) _ h1 in
      let (u3, w3, e3, h3) =
        continue-inv (ipfs.files.link mp (path_join (sandbox ∷ manifest_name ∷ [])) w2) _ h2 in
      let (u4, w4, e4, h4) =
        continue-inv (ipfs.files.link gp (path_join (sandbox ∷ genesis_name ∷ [])) w3) _ h3 in
      let (u5, w5, e5, h5) =
        continue-inv (ipfs.files.link ip (path_join (sandbox ∷ image_name ∷ [])) w4) _ h4 in
      let (u6, w6, e6, h6) = continue-inv (ipfs.serial_file sandbox w5) _ h5 in
      let same : publish ipfs mp gp ip w ≡ ipfs.add sandbox w6 =
        >>=-ok (ipfs.temp_dir) _ e1
        ∙ >>=-ok (ipfs.files.stat sandbox) _ e2
        ∙ >>=-ok (ipfs.files.link mp (path_join (sandbox ∷ manifest_name ∷ []))) _ e3
        ∙ >>=-ok (ipfs.files.link gp (path_join (sandbox ∷ genesis_name ∷ []))) _ e4
        ∙ >>=-ok (ipfs.files.link ip (path_join (sandbox ∷ image_name ∷ []))) _ e5
        ∙ >>=-ok (ipfs.serial_file sandbox) _ e6 in
      record {
        sandbox = sandbox;
        w1 = w1;
        w2 = w2;
        w3 = w3;
        w4 = w4;
        w5 = w5;
        w6 = w6;
        made = e1;
        described = e2;
        link1 = e3;
        link2 = e4;
        link3 = e5;
        listed = e6;
        added = sym same ∙ ap (λ (r : Result Text). (r, (publish ipfs mp gp ip w).1)) done;
      }

  stored_after :
      (mp gp ip m g i cid : Text) (w after : W)
      → content w mp ≡ some m
      → content w gp ≡ some g
      → content w ip ≡ some i
      → Run mp gp ip cid w after
      → (stored after (network_path ipfs cid manifest_name) ≡ some m)
        × (stored after (network_path ipfs cid genesis_name) ≡ some g)
        × (stored after (network_path ipfs cid image_name) ≡ some i)
  stored_after mp gp ip m g i cid w after hm hg hi run =
      let in5 =
        links r.sandbox mp gp ip m g i r.w2 r.w3 r.w4 r.w5
          (store.temp_dir-absolute r.sandbox w (ap (λ (x : Result Text × W). x.0) r.made))
          (λ name h.
            keep2 _
            ∙ subst (λ (v : W). content v (path_join (r.sandbox ∷ name ∷ [])) ≡ none)
                (ap (λ (x : Result Text × W). x.1) r.made)
                (store.temp_dir-fresh r.sandbox name w h
                  (ap (λ (x : Result Text × W). x.0) r.made)))
          (keep2 mp ∙ keep1 mp ∙ hm) (keep2 gp ∙ keep1 gp ∙ hg) (keep2 ip ∙ keep1 ip ∙ hi) r.link1
          r.link2 r.link3 in
      (
        at manifest_name manifest_IsName ∙ keep6 _ ∙ in5.manifest_in,
        at genesis_name genesis_IsName ∙ keep6 _ ∙ in5.genesis_in,
        at image_name image_IsName ∙ keep6 _ ∙ in5.image_in,
      )
    where
      r : Run mp gp ip cid w after
      r = run

      keep1 : (q : Text) → content r.w1 q ≡ content w q
      keep1 q =
          ap (λ (x : Result Text × W). content x.1 q) (sym r.made) ∙ store.temp_dir-content q w

      keep2 : (q : Text) → content r.w2 q ≡ content r.w1 q
      keep2 q =
          ap (λ (x : Result (Unit {0}) × W). content x.1 q) (sym r.described)
          ∙ store.stat-content r.sandbox q r.w1

      keep6 : (q : Text) → content r.w6 q ≡ content r.w5 q
      keep6 q =
          ap (λ (x : Result (Unit {0}) × W). content x.1 q) (sym r.listed)
          ∙ store.serial_file-content r.sandbox q r.w5

      at :
          (name : Text)
          → IsName name
          → stored after (network_path ipfs cid name)
            ≡ content r.w6 (path_join (r.sandbox ∷ name ∷ []))
      at name h =
          ap (λ (x : Result Text × W). stored x.1 (network_path ipfs cid name)) (sym r.added)
          ∙ store.stored-add r.sandbox cid name r.w6 h (ap (λ (x : Result Text × W). x.0) r.added)

  -- With an IPFS node that stores what is added and gives what is stored, a network that was
  -- published can be joined under the identifier that was returned: joining succeeds and gives the
  -- manifest, the genesis file and the image that the three files held when they were published.
  pub join-publish :
      (mp gp ip m g i cid : Text) (w : W)
      → content w mp ≡ some m
      → content w gp ≡ some g
      → content w ip ≡ some i
      → (publish ipfs mp gp ip w).0 ≡ ok cid
      → (h : ipfs.Handle) × (join ipfs cid (publish ipfs mp gp ip w).1
          ≡ (ok (record { manifest = m; genesis = g; image = h }), (publish ipfs mp gp ip w).1))
        × (image_of h ≡ i)
  join-publish mp gp ip m g i cid w hm hg hi done =
      let (sm, sg, si) =
        stored_after mp gp ip m g i cid w _ hm hg hi (Run-of_publish mp gp ip cid w done) in
      join-stored ipfs store cid m g i (publish ipfs mp gp ip w).1 sm sg si
