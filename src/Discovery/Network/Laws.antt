-- ===== src/Discovery/Network/Laws.antt =====
-- A network that was joined is the network that was published.
use bitcoinx.Base.{
  Text, List, [], ◌∷◌, Bool, true, false, Option, none, some, Result, ok, ◌≡◌, refl, ◌∙◌, ap, sym,
  subst, >>=-ok, All, eq_text_iff, eq_text, eq_text_refl, if◌then◌else◌,
}
use bitcoinx.GoPath.{path_join}
use bitcoinx.GoPath.Laws.{IsName, absolute}
use bitcoinx.Discovery.Network.{
  Ipfs, to_option, manifest_name, genesis_name, image_name, fetch, fetch_image, join, network_path,
}

-- What the program relies on. `content` tells what a file of this host holds, and `stored` what IPFS
-- has under a path. A hard link gives a file a second name. Adding a directory stores its files
-- under its identifier, and the paths of stored files are well formed. A new temporary directory
-- is empty, and its name is an absolute path.
pub record IsContentStore {W : Type 0} (ipfs : Ipfs W) (content stored : W → Text → Option Text)
    (image_of : ipfs.Handle → Text) : Type 0 where
  pub temp_dir-content : (q : Text) (w : W) → content (ipfs.temp_dir w).1 q ≡ content w q
  pub temp_dir-fresh :
      (d : Text) (name : Text) (w : W)
      → IsName name
      → (ipfs.temp_dir w).0 ≡ ok d
      → content (ipfs.temp_dir w).1 (path_join (d ∷ name ∷ [])) ≡ none
  pub temp_dir-absolute :
      (d : Text) (w : W)
      → (ipfs.temp_dir w).0 ≡ ok d
      → (ps : List Text) × (d ≡ absolute ps) × All IsName ps
  pub stat-content : (p q : Text) (w : W) → content (ipfs.files.stat p w).1 q ≡ content w q
  pub serial_file-content : (p q : Text) (w : W) → content (ipfs.serial_file p w).1 q ≡ content w q
  pub content-link :
      (p p' q : Text) (w : W)
      → (ipfs.files.link p p' w).0 ≡ ok tt
      → content (ipfs.files.link p p' w).1 q ≡ (if eq_text p' q then content w p else content w q)
  pub stored-add :
      (dir cid name : Text) (w : W)
      → IsName name
      → (ipfs.add dir w).0 ≡ ok cid
      → stored (ipfs.add dir w).1 (network_path ipfs cid name)
        ≡ content w (path_join (dir ∷ name ∷ []))
  pub parse_path-ok :
      (path bytes : Text) (w : W) → stored w path ≡ some bytes → ipfs.parse_path path ≡ ok path
  pub get-stored :
      (path bytes : Text) (w : W)
      → stored w path ≡ some bytes
      → (h : ipfs.Handle) × (ipfs.get (some path) w ≡ (ok h, w))
        × (ipfs.read_all h w ≡ (ok bytes, w))
        × (image_of h ≡ bytes)

module _ {W : Type 0} (ipfs : Ipfs W) {content stored : W → Text → Option Text}
    {image_of : ipfs.Handle → Text} (store : IsContentStore ipfs content stored image_of) where
  fetch-stored :
      (cid name bytes : Text) (w : W)
      → stored w (network_path ipfs cid name) ≡ some bytes
      → fetch ipfs cid name w ≡ (ok bytes, w)
  unfolding fetch
  fetch-stored cid name bytes w h =
      let (f, got, all, e) = store.get-stored (network_path ipfs cid name) bytes w h in
      >>=-ok (λ w'. (ipfs.parse_path (network_path ipfs cid name), w')) _
        (ap (λ (r : Result Text). (r, w))
          (store.parse_path-ok (network_path ipfs cid name) bytes w h))
      ∙ >>=-ok (ipfs.get (some (network_path ipfs cid name))) _ got
      ∙ rw all

  -- When all three files of a network are stored under its identifier, joining it succeeds, changes
  -- nothing, and gives exactly these files.
  pub join-stored :
      (cid manifest genesis image : Text) (w : W)
      → stored w (network_path ipfs cid manifest_name) ≡ some manifest
      → stored w (network_path ipfs cid genesis_name) ≡ some genesis
      → stored w (network_path ipfs cid image_name) ≡ some image
      → (h : ipfs.Handle) × (join ipfs cid w
          ≡ (ok (record { manifest = manifest; genesis = genesis; image = h }), w))
        × (image_of h ≡ image)
  unfolding join
  join-stored cid manifest genesis image w hm hg hi =
      let (f, got, all, e) = store.get-stored (network_path ipfs cid image_name) image w hi in
      let found : fetch_image ipfs cid w ≡ (ok f, w) =
        unfold fetch_image in
        (ap (λ (r : Result Text). ipfs.get (to_option r) w)
            (store.parse_path-ok (network_path ipfs cid image_name) image w hi)
          ∙ got) in
      (
        f,
        >>=-ok (fetch ipfs cid manifest_name) _ (fetch-stored cid manifest_name manifest w hm)
            ∙ >>=-ok (fetch ipfs cid genesis_name) _ (fetch-stored cid genesis_name genesis w hg)
            ∙ >>=-ok (fetch_image ipfs cid) _ found,
        e,
      )

  module _ {p p' : Text} {w w' : W} (done : ipfs.files.link p p' w ≡ (ok tt, w')) where
    after_link : (q : Text) → content w' q ≡ (if eq_text p' q then content w p else content w q)
    after_link q =
        subst (λ (v : W). content v q ≡ (if eq_text p' q then content w p else content w q))
          (ap (λ (r : Result (Unit {0}) × W). r.1) done)
          (store.content-link p p' q w (ap (λ (r : Result (Unit {0}) × W). r.0) done))

    -- A file that held something keeps it, when the new name was free.
    pub linked : (q d : Text) → content w p' ≡ none → content w q ≡ some d → content w' q ≡ some d
    linked q d fresh held = after_link q ∙ rw (differs (eq_text p' q) refl) held
      where
        differs : (b : Bool) → eq_text p' q ≡ b → eq_text p' q ≡ false
        differs false e = e
        differs true e = absurd (clash (sym fresh ∙ ap (content w) ((eq_text_iff p' q).0 e) ∙ held))
          where
            clash : none ≡ some d → ⊥
            clash h = cc

    pub link_here : (d : Text) → content w p ≡ some d → content w' p' ≡ some d
    link_here d held = after_link p' ∙ rw (eq_text_refl p') held

    pub link_other : (q : Text) → eq_text p' q ≡ false → content w' q ≡ content w q
    link_other q ne = after_link q ∙ rw ne
