-- ===== src/System/Memory.antt =====
-- Two nodes in memory: one has the files and links of `Discovery.Memory`, the other one has a disk,
-- and IPFS has what the first one has published.
use bitcoinx.Base.{
  Text, lit, List, [], ◌∷◌, Bool, true, false, ◌&&◌, Option, none, some, Result, ok, err, external,
  not_exist, Eff, ◌≡◌, refl, ◌∙◌, ap, sym, arith, eq_text, eq_text_iff, trim_prefix, if◌then◌else◌,
}
use bitcoinx.Files.{Files, IsLawful}
use bitcoinx.Files.Memory.{Memory, memory}
use bitcoinx.GoPath.{path_join}
use bitcoinx.GoPath.Laws.{IsName}
use bitcoinx.Discovery.Memory.{
  held_in, sandbox, sandbox_fresh, sandbox_absolute, network_path_trimmed,
}
use bitcoinx.Discovery.Network.{Ipfs, network_path}
use bitcoinx.Discovery.Network.Laws.{IsContentStore}
use bitcoinx.System.Genesis.{IsAddressed, IsGateway}

pub record World : Type 0 where
  pub links : List (Text × Text)
  pub disk : Memory

-- The links that the first node makes when it publishes its network.
abbrev pub published : List (Text × Text)
published =
    (lit "/tmp/image.tgz", lit "image")
    ∷ (lit "/tmp/genesis.json", lit "genesis")
    ∷ (lit "/tmp/chainkit.yml", lit "manifest")
    ∷ (lit "/new", lit "image")
    ∷ []

unfoldable pub eq_links : List (Text × Text) → List (Text × Text) → Bool
unfolding eq_text
eq_links [] [] = true
eq_links ((p, d) ∷ l) ((q, e) ∷ m) = eq_text p q && (eq_text d e && eq_links l m)
eq_links _ _ = false

eq_links_eq : (l m : List (Text × Text)) → eq_links l m ≡ true → l ≡ m
unfolding eq_links
eq_links_eq [] [] h = refl
eq_links_eq [] (b ∷ m) h = cc
eq_links_eq (a ∷ l) [] h = cc
eq_links_eq ((p, d) ∷ l) ((q, e) ∷ m) h =
    ground (arith, eq_text_iff p q, eq_text_iff d e, eq_links_eq l m)

abbrev pub held : World → Text → Option Text
held w q = held_in w.links q

abbrev pub held_there : World → Text → Option Text
held_there w q = w.disk q

-- A path under the identifier of the network, or nothing, if it is not published.
abbrev pub stored : World → Text → Option Text
stored w p =
    if eq_links w.links published
    then held_in published (path_join (lit "/tmp" ∷ trim_prefix p (lit "/ipfs/Qm/") ∷ []))
    else none

abbrev found : Option Text → Result Text
found none = err not_exist
found (some d) = ok d

abbrev linking : Option Text → Text → World → Result (Unit {0}) × World
linking none p' w = (err not_exist, w)
linking (some d) p' w = (ok tt, record w { links = (p', d) ∷ w.links })

abbrev unchanged : World → Result (Unit {0}) × World
unchanged w = (ok tt, w)

abbrev opened : Option Text → World → Result Text × World
opened none w = (err not_exist, w)
opened (some path) w = (found (stored w path), w)

-- The files of the first node.
abbrev files_here : Files World
files_here = record {
  read = λ p w. (found (held w p), w);
  create = λ p w. unchanged w;
  put = λ p d w. unchanged w;
  stat = λ p w. unchanged w;
  mkdir_all = λ p w. unchanged w;
  link = λ p p' w. linking (held w p) p' w;
  rename = λ p p' w. unchanged w;
}

-- A call on the other node's disk.
abbrev on_disk : {A : Type 0} → Eff Memory A → Eff World A
on_disk m w = let (r, d) = m w.disk in (r, record w { disk = d })

abbrev pub files_there : Files World
files_there = record {
  read = λ p. on_disk (memory.read p);
  create = λ p. on_disk (memory.create p);
  put = λ p d. on_disk (memory.put p d);
  stat = λ p. on_disk (memory.stat p);
  mkdir_all = λ p. on_disk (memory.mkdir_all p);
  link = λ p p'. on_disk (memory.link p p');
  rename = λ p p'. on_disk (memory.rename p p');
}

abbrev pub ipfs : Ipfs World
ipfs = record {
  Handle = Text;
  files = files_here;
  temp_dir = λ w. (sandbox w.links, w);
  serial_file = λ p w. unchanged w;
  add = λ dir w. (
    if eq_links w.links published && eq_text dir (lit "/tmp")
        then ok (lit "Qm")
        else err (external 5),
    w,
  );
  parse_path = λ p. ok p;
  get = λ p w. opened p w;
  read_all = λ h w. (ok h, w);
}

pub stored-IsAddressed : IsAddressed stored
stored-IsAddressed = record { stored-unique = unique }
  where
    unique : (p b d : Text) (w v : World) → stored w p ≡ some b → stored v p ≡ some d → b ≡ d
    unique p b d w v h k = ground arith

found_inv : (o : Option Text) (h : Text) → found o ≡ ok h → o ≡ some h
found_inv none h e = cc
found_inv (some d) h e = ground arith

pub ipfs-IsGateway : IsGateway ipfs stored
ipfs-IsGateway = record {
  parse_path-same = λ p q e. ok_inj q p e;
  read_all-stored = λ path b h w v got all.
      found_inv (stored w path) h (ap (λ (r : Result Text × World). r.0) got)
      ∙ ap (λ (t : Text). some t) (sym (ok_inj b h all));
}
  where
    ok_inj : (q p : Text) → ok p ≡ ok q → q ≡ p
    ok_inj q p e = cc

linking-held :
    (f : Option Text) (p' q : Text) (w : World)
    → (linking f p' w).0 ≡ ok tt
    → held (linking f p' w).1 q ≡ (if eq_text p' q then f else held w q)
unfolding held_in
linking-held none p' q w e = grind (arith, e)
linking-held (some d) p' q w e = refl

-- Where the files are when they can be added.
ready :
    (dir cid : Text) (w : World)
    → (ipfs.add dir w).0 ≡ ok cid
    → (w.links ≡ published) × (dir ≡ lit "/tmp") × (cid ≡ lit "Qm")
ready dir cid w e = ground (arith, eq_links_eq w.links published, eq_text_iff dir (lit "/tmp"))

added :
    (dir cid name : Text) (w : World)
    → IsName name
    → (ipfs.add dir w).0 ≡ ok cid
    → stored w (network_path ipfs cid name) ≡ held w (path_join (dir ∷ name ∷ []))
unfolding eq_links held_in
added dir cid name w h e =
    let (links, at, id) = ready dir cid w e in
    rw (links, at, id)
      (ap (λ (t : Text). held_in published (path_join (lit "/tmp" ∷ t ∷ [])))
        (network_path_trimmed name h))

pub ipfs-IsContentStore : IsContentStore ipfs held stored (λ h. h)
ipfs-IsContentStore = record {
  temp_dir-content = λ q w. refl;
  temp_dir-fresh = λ d name w h e. sandbox_fresh d name w.links h e;
  temp_dir-absolute = λ d w e. sandbox_absolute d w.links e;
  stat-content = λ p q w. refl;
  serial_file-content = λ p q w. refl;
  content-link = λ p p' q w e. linking-held (held w p) p' q w e;
  stored-add = λ dir cid name w h e. added dir cid name w h e;
  parse_path-ok = λ path bytes w e. refl;
  get-stored = λ path bytes w e. (bytes, rw e refl, refl, refl);
}

pub files_there-IsLawful : IsLawful files_there held_there
files_there-IsLawful = record {
  read-some = λ p d w h. rw h refl;
  read-none = λ p w h. rw h refl;
  content-create = λ p q w h. refl;
  content-put = λ p d q w {old} h e. rw e refl;
  content-rename = λ p p' q w {d} h e. rw e refl;
}
