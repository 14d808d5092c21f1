-- ===== src/Discovery/Memory.antt =====
-- A content store in memory, for runs that publish and join networks.
use bitcoinx.Base.{true, external, not, ◌&&◌, has_prefix, has_prefix-append, eq_text_iff, Bool}
use bitcoinx.Base.{
  Text, lit, List, [], ◌∷◌, ◌++◌, Option, none, some, Result, ok, err, external, not_exist, All,
  ◌≡◌, refl, ◌∙◌, ap, arith, eq_text, trim_prefix, trim_prefix-append, if◌then◌else◌,
}
use bitcoinx.GoPath.{path_join}
use bitcoinx.GoPath.Laws.{IsName, absolute, path_join-absolute}
use bitcoinx.Discovery.Network.{Ipfs, network_path}
use bitcoinx.Discovery.Network.Laws.{IsContentStore}

-- The hard links made so far, and what IPFS has.
pub record World : Type 0 where
  pub links : List (Text × Text)
  pub stored : Text → Option Text

-- The files of the host, before any link.
abbrev pub initial_files : Text → Option Text
initial_files q =
    if eq_text (lit "/m") q
    then some (lit "manifest")
    else if eq_text (lit "/g") q
    then some (lit "genesis")
    else if eq_text (lit "/i") q
    then some (lit "image")
    else if eq_text (lit "/home/chainkit.yml") q
    then some (lit "manifest")
    else if eq_text (lit "/home/state/config/genesis.json") q
    then some (lit "genesis")
    else none

unfoldable pub held_in : List (Text × Text) → Text → Option Text
held_in [] q = initial_files q
held_in ((p, d) ∷ links) q = let rest = held_in links q in if eq_text p q then some d else rest

abbrev pub held : World → Text → Option Text
held w q = held_in w.links q

abbrev pub in_store : World → Text → Option Text
in_store w p = w.stored p

abbrev found : Option Text → Result Text
found none = err not_exist
found (some d) = ok d

abbrev linking : Option Text → Text → World → Result (Unit {0}) × World
linking none p' w = (err not_exist, w)
linking (some d) p' w = (ok tt, record w { links = (p', d) ∷ w.links })

-- No link was made into the temporary directory.
is_clear : List (Text × Text) → Bool
is_clear [] = true
is_clear ((p, d) ∷ links) = not (has_prefix p (lit "/tmp/")) && is_clear links

unfoldable pub sandbox : List (Text × Text) → Result Text
unfolding is_clear
sandbox links = if is_clear links then ok (lit "/tmp") else err (external 17)

abbrev unchanged : World → Result (Unit {0}) × World
unchanged w = (ok tt, w)

abbrev opened : Option Text → World → Result Text × World
opened none w = (err not_exist, w)
opened (some path) w = (found (w.stored path), w)

abbrev pub ipfs : Ipfs World
ipfs = record {
  Handle = Text;
  files = record {
    read = λ p w. (found (held w p), w);
    create = λ p w. unchanged w;
    put = λ p d w. unchanged w;
    stat = λ p w. unchanged w;
    mkdir_all = λ p w. unchanged w;
    link = λ p p' w. linking (held w p) p' w;
    rename = λ p p' w. unchanged w;
  };
  temp_dir = λ w. (sandbox w.links, w);
  serial_file = λ p w. unchanged w;
  add = λ dir w. (
    ok (lit "Qm"),
    record w { stored = λ p. held w (path_join (dir ∷ trim_prefix p (lit "/ipfs/Qm/") ∷ [])) },
  );
  parse_path = λ p. ok p;
  get = λ p w. opened p w;
  read_all = λ h w. (ok h, w);
}

tmp_IsName : IsName (lit "tmp")
unfolding eq_text
tmp_IsName = record { no_slash = omega arith; nonempty = refl; not_dot = refl; not_dot_dot = refl }

ipfs_IsName : IsName (lit "ipfs")
unfolding eq_text
ipfs_IsName = record { no_slash = omega arith; nonempty = refl; not_dot = refl; not_dot_dot = refl }

cid_IsName : IsName (lit "Qm")
unfolding eq_text
cid_IsName = record { no_slash = omega arith; nonempty = refl; not_dot = refl; not_dot_dot = refl }

-- A name in the temporary directory is none of the three files.
fresh_name : (name : Text) → IsName name → initial_files (path_join (lit "/tmp" ∷ name ∷ [])) ≡ none
unfolding absolute eq_text
fresh_name name h =
    ap initial_files (path_join-absolute (lit "tmp" ∷ []) name [] (tmp_IsName, tt) (h, tt))

fresh_in :
    (name : Text) (links : List (Text × Text))
    → IsName name
    → is_clear links ≡ true
    → held_in links (path_join (lit "/tmp" ∷ name ∷ [])) ≡ none
unfolding held_in is_clear absolute
fresh_in name [] h e = fresh_name name h
fresh_in name ((p, d) ∷ links) h e =
    let at : path_join (lit "/tmp" ∷ name ∷ []) ≡ lit "/tmp/" ++ name =
      path_join-absolute (lit "tmp" ∷ []) name [] (tmp_IsName, tt) (h, tt) in
    ground (
      arith,
      at,
      fresh_in name links h,
      eq_text_iff p (path_join (lit "/tmp" ∷ name ∷ [])),
      has_prefix-append (lit "/tmp/") name,
    )

pub sandbox_fresh :
    (d name : Text) (links : List (Text × Text))
    → IsName name
    → sandbox links ≡ ok d
    → held_in links (path_join (d ∷ name ∷ [])) ≡ none
unfolding sandbox
sandbox_fresh d name links h e = ground (arith, fresh_in name links h)

pub sandbox_absolute :
    (d : Text) (links : List (Text × Text))
    → sandbox links ≡ ok d
    → (ps : List Text) × (d ≡ absolute ps) × All IsName ps
unfolding absolute sandbox
sandbox_absolute d links e = (lit "tmp" ∷ [], ground arith, (tmp_IsName, tt))

linking-held :
    (f : Option Text) (p' q : Text) (w : World)
    → (linking f p' w).0 ≡ ok tt
    → held (linking f p' w).1 q ≡ (if eq_text p' q then f else held w q)
unfolding held_in
linking-held none p' q w e = grind (arith, e)
linking-held (some d) p' q w e = refl

pub network_path_trimmed :
    (name : Text)
    → IsName name
    → trim_prefix (network_path ipfs (lit "Qm") name) (lit "/ipfs/Qm/") ≡ name
unfolding absolute
network_path_trimmed name h =
    ap (λ (p : Text). trim_prefix p (lit "/ipfs/Qm/"))
      (path_join-absolute (lit "ipfs" ∷ []) (lit "Qm") (name ∷ []) (ipfs_IsName, tt)
        (cid_IsName, (h, tt)))
    ∙ trim_prefix-append (lit "/ipfs/Qm/") name

added :
    (dir cid name : Text) (w : World)
    → IsName name
    → ok (lit "Qm") ≡ ok cid
    → held w (path_join (dir ∷ trim_prefix (network_path ipfs cid name) (lit "/ipfs/Qm/") ∷ []))
      ≡ held w (path_join (dir ∷ name ∷ []))
added dir cid name w h e =
    ap (λ (t : Text). held w (path_join (dir ∷ t ∷ [])))
      (ap (λ (c : Text). trim_prefix (network_path ipfs c name) (lit "/ipfs/Qm/")) same
        ∙ network_path_trimmed name h)
  where
    same : cid ≡ lit "Qm"
    same = cc

pub ipfs-IsContentStore : IsContentStore ipfs held in_store (λ h. h)
ipfs-IsContentStore = record {
  temp_dir-content = λ q w. refl;
  temp_dir-fresh = λ d name w h e. sandbox_fresh d name w.links h e;
  temp_dir-absolute = λ d w e. sandbox_absolute d w.links e;
  stat-content = λ p q w. refl;
  serial_file-content = λ p q w. refl;
  content-link = λ p p' q w e. linking-held (held w p) p' q w e;
  stored-add = λ dir cid name w h e. added dir cid name w h e;
  parse_path-ok = λ path bytes w e. refl;
  get-stored = λ path bytes w e. (bytes, rw e refl, refl, refl);
}
