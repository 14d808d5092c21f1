-- ===== src/Discovery/Network.antt =====
-- discovery/discovery.go, `Publish` and `Join`: the three files of a network are published under one
-- content identifier, by which other nodes fetch them. IPFS is a parameter.
pub mod Laws
pub mod Publish
use bitcoinx.Base.{
  Text, lit, List, [], ◌∷◌, ◌++◌, Bool, true, false, Option, none, some, Result, ok, err, Error,
  wrap, Eff, ◌>>=◌, ◌>>◌, pure, fail, wrapped,
}
use bitcoinx.Files.{Files, write_file}
use bitcoinx.GoPath.{path_join}

-- `temp_dir` is `ioutil.TempDir`; `serial_file` and `add` make a file tree of a directory and add it,
-- with the content identifier as the result; `parse_path` checks a path, `get` opens what it names,
-- `read_all` reads a file that `get` returned. A nil path is `none`.
pub record Ipfs (W : Type 0) : Type 1 where
  pub Handle : Type 0
  pub files : Files W
  pub temp_dir : Eff W Text
  pub serial_file : Text → Eff W (Unit {0})
  pub add : Text → Eff W Text
  pub parse_path : Text → Result Text
  pub get : Option Text → Eff W Handle
  pub read_all : Handle → Eff W Text

abbrev pub manifest_name : Text
manifest_name = lit "chainkit.yml"

abbrev pub genesis_name : Text
genesis_name = lit "genesis.json"

abbrev pub image_name : Text
image_name = lit "image.tgz"

pub record NetworkInfo (H : Type 0) : Type 0 where
  pub manifest : Text
  pub genesis : Text
  pub image : H

abbrev pub to_option : Result Text → Option Text
to_option (ok p) = some p
to_option (err e) = none

module _ {W : Type 0} (ipfs : Ipfs W) where
  open ipfs use {Handle, files, temp_dir, serial_file, add, parse_path, get, read_all}

  unfoldable pub publish : Text → Text → Text → Eff W Text
  publish manifest genesis image = do
    sandbox ← temp_dir
    files.stat sandbox
    files.link manifest (path_join (sandbox ∷ manifest_name ∷ []))
    files.link genesis (path_join (sandbox ∷ genesis_name ∷ []))
    files.link image (path_join (sandbox ∷ image_name ∷ []))
    serial_file sandbox
    add sandbox

  abbrev pub network_path : Text → Text → Text
  network_path chain_id name = path_join (lit "/ipfs" ∷ chain_id ∷ name ∷ [])

  abbrev parsed : Text → Eff W Text
  parsed path w = (parse_path path, w)

  abbrev pub cannot_read : Text
  cannot_read = lit "unable to read genesis file"

  -- Get and read one of the files.
  unfoldable pub fetch : Text → Text → Eff W Text
  fetch chain_id name = do
    path ← parsed (network_path chain_id name)
    file ← get (some path)
    wrapped cannot_read (read_all file)

  -- The error of parsing the image's path is overwritten by that of getting it.
  unfoldable pub fetch_image : Text → Eff W Handle
  fetch_image chain_id = get (to_option (parse_path (network_path chain_id image_name)))

  unfoldable pub join : Text → Eff W (NetworkInfo Handle)
  join chain_id = do
    manifest ← fetch chain_id manifest_name
    genesis ← fetch chain_id genesis_name
    image ← fetch_image chain_id
    pure (record { manifest = manifest; genesis = genesis; image = image })

-- `WriteManifest`
unfoldable pub write_manifest : {W H : Type 0} → Files W → NetworkInfo H → Text → Eff W (Unit {0})
write_manifest files n dst =
    wrapped (lit "unable to write manifest file") (write_file files dst n.manifest)
