-- ===== src/Project.antt =====
-- project/project.go: the manifest of a project. The YAML library is a parameter.
pub mod Laws
mod Tests
use bitcoinx.Base.{Text, lit, Option, none, some, Result, ok, err, Error, message, wrap, wrapping}
use bitcoinx.Base.{[], ◌∷◌, ◌++◌, Eff, ◌>>=◌, ◌>>◌, wrapped, is_empty, if◌then◌else◌}
use bitcoinx.Files.{Files}
use bitcoinx.GoPath.{path_join}

abbrev pub manifest_file : Text
manifest_file = lit "bitcoinx.yml"

pub record Binaries : Type 0 where
  pub cli : Text
  pub daemon : Text

-- A nil pointer is `none`.
pub record Project : Type 0 where
  pub name : Text
  pub image : Text
  pub binaries : Option Binaries

-- `yaml.Marshal` of a project, and `Decode` of a manifest into an empty one.
pub record Yaml : Type 0 where
  pub marshal : Project → Result Text
  pub decode : Text → Result Project

unfoldable pub new : Text → Project
new name = record {
  name = lit "bitcoinx";
  image = lit "bitcoinx-" ++ name;
  binaries =
      some (record { cli = lit "bitcoinx" ++ lit "cli"; daemon = lit " bitcoinx" ++ lit "d" });
}

-- The closure `errorOut`; `%q` of a field's name puts it in quotes.
abbrev pub error_out : Text → Error
error_out field = message (lit "missing required field \"" ++ (field ++ lit "\""))

validate_binaries : Option Binaries → Result (Unit {0})
validate_binaries none = err (error_out (lit "binaries"))
validate_binaries (some b) =
    if is_empty b.cli
    then err (error_out (lit "binaries.cli"))
    else if is_empty b.daemon
    then err (error_out (lit "binaries.daemon"))
    else ok tt

unfoldable pub validate : Project → Result (Unit {0})
unfolding validate_binaries
validate p =
    if is_empty p.name
    then err (error_out (lit "name"))
    else if is_empty p.image
    then err (error_out (lit "image"))
    else validate_binaries p.binaries

abbrev pub cannot_read : Text
cannot_read = lit "Cannot read manifest \"bitcoinx.yml\""

abbrev pub failed_validation : Text
failed_validation = manifest_file ++ lit " validation"

abbrev pub cannot_find : Text
cannot_find = lit "Cannot find manifest (is it a bitcoinx project?)"

checked : Project → Result (Unit {0}) → Result Project
checked p (ok _) = ok p
checked p (err e) = err (wrap failed_validation e)

module _ (yaml : Yaml) where
  unfoldable pub parse : Text → Result Project
  unfolding checked
  parse manifest = elim (yaml.decode manifest) [
    | ok p ↦ checked p (validate p)
    | err e ↦ err (wrap cannot_read e)
  ]

  module _ {W : Type 0} (fs : Files W) where
    -- The file is created only if the project could be marshalled.
    unfoldable pub save : Project → Text → Eff W (Unit {0})
    save p path w = elim (yaml.marshal p) [
      | ok bytes ↦ (do fs.create path; fs.put path bytes) w
      | err e ↦ (err e, w)
    ]

    unfoldable pub load : Text → Eff W Project
    load dir w =
        let (manifest, w') =
          wrapped cannot_find (fs.read (path_join (dir ∷ manifest_file ∷ []))) w in
        elim manifest [ ok bytes ↦ (parse bytes, w') | err e ↦ (err e, w') ]
