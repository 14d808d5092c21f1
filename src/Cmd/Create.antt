-- ===== src/Cmd/Create.antt =====
-- cmd/create.go: the files of a new application are made from the templates, and its image is built.
pub mod Laws
pub mod Names
pub mod Templates
pub mod Contents
mod Tests
use bitcoinx.Base.{
  ℕ, Text, lit, List, [], ◌∷◌, ◌++◌, Bool, true, false, if◌then◌else◌, eq_text, Option, none, some,
  Result, ok, err, Error, message, is_not_exist, Eff, ◌>>=◌, ◌>>◌, pure, fail, wrapped, has_prefix,
  trim_prefix,
}
use bitcoinx.Files.{Files, write_file}
use bitcoinx.GoPath.{path_join}
use bitcoinx.Project.{Project, Yaml, save, new}
use bitcoinx.Httpfs.{Dir, WalkFunc, walk, read_file}
use bitcoinx.Builder.Parser.{BuildOpts, Parser, Widths}
use bitcoinx.Builder.Build
use bitcoinx.Builder.Build.{DockerBuild, Builder, build}
use bitcoinx.Cmd.Env.{or_fatal, ext, trim_suffix, go_path, go_src}

pub record TemplateContext : Type 0 where
  pub name : Text
  pub root_dir : Text
  pub go_pkg : Text

-- What the command calls: the files, the YAML library, the templates with what opening and reading
-- one of them returns, `template.Parse` with the template's `Execute`, the printing of the tree, what
-- a build of an image needs, the quoting of `%q`, and the variables GOPATH and HOME.
pub record Tools (W : Type 0) : Type 0 where
  pub files : Files W
  pub yaml : Yaml
  pub assets : Dir
  pub open_asset : Text → Result (Result Text)
  pub parse_template : Text → Text → Result (TemplateContext → Result Text)
  pub print_tree : Text → List Text → Eff W (Unit {0})
  pub docker : DockerBuild W
  pub strip : Text → Text
  pub widths : ℕ → Widths
  pub quote : Text → Text
  pub gopath : Text
  pub home : Text

abbrev pub dot_tmpl : Text
dot_tmpl = lit ".tmpl"

-- The file that a template is written to.
unfoldable pub target : Text → Text
target dst = if eq_text (ext dst) dot_tmpl then trim_suffix dst dot_tmpl else dst

module _ {W : Type 0} (tools : Tools W) where
  open tools use {
    files, yaml, assets, open_asset, parse_template, print_tree, docker, strip, widths, quote,
    gopath, home,
  }

  unfoldable pub templatize : TemplateContext → Text → Text → Result Text
  templatize ctx name input = elim (parse_template name input) [
    | ok execute ↦ execute ctx
    | err e ↦ err e
  ]

  abbrev pub templatized : TemplateContext → Text → Text → Eff W Text
  templatized ctx name input w = (templatize ctx name input, w)

  -- The bytes that are written for a template.
  unfoldable pub rendered : TemplateContext → Text → Text → Eff W Text
  rendered ctx dst bytes =
      if eq_text (ext dst) dot_tmpl
      then wrapped (lit "unable to templetaize") (templatized ctx dst bytes)
      else pure bytes

  abbrev pub asset : Text → Eff W Text
  asset src w = (read_file (open_asset src), w)

  -- A file, at its place.
  unfoldable pub extract_to : TemplateContext → Text → Text → Project → Text → Eff W (Unit {0})
  extract_to ctx root src p dst = do
    wrapped (lit "Failed to create chainkit.yml")
        (save yaml files p (path_join (root ∷ lit "chainkit.yml" ∷ [])))
    bytes ← wrapped (lit "unable to read template file") (asset src)
    out ← rendered ctx dst bytes
    wrapped (lit "unable to write to destination") (write_file files (target dst) out)

  -- What is made at the destination.
  unfoldable pub place : TemplateContext → Text → Text → Project → Bool → Text → Eff W (Unit {0})
  place ctx root src p true dst = files.mkdir_all dst
  place ctx root src p false dst = extract_to ctx root src p dst

  unfoldable pub extract_file : TemplateContext → Text → Text → Project → Bool → Eff W (Unit {0})
  extract_file ctx root src p is_dir = do
    parsed ← templatized ctx src src
    place ctx root src p is_dir (path_join (root ∷ parsed ∷ []))

  -- The function that is given to the walk.
  unfoldable pub extract_visit : TemplateContext → Text → Project → WalkFunc W
  extract_visit ctx root p path is_dir (some e) = fail e
  extract_visit ctx root p path is_dir none = extract_file ctx root path p is_dir

  unfoldable pub extract_files : TemplateContext → Text → Project → Eff W (Unit {0})
  extract_files ctx root p = walk (extract_visit ctx root p) assets (lit "/")

  abbrev pub outside : Error
  outside = message (
      lit "you must run this command within your GOPATH ("
      ++ (quote (go_path gopath home) ++ lit ")"))

  abbrev pub already_exists : Text → Error
  already_exists root = message (lit "destination path " ++ (quote root ++ lit " already exists"))

  unfoldable pub go_pkg_of : Text → Text
  go_pkg_of root = trim_prefix root (go_src gopath home ++ lit "/")

  abbrev pub context : Text → Project → TemplateContext
  context root p = record { name = p.name; root_dir = root; go_pkg = go_pkg_of root }

  -- On the result of `os.Stat` of the destination.
  unfoldable pub scaffold_on : Text → Project → Result (Unit {0}) → Eff W (Unit {0})
  scaffold_on root p (ok u) w = (err (already_exists root), w)
  scaffold_on root p (err e) w =
      let made = (extract_files (context root p) root p >> print_tree root (lit "k8s" ∷ [])) w in
      if is_not_exist e then made else (err (already_exists root), w)

  unfoldable pub scaffold : Text → Project → Eff W (Unit {0})
  scaffold root p w =
      let (found, w') = files.stat root w in
      let rest = scaffold_on root p found w' in
      if has_prefix root (go_src gopath home) then rest else (err outside, w)

  unfoldable pub create : Text → Project → Eff W (Unit {0})
  create root p = do
    or_fatal (scaffold root p)
    or_fatal (
        build docker strip widths (Build.new root p.image)
          (record { verbose = false; no_cache = false }))

  -- `Run` of the command, in the directory `cwd`.
  unfoldable pub create_command : Text → Text → Eff W (Unit {0})
  create_command cwd name = create (path_join (cwd ∷ name ∷ [])) (new name)
