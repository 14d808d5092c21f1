-- ===== src/Assets/Table.antt =====
-- templates/assets_vfsdata.go: the file system `Assets`. The bytes of its files are an argument, a
-- function of the path; all else is written out.
pub mod Laws
use bitcoinx.Base.{Text, lit, List, [], ◌∷◌}
use bitcoinx.Assets.{Asset, compressed_file_info, file_info, dir_info, stat, Fs}

module _ (bytes : Text → Text) where
  abbrev pub gitignore : Asset
  gitignore = compressed_file_info (lit ".gitignore") (bytes (lit "/.gitignore")) 220

  abbrev pub dockerfile : Asset
  dockerfile = compressed_file_info (lit "Dockerfile.tmpl") (bytes (lit "/Dockerfile.tmpl")) 1140

  abbrev pub gopkg_lock : Asset
  gopkg_lock = compressed_file_info (lit "Gopkg.lock") (bytes (lit "/Gopkg.lock")) 18602

  abbrev pub gopkg_toml : Asset
  gopkg_toml = compressed_file_info (lit "Gopkg.toml") (bytes (lit "/Gopkg.toml")) 1359

  abbrev pub app : Asset
  app = compressed_file_info (lit "app.go.tmpl") (bytes (lit "/app.go.tmpl")) 2048

  abbrev pub cli_main : Asset
  cli_main =
      compressed_file_info (lit "main.go.tmpl") (bytes (lit "/cmd/{{ .Name }}cli/main.go.tmpl"))
        1273

  abbrev pub daemon_main : Asset
  daemon_main =
      compressed_file_info (lit "main.go.tmpl") (bytes (lit "/cmd/{{ .Name }}d/main.go.tmpl")) 1519

  abbrev pub helmignore : Asset
  helmignore = compressed_file_info (lit ".helmignore") (bytes (lit "/k8s/.helmignore")) 333

  abbrev pub chart : Asset
  chart = file_info (lit "Chart.yaml") (bytes (lit "/k8s/Chart.yaml"))

  abbrev pub notes : Asset
  notes = compressed_file_info (lit "NOTES.txt") (bytes (lit "/k8s/templates/NOTES.txt")) 430

  abbrev pub helpers : Asset
  helpers =
      compressed_file_info (lit "_helpers.tpl") (bytes (lit "/k8s/templates/_helpers.tpl")) 1042

  abbrev pub configmap : Asset
  configmap =
      compressed_file_info (lit "configmap.yaml") (bytes (lit "/k8s/templates/configmap.yaml")) 385

  abbrev pub service : Asset
  service =
      compressed_file_info (lit "service.yaml") (bytes (lit "/k8s/templates/service.yaml")) 545

  abbrev pub statefulset : Asset
  statefulset =
      compressed_file_info (lit "statefulset.yml") (bytes (lit "/k8s/templates/statefulset.yml"))
        2562

  abbrev pub storageclass : Asset
  storageclass =
      compressed_file_info (lit "storageclass.yaml")
        (bytes (lit "/k8s/templates/storageclass.yaml")) 556

  abbrev pub values : Asset
  values = compressed_file_info (lit "values.yaml") (bytes (lit "/k8s/values.yaml")) 906

  abbrev pub cmd_cli : Asset
  cmd_cli = dir_info (lit "{{ .Name }}cli") (stat cli_main ∷ [])

  abbrev pub cmd_daemon : Asset
  cmd_daemon = dir_info (lit "{{ .Name }}d") (stat daemon_main ∷ [])

  abbrev pub cmd : Asset
  cmd = dir_info (lit "cmd") (stat cmd_cli ∷ stat cmd_daemon ∷ [])

  abbrev pub k8s_templates : Asset
  k8s_templates = dir_info (lit "templates") (
      stat notes
      ∷ stat helpers
      ∷ stat configmap
      ∷ stat service
      ∷ stat statefulset
      ∷ stat storageclass
      ∷ [])

  abbrev pub k8s : Asset
  k8s = dir_info (lit "k8s") (stat helmignore ∷ stat chart ∷ stat k8s_templates ∷ stat values ∷ [])

  abbrev pub root : Asset
  root = dir_info (lit "/") (
      stat gitignore
      ∷ stat dockerfile
      ∷ stat gopkg_lock
      ∷ stat gopkg_toml
      ∷ stat app
      ∷ stat cmd
      ∷ stat k8s
      ∷ [])

  unfoldable pub assets : Fs
  assets =
      (lit "/", root)
      ∷ (lit "/.gitignore", gitignore)
      ∷ (lit "/Dockerfile.tmpl", dockerfile)
      ∷ (lit "/Gopkg.lock", gopkg_lock)
      ∷ (lit "/Gopkg.toml", gopkg_toml)
      ∷ (lit "/app.go.tmpl", app)
      ∷ (lit "/cmd", cmd)
      ∷ (lit "/cmd/{{ .Name }}cli", cmd_cli)
      ∷ (lit "/cmd/{{ .Name }}cli/main.go.tmpl", cli_main)
      ∷ (lit "/cmd/{{ .Name }}d", cmd_daemon)
      ∷ (lit "/cmd/{{ .Name }}d/main.go.tmpl", daemon_main)
      ∷ (lit "/k8s", k8s)
      ∷ (lit "/k8s/.helmignore", helmignore)
      ∷ (lit "/k8s/Chart.yaml", chart)
      ∷ (lit "/k8s/templates", k8s_templates)
      ∷ (lit "/k8s/templates/NOTES.txt", notes)
      ∷ (lit "/k8s/templates/_helpers.tpl", helpers)
      ∷ (lit "/k8s/templates/configmap.yaml", configmap)
      ∷ (lit "/k8s/templates/service.yaml", service)
      ∷ (lit "/k8s/templates/statefulset.yml", statefulset)
      ∷ (lit "/k8s/templates/storageclass.yaml", storageclass)
      ∷ (lit "/k8s/values.yaml", values)
      ∷ []
