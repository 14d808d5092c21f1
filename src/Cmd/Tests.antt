-- ===== src/Cmd/Tests.antt =====
-- Runs of the commands in memory, and the theorems on them at concrete inputs.
use bitcoinx.Base.{
  Text, lit, List, [], ◌∷◌, false, none, some, Result, ok, err, not_exist, wrap, ◌≡◌, refl, arith,
  eq_text, All, trim_prefix,
}
use bitcoinx.Files.Memory.{Memory, memory, memory-IsLawful, memory-IsFramed}
use bitcoinx.GoPath.{path_join}
use bitcoinx.GoPath.Laws.{IsName, absolute}
use bitcoinx.Project.{Binaries, manifest_file, load, parse, validate, save, cannot_find}
use bitcoinx.Httpfs.{dir, end, file, read_file}
use bitcoinx.Httpfs.Laws.{preorder}
use bitcoinx.Cmd.Env.{or_fatal, ext, trim_suffix}
use bitcoinx.Cmd.Create.{
  Tools, TemplateContext, target, templatize, extract_to, rendered, scaffold, context,
}
use bitcoinx.Cmd.Create.Laws.{Avoids, load-scaffold}
use bitcoinx.Cmd.Cli.{Shell, cli_command}
use bitcoinx.Cmd.Cli.Laws.{cli_command-exec}
use bitcoinx.Cmd.Samples.{sample, yaml, disk, idle_docker}

-- One template, whose engine puts the package in front.
abbrev tools : Tools Memory
tools = record {
  files = memory;
  yaml = yaml;
  assets = dir none none none (file (lit "app.go.tmpl") end);
  open_asset = λ src. ok (ok (lit "main"));
  parse_template = λ name input. ok (λ ctx. ok input);
  print_tree = λ p ignore w. (ok tt, w);
  docker = idle_docker;
  strip = λ s. s;
  widths = λ i. record { at_test = 80; at_bar = 80 };
  quote = λ s. s;
  gopath = lit "/go";
  home = lit "/home";
}

abbrev root : List Text
root = lit "go" ∷ lit "src" ∷ lit "x" ∷ []

root_names : All IsName root
unfolding eq_text
root_names = (
  record { no_slash = omega arith; nonempty = refl; not_dot = refl; not_dot_dot = refl },
  (
    record { no_slash = omega arith; nonempty = refl; not_dot = refl; not_dot_dot = refl },
    (record { no_slash = omega arith; nonempty = refl; not_dot = refl; not_dot_dot = refl }, tt),
  ),
)

abbrev manifest : Text
manifest = path_join (absolute root ∷ manifest_file ∷ [])

abbrev empty : Memory
empty _ = none

avoids_at :
    (path : Text) (ctx : TemplateContext) (parsed : Text)
    → eq_text (target (path_join (absolute root ∷ path ∷ []))) manifest ≡ false
    → templatize tools ctx path path ≡ ok parsed
    → eq_text (target (path_join (absolute root ∷ parsed ∷ []))) manifest ≡ false
unfolding templatize
avoids_at path ctx parsed h e = ground arith

top_apart : eq_text (target (path_join (absolute root ∷ lit "/" ∷ []))) manifest ≡ false
unfolding target ext trim_suffix trim_prefix eq_text path_join absolute
top_apart = refl

app_apart :
    eq_text
      (target (path_join (absolute root ∷ path_join (lit "/" ∷ lit "app.go.tmpl" ∷ []) ∷ [])))
      manifest
    ≡ false
unfolding target ext trim_suffix trim_prefix eq_text path_join absolute
app_apart = refl

avoids :
    All
      (Avoids tools memory-IsFramed manifest (context tools (absolute root) sample) (absolute root))
      (preorder tools.assets (lit "/"))
unfolding preorder
avoids = (
  λ parsed e. avoids_at (lit "/") _ parsed top_apart e,
  (λ parsed e. avoids_at (path_join (lit "/" ∷ lit "app.go.tmpl" ∷ [])) _ parsed app_apart e, tt),
)

load-scaffold_example :
    (load yaml memory (absolute root) (scaffold tools (absolute root) sample empty).1).0
    ≡ err (wrap cannot_find not_exist)
load-scaffold_example =
    load-scaffold tools memory-IsFramed memory-IsLawful root sample empty root_names refl avoids
      (λ w. refl)

abbrev ctx : TemplateContext
ctx = record { name = lit "x"; root_dir = lit "/go/src/x"; go_pkg = lit "x" }

abbrev extraction : Result (Unit {0}) × Memory
extraction =
    extract_to tools ctx (lit "/go/src/x") (lit "/app.go.tmpl") sample (lit "/go/src/x/app.go.tmpl")
      empty

extracted : extraction.0 ≡ ok tt
unfolding extract_to rendered save read_file templatize ext eq_text
extracted = refl

abbrev shell : Shell Memory
shell = record {
  capture = λ cmd args w. (ok (lit "abc\ndef\n"), w);
  run = λ cmd args w. (ok tt, w);
}

loaded : load yaml memory (lit "/h") disk ≡ (ok sample, disk)
unfolding load parse validate
loaded = refl

cli_command-exec_example :
    (b : Binaries) × (sample.binaries ≡ some b)
    × (cli_command shell yaml memory (lit "/h") (lit "status" ∷ []) disk
        ≡ or_fatal
            (shell.run
              (lit "docker")
              (lit "exec" ∷ lit "-it" ∷ lit "abc" ∷ b.cli ∷ lit "status" ∷ []))
            disk)
cli_command-exec_example =
    cli_command-exec yaml memory shell (lit "/h") (lit "abc") (lit "def\n") (lit "status" ∷ [])
      sample disk disk disk loaded refl (omega arith)
