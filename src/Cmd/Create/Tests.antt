-- ===== src/Cmd/Create/Tests.antt =====
-- An application made in memory from the templates in the program.
use bitcoinx.Base.{
  Text, lit, [], ◌∷◌, false, none, ok, ◌≡◌, refl, subst, eq_text, map, take, has_prefix,
}
use bitcoinx.Files.Memory.{Memory, memory, memory-IsLawful, memory-IsFramed}
use bitcoinx.GoPath.{path_join}
use bitcoinx.Project.{save}
use bitcoinx.Httpfs.{walk, read_file}
use bitcoinx.Assets.{open_path, open_asset, lookup, stat}
use bitcoinx.Assets.Folder.{readdir, count_of}
use bitcoinx.Assets.Memory.{readers}
use bitcoinx.Assets.Table.{assets}
use bitcoinx.Assets.Table.Laws.{path_of}
use bitcoinx.Assets.Tree.{dir_at, entries_of}
use bitcoinx.Cmd.Env.{go_src, go_path, ext, trim_suffix}
use bitcoinx.Cmd.Create.{
  Tools, target, templatize, extract_to, rendered, scaffold, scaffold_on, extract_files,
  extract_visit, extract_file, place, context,
}
use bitcoinx.Cmd.Create.Contents.{Holds, made_at, scaffold-Holds}
use bitcoinx.Cmd.Samples.{sample, yaml, idle_docker}

abbrev no_bytes : Text → Text
no_bytes path = []

abbrev tools : Tools Memory
tools = record {
  files = memory;
  yaml = yaml;
  assets = dir_at readers (assets no_bytes) 4 (lit "/");
  open_asset = λ src. ok (ok src);
  parse_template = λ name input. ok (λ ctx. ok input);
  print_tree = λ p ignore w. (ok tt, w);
  docker = idle_docker;
  strip = λ s. s;
  widths = λ i. record { at_test = 80; at_bar = 80 };
  quote = λ s. s;
  gopath = lit "/go";
  home = lit "/home";
}

abbrev root : Text
root = lit "/go/src/x"

abbrev empty : Memory
empty q = none

abbrev path : Text
path = lit "/k8s/templates/storageclass.yaml"

made : (scaffold tools root sample empty).0 ≡ ok tt
unfolding scaffold scaffold_on go_src go_path has_prefix extract_files walk dir_at assets
    extract_visit extract_file place extract_to rendered templatize save target ext trim_suffix
    path_join eq_text open_path open_asset lookup stat readdir count_of entries_of read_file
made = refl

apart :
    (parsed : Text)
    → ok (lit "/k8s/values.yaml") ≡ ok parsed
    → eq_text
        (target (path_join (root ∷ parsed ∷ [])))
        (made_at tools memory-IsFramed memory-IsLawful root path)
      ≡ false
unfolding target ext trim_suffix path_join eq_text
apart parsed e =
    subst
      (λ (t : Text).
        eq_text (target (path_join (root ∷ t ∷ [])))
          (made_at tools memory-IsFramed memory-IsLawful root path)
        ≡ false)
      (inj e) refl
  where
    inj : {x y : Text} → ok x ≡ ok y → x ≡ y
    inj q = cc

scaffold-Holds_example :
    Holds tools memory-IsFramed memory-IsLawful
      (context tools root sample)
      root
      path
      path
      (scaffold tools root sample empty).1
unfolding templatize assets stat path_join eq_text target ext trim_suffix
scaffold-Holds_example =
    scaffold-Holds tools memory-IsFramed memory-IsLawful readers no_bytes refl (λ p w. tt) root path
      path sample (take 20 (map path_of (assets no_bytes))) ((lit "/k8s/values.yaml", false) ∷ [])
      empty (λ src. tt) refl refl refl (apart, tt) (λ w. refl) made
