-- ===== src/Node/Init/Again.antt =====
-- `init` of node/node.go on a chain that exists: what is left after any number of further starts.
use bitcoinx.Base.{Text, lit, Bool, Option, some, ok, ◌≡◌, refl, ◌∙◌, eq_text_refl, map, All, List}
use bitcoinx.Base.Lines.{print_lines, IsLine}
use bitcoinx.Files.{IsLawful}
use bitcoinx.GoPath.Laws.{IsName, absolute}
use bitcoinx.Config.Laws.{genesis_path-ne}
use bitcoinx.Config.{Config, config_path, genesis_path}
use bitcoinx.Project.{Project}
use bitcoinx.Node.Update.{assignment, update_line}
use bitcoinx.Node.Update.Laws.{update_config-content}
use bitcoinx.Node.Update.Again.{lines-AreLines, update_config-replaces}
use bitcoinx.Node.Init.{Host, init, node_vars}
use bitcoinx.Node.Init.Laws.{node_vars-PrefixFree}
use bitcoinx.Node.Init.Once.{IsQuiet, starts, node_vars-Covers, node_vars-AreLines}

module _ {W : Type 0} (host : Host W) (content : W → Text → Option Text) where
  -- The chain exists, and the configuration is what the variables of the name make of the lines.
  pub record IsConfigured (c : Config) (ls : List Text) (name : Text) (v : W) : Type 0 where
    pub name_line : IsLine (assignment (lit "moniker") (host.quote name))
    pub configured :
        content v (config_path c) ≡ some (print_lines (map (update_line (node_vars host name)) ls))
    pub genesis : Text
    pub exists : content v (genesis_path c) ≡ some genesis

  -- The worlds that are met from `w` on: the node is started once or more, with or without a genesis
  -- file given, and meanwhile anything else may change but the configuration, as long as there is a
  -- genesis file. The name is the one that the host had at the last start.
  pub data Restarts (c : Config) (p : Project) (w : W) : Text → W → Type 0 where
    once :
        (name : Text) (given : Option Text) (edit : Bool)
        → (host.hostname w).0 ≡ ok name
        → (init host c p given edit w).0 ≡ ok tt
        → Restarts c p w name (init host c p given edit w).1
    again :
        {old : Text} {v : W} (name : Text) (given : Option Text) (edit : Bool)
        → Restarts c p w old v
        → (host.hostname v).0 ≡ ok name
        → (init host c p given edit v).0 ≡ ok tt
        → Restarts c p w name (init host c p given edit v).1
    elsewhere :
        {name : Text} {v : W} (u : W) (genesis : Text)
        → Restarts c p w name v
        → content u (config_path c) ≡ content v (config_path c)
        → content u (genesis_path c) ≡ some genesis
        → Restarts c p w name u

module _ {W : Type 0} (host : Host W) {content : W → Text → Option Text}
    (lawful : IsLawful host.files content) (quiet : IsQuiet host content) where
  -- On a host on which asking for its name or for a file changes no file, and whose name is a line:
  -- when a node whose chain exists is started any number of times, with or without a genesis file
  -- given, and nothing else changes its configuration, then that has its first lines, with the
  -- variables of the last start set in them, and nothing of the starts before; provided that the
  -- scanner takes its first lines, and that the root directory is an absolute path in normal form.
  pub Restarts-IsConfigured :
      (c : Config) (p : Project) (ps ls : List Text) (d : Text) (w : W)
      → All IsName ps
      → c.root_dir ≡ absolute ps
      → All IsLine ls
      → content w (config_path c) ≡ some (print_lines ls)
      → content w (genesis_path c) ≡ some d
      → (name : Text) (v : W) → Restarts host content c p w name v
      → IsConfigured host content c ls name v
  Restarts-IsConfigured c p ps ls d w names root good held there name v
        (once n given edit named done) =
      let (u, same, updated, at, (g, there')) =
        starts host lawful quiet c p given edit ls d name w (genesis_path-ne c ps names root) good
          named there held done in
      record {
        name_line = quiet.name-IsLine name w named;
        configured =
            at
            ∙ update_config-content host.files lawful (config_path c) (config_path c)
                (node_vars host name) ls u good (same ∙ held) updated
            ∙ rw (eq_text_refl (config_path c)) refl;
        genesis = g;
        exists = there';
      }
  Restarts-IsConfigured c p ps ls d w names root good held there name v
        (again {old} {v = x} n given edit before named done) =
      let i = Restarts-IsConfigured c p ps ls d w names root good held there old x before in
      let own = node_vars-AreLines host lawful quiet old i.name_line in
      let (u, same, updated, at, (g, there')) =
        starts host lawful quiet c p given edit (map (update_line (node_vars host old)) ls)
          i.genesis name x (genesis_path-ne c ps names root)
          (lines-AreLines (node_vars host old) ls own good) named i.exists i.configured done in
      record {
        name_line = quiet.name-IsLine name x named;
        configured =
            at
            ∙ update_config-replaces host.files lawful (config_path c) (node_vars host old)
                (node_vars host name) ls u (node_vars-PrefixFree host old)
                (node_vars-PrefixFree host name) (node_vars-Covers host lawful quiet old name) own
                good (same ∙ i.configured) updated;
        genesis = g;
        exists = there';
      }
  Restarts-IsConfigured c p ps ls d w names root good held there name v
        (elsewhere {v = x} u g before config exists) =
      let i = Restarts-IsConfigured c p ps ls d w names root good held there name x before in
      record {
        name_line = i.name_line;
        configured = config ∙ i.configured;
        genesis = g;
        exists = exists;
      }
