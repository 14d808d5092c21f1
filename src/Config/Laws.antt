-- ===== src/Config/Laws.antt =====
-- Where a node's files lie, for a root directory that is an absolute path in normal form.
use bitcoinx.Base.{
  Lacks, is_empty, eq_text, Text, lit, [], ◌∷◌, List, ◌++◌, All, All-append, ◌≡◌, ◌∙◌, ap, refl,
  arith, false,
}
use mathlib.Core.List.{append_assoc}
use bitcoinx.GoPath.{path_join, dot, dot_dot}
use bitcoinx.GoPath.Laws.{IsName, absolute, path_join-absolute, path_join-ne}
use bitcoinx.Config.{Config, state_dir, log_file, data_dir, config_dir, config_path, manifest_path}
use bitcoinx.Config.{genesis_path, cli_dir, ipfs_dir}

plain :
    (s : Text)
    → Lacks b'/' s
    → is_empty s ≡ false
    → eq_text s dot ≡ false
    → eq_text s dot_dot ≡ false
    → IsName s
plain s a b c d = record { no_slash = a; nonempty = b; not_dot = c; not_dot_dot = d }

state-IsName : IsName (lit "state")
unfolding eq_text
state-IsName = plain (lit "state") (omega arith) refl refl refl

config-IsName : IsName (lit "config")
unfolding eq_text
config-IsName = plain (lit "config") (omega arith) refl refl refl

module _ (c : Config) (ps : List Text) (names : All IsName ps)
    (root : c.root_dir ≡ absolute ps) where
  at_root : (q : Text) → IsName q → path_join (c.root_dir ∷ q ∷ []) ≡ absolute (ps ++ q ∷ [])
  at_root q h = rw root (path_join-absolute ps q [] names (h, tt))

  below :
      {d : Text} (qs : List Text) (q : Text)
      → d ≡ absolute (ps ++ qs)
      → All IsName qs
      → IsName q
      → path_join (d ∷ q ∷ []) ≡ absolute (ps ++ (qs ++ q ∷ []))
  below qs q e hs h = rw e (
      path_join-absolute (ps ++ qs) q [] (All-append IsName ps qs names hs) (h, tt)
      ∙ ap absolute (append_assoc ps qs (q ∷ [])))

  state : state_dir c ≡ absolute (ps ++ lit "state" ∷ [])
  unfolding state_dir eq_text
  state = at_root (lit "state") state-IsName

  config_at : config_dir c ≡ absolute (ps ++ lit "state" ∷ lit "config" ∷ [])
  unfolding config_dir eq_text
  config_at = below (lit "state" ∷ []) (lit "config") state (state-IsName, tt) config-IsName

  -- If the root directory is an absolute path in normal form, all files of a node lie below it: the
  -- log and the manifest in it, all others in its directory `state`, the configuration and the
  -- genesis file in `state/config`.
  pub config_paths :
      (state_dir c ≡ absolute (ps ++ lit "state" ∷ []))
      × (log_file c ≡ absolute (ps ++ lit "log" ∷ []))
      × (manifest_path c ≡ absolute (ps ++ lit "chainkit.yml" ∷ []))
      × (data_dir c ≡ absolute (ps ++ lit "state" ∷ lit "data" ∷ []))
      × (cli_dir c ≡ absolute (ps ++ lit "state" ∷ lit "cli" ∷ []))
      × (ipfs_dir c ≡ absolute (ps ++ lit "state" ∷ lit "ipfs" ∷ []))
      × (config_dir c ≡ absolute (ps ++ lit "state" ∷ lit "config" ∷ []))
      × (config_path c ≡ absolute (ps ++ lit "state" ∷ lit "config" ∷ lit "config.toml" ∷ []))
      × (genesis_path c ≡ absolute (ps ++ lit "state" ∷ lit "config" ∷ lit "genesis.json" ∷ []))
  unfolding log_file manifest_path data_dir cli_dir ipfs_dir config_path genesis_path eq_text
  config_paths = (
    state,
    at_root (lit "log") (plain (lit "log") (omega arith) refl refl refl),
    at_root (lit "chainkit.yml") (plain (lit "chainkit.yml") (omega arith) refl refl refl),
    below (lit "state" ∷ []) (lit "data") state (state-IsName, tt)
        (plain (lit "data") (omega arith) refl refl refl),
    below (lit "state" ∷ []) (lit "cli") state (state-IsName, tt)
        (plain (lit "cli") (omega arith) refl refl refl),
    below (lit "state" ∷ []) (lit "ipfs") state (state-IsName, tt)
        (plain (lit "ipfs") (omega arith) refl refl refl),
    config_at,
    below (lit "state" ∷ lit "config" ∷ []) (lit "config.toml") config_at
        (state-IsName, (config-IsName, tt))
        (plain (lit "config.toml") (omega arith) refl refl refl),
    below (lit "state" ∷ lit "config" ∷ []) (lit "genesis.json") config_at
        (state-IsName, (config-IsName, tt))
        (plain (lit "genesis.json") (omega arith) refl refl refl),
  )

  -- The genesis file is not the configuration.
  pub genesis_path-ne : eq_text (genesis_path c) (config_path c) ≡ false
  unfolding config_path genesis_path eq_text
  genesis_path-ne = rw config_at (
      path_join-ne (ps ++ lit "state" ∷ lit "config" ∷ []) (lit "genesis.json") (lit "config.toml")
        (All-append IsName ps (lit "state" ∷ lit "config" ∷ []) names
          (state-IsName, (config-IsName, tt)))
        (plain (lit "genesis.json") (omega arith) refl refl refl)
        (plain (lit "config.toml") (omega arith) refl refl refl) refl)
