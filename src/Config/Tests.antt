-- ===== src/Config/Tests.antt =====
-- The places of the files of a node below a concrete directory.
use bitcoinx.Base.{Text, lit, List, [], ◌∷◌, true, All, ◌≡◌, refl, arith, eq_text}
use bitcoinx.GoPath.Laws.{IsName, absolute}
use bitcoinx.GoPath.{path_join}
use bitcoinx.Ports.{ports_at}
use bitcoinx.Config.{Config, state_dir, config_dir, genesis_path}

abbrev root : List Text
root = lit "home" ∷ lit "chain" ∷ []

abbrev config : Config
config = record {
  root_dir = lit "/home/chain";
  ports = ports_at 52000;
  chain_id = [];
  publish_network = true;
}

root_names : All IsName root
unfolding eq_text
root_names = (
  record { no_slash = omega arith; nonempty = refl; not_dot = refl; not_dot_dot = refl },
  (record { no_slash = omega arith; nonempty = refl; not_dot = refl; not_dot_dot = refl }, tt),
)

at_root : config.root_dir ≡ absolute root
unfolding absolute
at_root = refl

genesis_at : genesis_path config ≡ lit "/home/chain/state/config/genesis.json"
unfolding genesis_path config_dir state_dir path_join
genesis_at = refl
