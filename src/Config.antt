-- ===== src/Config.antt =====
-- config/config.go: the configuration of a node and the places of its files.
pub mod Laws
mod Tests
use bitcoinx.Base.{Text, lit, Bool, [], ◌∷◌}
use bitcoinx.GoPath.{path_join}
use bitcoinx.Ports.{PortMapper}

pub record Config : Type 0 where
  pub root_dir : Text
  pub ports : PortMapper
  pub chain_id : Text
  pub publish_network : Bool

unfoldable pub state_dir : Config → Text
state_dir c = path_join (c.root_dir ∷ lit "state" ∷ [])

unfoldable pub log_file : Config → Text
log_file c = path_join (c.root_dir ∷ lit "log" ∷ [])

unfoldable pub data_dir : Config → Text
data_dir c = path_join (state_dir c ∷ lit "data" ∷ [])

unfoldable pub config_dir : Config → Text
config_dir c = path_join (state_dir c ∷ lit "config" ∷ [])

unfoldable pub config_path : Config → Text
config_path c = path_join (config_dir c ∷ lit "config.toml" ∷ [])

unfoldable pub manifest_path : Config → Text
manifest_path c = path_join (c.root_dir ∷ lit "chainkit.yml" ∷ [])

unfoldable pub genesis_path : Config → Text
genesis_path c = path_join (config_dir c ∷ lit "genesis.json" ∷ [])

unfoldable pub cli_dir : Config → Text
cli_dir c = path_join (state_dir c ∷ lit "cli" ∷ [])

unfoldable pub ipfs_dir : Config → Text
ipfs_dir c = path_join (state_dir c ∷ lit "ipfs" ∷ [])
