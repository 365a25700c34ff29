-- ===== src/Config.antt =====
-- pkg/config/config.go: the configuration, read from the environment. What the operating system
-- and the embedded files answer are parameters, and so is `path.Join`.
pub mod Tests
pub mod Valid
use rosetta_ergo.Base.{
  ℕ, ◌<◌, ℤ, pos, negsuc, String, Bool, true, false, ◌||◌, Option, none, some, List, [], ◌∷◌,
  Result, ok, err, panics, blocks, Err, errorf, wrap, str, ◌>>=◌, ◌>>◌, wrap_with, ltb, leb, ltb_ℤ,
  max_int64, ◌==◌, if◌then◌else◌,
}
use Prim.Native.String.{◌++◌ as append}
use rosetta_ergo.Decimal.{parse_int}
use rosetta_ergo.Sdk.{AccountCoin, AccountIdentifier, BlockIdentifier, Currency, NetworkIdentifier}
use rosetta_ergo.Ergo.Constants.{
  blockchain, mainnet_network, testnet_network, mainnet_genesis_block_identifier,
  testnet_genesis_block_identifier, erg_currency,
}

abbrev pub online : String
online = "ONLINE"

abbrev pub offline : String
offline = "OFFLINE"

abbrev pub mainnet : String
mainnet = "mainnet"

abbrev pub testnet : String
testnet = "testnet"

abbrev pub indexer_path_name : String
indexer_path_name = "indexer"

abbrev pub node_config_name : String
node_config_name = "node.conf"

abbrev pub env_var_prefix : String
env_var_prefix = "ERGO_"

abbrev pub rosetta_mode_env : String
rosetta_mode_env = "ROSETTA_MODE"

abbrev pub rosetta_data_dir_env : String
rosetta_data_dir_env = "ROSETTA_DATA_DIR"

abbrev pub network_env : String
network_env = "NETWORK"

abbrev pub rosetta_port_env : String
rosetta_port_env = "ROSETTA_PORT"

abbrev pub config_env : String
config_env = "CONFIG_DIR"

abbrev pub node_port_env : String
node_port_env = "ROSETTA_NODE_PORT"

-- `modules.BootstrapBalance` of rosetta-sdk-go.
pub record BootstrapBalance : Type 0 where
  pub account : AccountIdentifier
  pub currency : Currency
  pub value : String

pub record Configuration : Type 0 where
  pub mode : String
  pub version : String
  pub network : NetworkIdentifier
  pub currency : Currency
  pub genesis_block_identifier : BlockIdentifier
  pub rosetta_port : ℤ
  pub node_port : ℤ
  pub indexer_path : String
  pub genesis_utxos : List AccountCoin
  pub bootstrap_balances : List BootstrapBalance
  pub node_config_path : String

-- The two embedded files of a network, as the JSON decoder reads them.
pub record Embedded : Type 0 where
  pub genesis_utxos : Result (List AccountCoin)
  pub bootstrap_balances : Result (List BootstrapBalance)

-- The version that is set at build time, the environment, `path.Join`, `os.MkdirAll`, and the
-- embedded files of the two networks.
pub record Host : Type 0 where
  pub version : String
  pub env : String → String
  pub join : String → String → String
  pub mkdir_all : String → Result (Unit {0})
  pub mainnet_files : Embedded
  pub testnet_files : Embedded

-- `strconv.Atoi`: an int64, or an error.
abbrev pub atoi_range : Option ℤ → Option ℤ
atoi_range none = none
atoi_range (some (pos n)) = if leb n max_int64 then some (pos n) else none
atoi_range (some (negsuc n)) = if leb n max_int64 then some (negsuc n) else none

unfoldable pub atoi : String → Option ℤ
atoi s = atoi_range (parse_int s)

-- The error's cause, which is that of `strconv.Atoi` or nil, is not kept.
unfoldable pub parse_port : String → Result ℤ
parse_port port = elim (atoi port) [
  | none ↦ err (errorf "unable to parse port %s: %w" (str port ∷ []))
  | some p ↦
      if port == "" || ltb_ℤ p (pos 1)
      then err (errorf "unable to parse port %s: %w" (str port ∷ []))
      else ok p
]

-- The parts of the configuration that depend on the network.
pub record NetworkPart : Type 0 where
  pub network : NetworkIdentifier
  pub genesis_utxos : List AccountCoin
  pub bootstrap_balances : List BootstrapBalance
  pub genesis_block_identifier : BlockIdentifier

-- What the decoder makes of the bytes is `decoded`.
abbrev pub parse_interface {ℓ} : {A : Type ℓ} → Result A → Result A
parse_interface decoded = wrap_with "%w: unable to unmarshal" [] decoded

unfoldable pub network_part : String → BlockIdentifier → Embedded → Result NetworkPart
network_part name genesis files = do
  utxos ← parse_interface files.genesis_utxos
  balances ← parse_interface files.bootstrap_balances
  ok (record {
    network = record { blockchain = blockchain; network = name };
    genesis_utxos = utxos;
    bootstrap_balances = balances;
    genesis_block_identifier = genesis;
  })

module _ (h : Host) where
  unfoldable pub get_env : String → String
  get_env key = h.env (append env_var_prefix key)

  unfoldable pub ensure_path_exists : String → Result (Unit {0})
  ensure_path_exists path =
      wrap_with "%w: unable to create %s directory" (str path ∷ []) (h.mkdir_all path)

  -- The mode and the indexer's path, which is empty offline.
  unfoldable pub load_mode : String → String → Result (String × String)
  unfolding ensure_path_exists
  load_mode mode_value base_directory =
      if mode_value == online
      then (let path = h.join base_directory indexer_path_name in
          wrap_with "%w: unable to create indexer path" [] (ensure_path_exists path) >>= λ _.
          ok (online, path))
      else if mode_value == offline
      then ok (offline, "")
      else if mode_value == ""
      then err (errorf "%s%s must be populated" (str env_var_prefix ∷ str rosetta_mode_env ∷ []))
      else err (errorf "%s is not a valid mode" (str mode_value ∷ []))

  unfoldable pub load_network : String → Result NetworkPart
  unfolding network_part
  load_network network_value =
      if network_value == mainnet
      then network_part mainnet_network mainnet_genesis_block_identifier h.mainnet_files
      else if network_value == testnet
      then network_part testnet_network testnet_genesis_block_identifier h.testnet_files
      else if network_value == ""
      then err (errorf "%s%s must be populated" (str env_var_prefix ∷ str network_env ∷ []))
      else err (errorf "%s is not a valid network" (str network_value ∷ []))

  unfoldable pub load_rosetta_port : String → Result ℤ
  unfolding parse_port
  load_rosetta_port port =
      if port == ""
      then err (errorf "%s%s must be populated" (str env_var_prefix ∷ str rosetta_port_env ∷ []))
      else parse_port port

  unfoldable pub load_configuration : Result Configuration
  unfolding load_mode load_network load_rosetta_port get_env parse_port
  load_configuration = do
    (mode, indexer_path) ← load_mode (get_env rosetta_mode_env) (get_env rosetta_data_dir_env)
    node_port ← parse_port (h.env node_port_env)
    part ← load_network (get_env network_env)
    rosetta_port ← load_rosetta_port (get_env rosetta_port_env)
    ok (record {
      mode = mode;
      version = h.version;
      network = part.network;
      currency = erg_currency;
      genesis_block_identifier = part.genesis_block_identifier;
      rosetta_port = rosetta_port;
      node_port = node_port;
      indexer_path = indexer_path;
      genesis_utxos = part.genesis_utxos;
      bootstrap_balances = part.bootstrap_balances;
      node_config_path = h.join (get_env config_env) node_config_name;
    })
