-- ===== src/Config/Tests.antt =====
-- A configuration that loads, and a port that parses.
use rosetta_ergo.Base.{String, pos, some, [], ok, ◌≡◌, ◌↔◌, refl, if◌then◌else◌, ◌==◌}
use rosetta_ergo.Decimal.{parse_int}
use rosetta_ergo.Ergo.Constants.{erg_currency, mainnet_genesis_block_identifier}
use rosetta_ergo.Config.{Configuration, Embedded, Host, atoi, parse_port, load_configuration}
use rosetta_ergo.Config.Valid.{IsPort, IsLoaded, parse_port_exact, load_configuration-IsLoaded}

parse_port_exact_example :
    (parse_port "9053" ≡ ok (pos 9053)) ↔ ((parse_int "9053" ≡ some (pos 9053)) × IsPort (pos 9053))
parse_port_exact_example = parse_port_exact "9053" (pos 9053)

abbrev files : Embedded
files = record { genesis_utxos = ok []; bootstrap_balances = ok [] }

abbrev variables : String → String
variables key =
    if key == "ERGO_ROSETTA_MODE"
    then "OFFLINE"
    else if key == "ERGO_NETWORK"
    then "mainnet"
    else if key == "ERGO_ROSETTA_PORT"
    then "8080"
    else if key == "ROSETTA_NODE_PORT"
    then "9053"
    else ""

abbrev host : Host
host = record {
  version = "0.1";
  env = variables;
  join = λ base name. name;
  mkdir_all = λ path. ok tt;
  mainnet_files = files;
  testnet_files = files;
}

abbrev configuration : Configuration
configuration = record {
  mode = "OFFLINE";
  version = "0.1";
  network = record { blockchain = "Ergo"; network = "mainnet" };
  currency = erg_currency;
  genesis_block_identifier = mainnet_genesis_block_identifier;
  rosetta_port = pos 8080;
  node_port = pos 9053;
  indexer_path = "";
  genesis_utxos = [];
  bootstrap_balances = [];
  node_config_path = "node.conf";
}

loads : load_configuration host ≡ ok configuration
unfolding load_configuration atoi parse_int
loads = refl

load_configuration-IsLoaded_example : IsLoaded host configuration
load_configuration-IsLoaded_example = load_configuration-IsLoaded host configuration loads
