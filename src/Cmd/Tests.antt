-- ===== src/Cmd/Tests.antt =====
-- The command on mainnet, online with a signal, and offline.
use rosetta_ergo.Base.{
  ℕ, pos, String, true, false, some, List, [], ◌∷◌, ◌≡◌, refl, Result, ok, err, Err, errorf, Among,
  if◌then◌else◌, ◌==◌, eq_iff,
}
use rosetta_ergo.Decimal.{parse_int}
use rosetta_ergo.Ergo.Constants.{erg_currency, mainnet_genesis_block_identifier}
use rosetta_ergo.Config.{Configuration, atoi, load_configuration, online}
use rosetta_ergo.Storage.{snappy, new_storage, shutdown}
use rosetta_ergo.Server.Offline.{AnswersOffline}
use rosetta_ergo.Cmd.{
  HttpServer, Task, listen_and_serve, shut_server_down, monitor_memory, goes, waits, Startup,
  returns, run_cmd_handler, exit_code,
}
use rosetta_ergo.Cmd.Root.{version, execute, main, handle_signals}
use rosetta_ergo.Cmd.Halts.{Documented, EndsWell, run_cmd_handler-EndsWell}
use rosetta_ergo.Cmd.Offline.{run_cmd_handler-AnswersOffline}
use rosetta_ergo.Samples.{network, storage, negate}

abbrev environment : String → String → String
environment mode key =
    if key == "ERGO_ROSETTA_MODE"
    then mode
    else if key == "ERGO_NETWORK"
    then "mainnet"
    else if key == "ERGO_ROSETTA_PORT"
    then "8080"
    else if key == "ROSETTA_NODE_PORT"
    then "9053"
    else ""

abbrev server_closed : Err
server_closed = errorf "http: Server closed" []

abbrev group_error : List (Task ℕ) → Result (Unit {0})
group_error [] = ok tt
group_error (t ∷ ts) = err server_closed

abbrev startup : String → Startup ℕ ℕ
startup mode = record {
  new_logger = ok tt;
  sync_logger = ok tt;
  host = record {
    version = "1";
    env = environment mode;
    join = λ a b. b;
    mkdir_all = λ path. ok tt;
    mainnet_files = record { genesis_utxos = ok []; bootstrap_balances = ok [] };
    testnet_files = record { genesis_utxos = ok []; bootstrap_balances = ok [] };
  };
  network = network;
  libraries = record {
    default_options = λ dir. record { dir = dir; compression = snappy; truncate = false };
    new_badger_database = λ path options. ok 0;
    close = λ db. ok tt;
    modules = storage;
    num_cpu = pos 4;
  };
  client_asserter = λ cfg. ok tt;
  server_asserter = λ id. ok tt;
  rosetta_version = "1.4.10";
  negate_value = negate;
  marshal_map = λ peer. ok 0;
  wait = group_error;
  signal_received = true;
}

-- Every goroutine ends with an error.
outcome : Task ℕ → Result (Unit {0})
outcome t = err server_closed

documented : (mode : String) → Documented (startup mode) outcome
unfolding outcome
documented mode = record { first_error = first_error; serving_ends = λ s. (server_closed, refl) }
  where
    first_error :
        (tasks : List (Task ℕ)) (t : Task ℕ) (e : Err)
        → Among t tasks
        → outcome t ≡ err e
        → (e' : Err) × (group_error tasks ≡ err e')
    first_error [] t e m h = absurd m
    first_error (s ∷ tasks) t e m h = (server_closed, refl)

ends : exit_code (run_cmd_handler (startup "ONLINE") true).exit ≡ some 0
unfolding run_cmd_handler load_configuration new_storage shutdown atoi parse_int
ends = refl

run_cmd_handler-EndsWell_example :
    ((startup "ONLINE").signal_received ≡ true)
    × EndsWell (run_cmd_handler (startup "ONLINE") true).events
run_cmd_handler-EndsWell_example =
    run_cmd_handler-EndsWell (startup "ONLINE") outcome (documented "ONLINE") true ends

abbrev offline_configuration : Configuration
offline_configuration = record {
  mode = "OFFLINE";
  version = "1";
  network = record { blockchain = "Ergo"; network = "mainnet" };
  currency = erg_currency;
  genesis_block_identifier = mainnet_genesis_block_identifier;
  rosetta_port = pos 8080;
  node_port = pos 9053;
  indexer_path = "";
  genesis_utxos = [];
  bootstrap_balances = [];
  node_config_path = "node.conf";
}

loads : load_configuration (startup "OFFLINE").host ≡ ok offline_configuration
unfolding load_configuration atoi parse_int
loads = refl

run_cmd_handler-AnswersOffline_example :
    (server : HttpServer ℕ) × ((run_cmd_handler (startup "OFFLINE") true).events
      ≡ goes monitor_memory ∷ goes (listen_and_serve server) ∷ goes shut_server_down ∷ waits ∷ [])
    × AnswersOffline offline_configuration server.router
run_cmd_handler-AnswersOffline_example =
    run_cmd_handler-AnswersOffline (startup "OFFLINE") true offline_configuration refl loads
      (λ h. cc ((eq_iff "OFFLINE" online).1 h)) refl

-- The command `version`, and a signal that cancels one context.
version_prints : execute (startup "ONLINE") version ≡ ("rosetta-ergo v1\n" ∷ [], returns (ok tt))
unfolding execute
version_prints = refl

version_ends : main (startup "ONLINE") (ok version) ≡ some 0
unfolding main
version_ends = refl

refused_arguments : main (startup "ONLINE") (err server_closed) ≡ some 1
unfolding main
refused_arguments = refl

signal_cancels : handle_signals ((λ running. false) ∷ []) (false, true) ≡ (true, false)
unfolding handle_signals
signal_cancels = refl
