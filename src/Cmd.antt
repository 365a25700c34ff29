-- ===== src/Cmd.antt =====
-- The command `run` of cmd/run.go, and the exit status that main.go makes of it.
-- The goroutines of the group are named by what they run; what each returned, what the group's
-- `Wait` returns for them, and whether a signal came, are parameters, and so are the asserters and
-- zap. A run is the list of what it does to the group and to the database, and how it ends.
pub mod Root
pub mod Halts
pub mod Offline
pub mod Tests
use Prim.Native.String.{◌++◌ as append}
use rosetta_ergo.Base.{
  ℕ, ℤ, pos, String, Bool, true, false, Option, none, some, List, [], ◌∷◌, ◌++◌, Result, ok, err,
  panics, blocks, ◌>>=◌, ◌>>◌, wrap_with, ◌==◌, if◌then◌else◌,
}
use rosetta_ergo.Decimal.{format_int}
use rosetta_ergo.Sdk.{NetworkIdentifier}
use rosetta_ergo.Ergo.Types.{Peer}
use rosetta_ergo.Ergo.Client.{Client, Network, local_node_url, new_client}
use rosetta_ergo.Ergo.Node.{NodeConfiguration}
use rosetta_ergo.Config.{Configuration, Host, load_configuration, online}
use rosetta_ergo.Indexer.State.{Indexer, init_indexer}
use rosetta_ergo.Storage.{Libraries, Storage, Closing, closed, not_closed, new_storage, shutdown}
use rosetta_ergo.Server.{Dependencies, Router, new_blockchain_router}

-- The timeouts, in seconds.
abbrev pub read_timeout : ℕ
read_timeout = 5

abbrev pub write_timeout : ℕ
write_timeout = 15

abbrev pub idle_timeout : ℕ
idle_timeout = 30

-- `http.Server`; the router is behind the logger and the CORS middleware.
pub record HttpServer (Metadata : Type 0) : Type 0 where
  pub addr : String
  pub router : Router Metadata
  pub read_timeout : ℕ
  pub write_timeout : ℕ
  pub idle_timeout : ℕ

-- The goroutines of the group.
pub data Task (Metadata : Type 0) : Type 0 where
  monitor_memory : Task Metadata
  run_node : NodeConfiguration → Task Metadata
  sync_indexer : Task Metadata
  listen_and_serve : HttpServer Metadata → Task Metadata
  shut_server_down : Task Metadata

pub data Event (Metadata : Type 0) : Type 0 where
  goes : Task Metadata → Event Metadata
  opens waits closes : Event Metadata

-- A return of the handler, or the end of the process in a logger.
pub data Exit : Type 0 where
  returns : Result (Unit {0}) → Exit
  fatal : String → Exit

pub record Run (Metadata : Type 0) : Type 0 where
  pub events : List (Event Metadata)
  pub exit : Exit

pub record Startup (DB Metadata : Type 0) : Type 0 where
  pub new_logger : Result (Unit {0})
  pub sync_logger : Result (Unit {0})
  pub host : Host
  pub network : Network
  pub libraries : Libraries DB
  pub client_asserter : Configuration → Result (Unit {0})
  pub server_asserter : NetworkIdentifier → Result (Unit {0})
  pub rosetta_version : String
  pub negate_value : String → Result String
  pub marshal_map : Peer → Result Metadata
  pub wait : List (Task Metadata) → Result (Unit {0})
  pub signal_received : Bool

-- The tasks of the group when it is waited for.
unfoldable pub tasks_of : {Metadata : Type 0} → List (Event Metadata) → List (Task Metadata)
tasks_of [] = []
tasks_of (goes t ∷ events) = t ∷ tasks_of events
tasks_of (opens ∷ events) = tasks_of events
tasks_of (waits ∷ events) = tasks_of events
tasks_of (closes ∷ events) = tasks_of events

module _ {DB Metadata : Type 0} (u : Startup DB Metadata) where
  -- The node is started only if it is asked for.
  abbrev pub node_events : Bool → Configuration → List (Event Metadata)
  node_events false cfg = []
  node_events true cfg =
      goes (
        run_node
          (record { network = cfg.network.network; config_file_path = cfg.node_config_path }))
      ∷ []

  -- The client, the opened storage and the indexer; the indexer's start is an event.
  unfoldable pub start_online_dependencies :
      Configuration → Result (Client × Indexer DB × Storage DB)
  start_online_dependencies cfg = do
    u.client_asserter cfg
    storage ← new_storage u.libraries cfg.indexer_path
    i ← wrap_with "%w: unable to initialize indexer" [] (ok (init_indexer storage.db))
    ok (new_client (local_node_url cfg.node_port) u.network, i, storage)

  -- The deferred `zapLogger.Sync` of a return.
  abbrev pub after_sync : Result (Unit {0}) → Result (Unit {0}) → Exit
  after_sync (ok synced) r = returns r
  after_sync (err e) r = fatal "sync"
  after_sync panics r = returns panics
  after_sync blocks r = returns blocks

  -- The end, where the group returned `r`.
  abbrev pub halt : Result (Unit {0}) → Exit
  halt r = after_sync u.sync_logger (if u.signal_received then ok tt else r)

  abbrev pub after_shutdown :
      List (Event Metadata) → Result (Unit {0}) → Result Closing → Run Metadata
  after_shutdown events r (ok closed) = record { events = events ++ closes ∷ []; exit = halt r }
  after_shutdown events r (ok (not_closed e)) = record {
    events = events;
    exit = fatal "unable to close indexer database";
  }
  after_shutdown events r (err e) = record { events = events; exit = returns (err e) }
  after_shutdown events r panics = record { events = events; exit = returns panics }
  after_shutdown events r blocks = record { events = events; exit = returns blocks }

  -- The database is closed if the indexer was started.
  abbrev pub close_database :
      List (Event Metadata) → Result (Unit {0}) → Option (Storage DB) → Run Metadata
  close_database events r none = record { events = events; exit = halt r }
  close_database events r (some storage) = after_shutdown events r (shutdown u.libraries storage)

  abbrev pub after_wait :
      List (Event Metadata) → Option (Storage DB) → Result (Unit {0}) → Run Metadata
  after_wait events opened (ok done) = close_database events (ok done) opened
  after_wait events opened (err e) = close_database events (err e) opened
  after_wait events opened panics = record { events = events; exit = returns panics }
  after_wait events opened blocks = record { events = events; exit = returns blocks }

  abbrev pub new_server : Configuration → Option (Dependencies DB) → HttpServer Metadata
  new_server cfg d = record {
    addr = append ":" (format_int cfg.rosetta_port);
    router = new_blockchain_router cfg u.rosetta_version u.negate_value u.marshal_map d;
    read_timeout = read_timeout;
    write_timeout = write_timeout;
    idle_timeout = idle_timeout;
  }

  -- From the server's asserter on; `events` is what was done before.
  unfoldable pub serve :
      List (Event Metadata)
      → Configuration
      → Option (Dependencies DB)
      → Option (Storage DB)
      → Run Metadata
  unfolding tasks_of
  serve events cfg d opened = elim (u.server_asserter cfg.network) [
    | ok accepted ↦
        let started =
          events ++ goes (listen_and_serve (new_server cfg d)) ∷ goes shut_server_down ∷ [] in
        after_wait (started ++ waits ∷ []) opened (u.wait (tasks_of started))
    | err e ↦ record { events = events; exit = fatal "unable to create new asserter" }
    | panics ↦ record { events = events; exit = returns panics }
    | blocks ↦ record { events = events; exit = returns blocks }
  ]

  abbrev pub with_dependencies :
      List (Event Metadata)
      → Configuration
      → Result (Client × Indexer DB × Storage DB)
      → Run Metadata
  with_dependencies events cfg (ok (client, i, storage)) =
      serve (events ++ opens ∷ goes sync_indexer ∷ []) cfg
        (some (record { client = client; storage = u.libraries.modules; reads = λ n. storage.db }))
        (some storage)
  with_dependencies events cfg (err e) = record {
    events = events;
    exit = fatal "unable to start online dependencies";
  }
  with_dependencies events cfg panics = record { events = events; exit = returns panics }
  with_dependencies events cfg blocks = record { events = events; exit = returns blocks }

  unfoldable pub run_configured : Bool → Configuration → Run Metadata
  unfolding serve start_online_dependencies
  run_configured start_node cfg =
      if cfg.mode == online
      then with_dependencies (goes monitor_memory ∷ node_events start_node cfg) cfg
          (start_online_dependencies cfg)
      else serve (goes monitor_memory ∷ []) cfg none none

  abbrev pub with_configuration : Bool → Result Configuration → Run Metadata
  with_configuration start_node (ok cfg) = run_configured start_node cfg
  with_configuration start_node (err e) = record {
    events = goes monitor_memory ∷ [];
    exit = fatal "unable to load configuration";
  }
  with_configuration start_node panics = record {
    events = goes monitor_memory ∷ [];
    exit = returns panics;
  }
  with_configuration start_node blocks = record {
    events = goes monitor_memory ∷ [];
    exit = returns blocks;
  }

  unfoldable pub run_cmd_handler : Bool → Run Metadata
  unfolding run_configured
  run_cmd_handler start_node = elim u.new_logger [
    | ok made ↦ with_configuration start_node (load_configuration u.host)
    | err e ↦ record { events = []; exit = fatal "failed to initialize zap logger: %v" }
    | panics ↦ record { events = []; exit = returns panics }
    | blocks ↦ record { events = []; exit = returns blocks }
  ]

-- The exit status of `main`; a panic's is 2, and a handler that does not return has none.
abbrev pub exit_code : Exit → Option ℕ
exit_code (returns (ok done)) = some 0
exit_code (returns (err e)) = some 1
exit_code (returns panics) = some 2
exit_code (returns blocks) = none
exit_code (fatal message) = some 1
