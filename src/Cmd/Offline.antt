-- ===== src/Cmd/Offline.antt =====
-- The command of cmd/run.go when it is offline.
use rosetta_ergo.Base.{Bool, none, List, [], ◌∷◌, ◌≡◌, ◌≢◌, refl, Result, ok, err, panics, blocks}
use rosetta_ergo.Config.{Configuration, load_configuration, online}
use rosetta_ergo.Server.Offline.{not_eq, AnswersOffline, router-AnswersOffline}
use rosetta_ergo.Cmd.{
  HttpServer, listen_and_serve, shut_server_down, monitor_memory, Event, goes, waits, Startup,
  after_wait, new_server, serve, run_configured, run_cmd_handler,
}

module _ {DB Metadata : Type 0} (u : Startup DB Metadata) where
  after_wait-events :
      (events : List (Event Metadata)) (r : Result (Unit {0}))
      → (after_wait u events none r).events ≡ events
  after_wait-events events (ok x) = refl
  after_wait-events events (err e) = refl
  after_wait-events events panics = refl
  after_wait-events events blocks = refl

  -- Unless the loaded mode is online, and where zap and the server's asserter are made: whether or
  -- not the node is asked for, the command starts the monitor of the memory, the server and its
  -- shutdown, and nothing else. It neither starts the node or the indexer nor opens a database;
  -- and its server, which has neither a client nor a storage, answers /network/list with the
  -- configured network, refuses each request that reads the chain with `ErrUnavailableOffline`,
  -- and panics at /network/options.
  pub run_cmd_handler-AnswersOffline :
      (start_node : Bool) (cfg : Configuration)
      → u.new_logger ≡ ok tt
      → load_configuration u.host ≡ ok cfg
      → cfg.mode ≢ online
      → u.server_asserter cfg.network ≡ ok tt
      → (server : HttpServer Metadata) × ((run_cmd_handler u start_node).events
          ≡ goes monitor_memory
            ∷ goes (listen_and_serve server)
            ∷ goes shut_server_down
            ∷ waits
            ∷ [])
        × AnswersOffline cfg server.router
  unfolding run_cmd_handler
  run_cmd_handler-AnswersOffline start_node cfg made loaded off accepted = (
    new_server u cfg none,
    rw (made, run_cmd_handler)
        (rw loaded (
          rw (not_eq cfg.mode off, run_configured)
            (rw (accepted, serve) (after_wait-events _ (u.wait _))))),
    router-AnswersOffline DB cfg u.rosetta_version u.negate_value u.marshal_map off,
  )
