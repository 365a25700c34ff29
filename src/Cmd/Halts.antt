-- ===== src/Cmd/Halts.antt =====
-- When the command of cmd/run.go ends with status 0.
use mathlib.Core.List.{append_assoc}
use rosetta_ergo.Base.{
  Bool, true, Option, none, some, List, [], ◌∷◌, ◌++◌, ◌≡◌, ◌∙◌, refl, Result, ok, err, Err, panics,
  blocks, Among, Among-append, Among-append_left, Among-append_right, inl, inr, Bool-cases, ◌⊎◌,
  ◌==◌, if◌then◌else◌,
}
use rosetta_ergo.Config.{Configuration, load_configuration, online}
use rosetta_ergo.Ergo.Client.{Client}
use rosetta_ergo.Indexer.State.{Indexer}
use rosetta_ergo.Storage.{Storage, Closing, closed, not_closed, shutdown}
use rosetta_ergo.Server.{Dependencies}
use rosetta_ergo.Cmd.{
  HttpServer, Task, listen_and_serve, shut_server_down, monitor_memory, sync_indexer, Event, goes,
  opens, waits, closes, Startup, tasks_of, after_sync, after_shutdown, close_database, new_server,
  serve, with_dependencies, run_configured, with_configuration, run_cmd_handler, node_events,
  start_online_dependencies, exit_code,
}

-- What errgroup documents of `Wait`, and net/http of `ListenAndServe`: where a goroutine of the
-- group returns an error the group does, and `ListenAndServe` always returns an error.
pub record Documented {DB Metadata : Type 0} (u : Startup DB Metadata)
    (outcome : Task Metadata → Result (Unit {0})) : Type 0 where
  pub first_error :
      (tasks : List (Task Metadata)) (t : Task Metadata) (e : Err)
      → Among t tasks
      → outcome t ≡ err e
      → (e' : Err) × (u.wait tasks ≡ err e')
  pub serving_ends : (s : HttpServer Metadata) → (e : Err) × (outcome (listen_and_serve s) ≡ err e)

-- The group is waited for last, but for the database: it is closed after that if it was opened.
abbrev pub EndsWell : {Metadata : Type 0} → List (Event Metadata) → Type 0
EndsWell {Metadata} events =
    (before : List (Event Metadata)) × (((events ≡ before ++ waits ∷ []) × (¬ Among opens before))
      ⊎ ((events ≡ before ++ waits ∷ closes ∷ []) × Among opens before))

Among-tasks_of :
    {Metadata : Type 0} (t : Task Metadata) (before after : List (Event Metadata))
    → Among t (tasks_of (before ++ goes t ∷ after))
unfolding tasks_of
Among-tasks_of t [] after = inl refl
Among-tasks_of t (goes s ∷ before) after = inr (Among-tasks_of t before after)
Among-tasks_of t (opens ∷ before) after = Among-tasks_of t before after
Among-tasks_of t (waits ∷ before) after = Among-tasks_of t before after
Among-tasks_of t (closes ∷ before) after = Among-tasks_of t before after

opens_no_task : {Metadata : Type 0} (s t : Task Metadata) → ¬ Among opens (goes s ∷ goes t ∷ [])
opens_no_task s t (inl h) = cc h
opens_no_task s t (inr (inl h)) = cc h
opens_no_task s t (inr (inr h)) = h

opens_no_monitor :
    {Metadata : Type 0} → ¬ Among {A = Event Metadata} opens (goes monitor_memory ∷ [])
opens_no_monitor (inl h) = cc h
opens_no_monitor (inr h) = h

module _ {DB Metadata : Type 0} (u : Startup DB Metadata) where
  halt-signal :
      (e : Err) (synced : Result (Unit {0}))
      → exit_code (after_sync u synced (if u.signal_received then ok tt else err e)) ≡ some 0
      → u.signal_received ≡ true
  halt-signal e (ok x) h = elim (Bool-cases u.signal_received) [
    | inl yes_signal ↦ yes_signal
    | inr no_signal ↦ cc (rw no_signal at h)
  ]
  halt-signal e (err x) h = cc h
  halt-signal e panics h = cc h
  halt-signal e blocks h = cc h

  shutdown-signal :
      (events : List (Event Metadata)) (e : Err) (r : Result Closing)
      → exit_code (after_shutdown u events (err e) r).exit ≡ some 0
      → (u.signal_received ≡ true)
        × ((after_shutdown u events (err e) r).events ≡ events ++ closes ∷ [])
  shutdown-signal events e (ok closed) h = (halt-signal e u.sync_logger h, refl)
  shutdown-signal events e (ok (not_closed x)) h = cc h
  shutdown-signal events e (err x) h = cc h
  shutdown-signal events e panics h = cc h
  shutdown-signal events e blocks h = cc h

  -- Whether the database is open.
  abbrev IsOpen : List (Event Metadata) → Option (Storage DB) → Type 0
  IsOpen events none = ¬ Among opens events
  IsOpen events (some storage) = Among opens events

  closed-EndsWell :
      (events : List (Event Metadata)) (e : Err) (opened : Option (Storage DB))
      → IsOpen events opened
      → exit_code (close_database u (events ++ waits ∷ []) (err e) opened).exit ≡ some 0
      → (u.signal_received ≡ true)
        × EndsWell (close_database u (events ++ waits ∷ []) (err e) opened).events
  closed-EndsWell events e none is_open h =
      (halt-signal e u.sync_logger h, (events, inl (refl, is_open)))
  closed-EndsWell events e (some storage) is_open h =
      let (signal, same) =
        shutdown-signal (events ++ waits ∷ []) e (shutdown u.libraries storage) h in
      (signal, (events, inr (same ∙ append_assoc events (waits ∷ []) (closes ∷ []), is_open)))

  IsOpen-append :
      (events after : List (Event Metadata)) (opened : Option (Storage DB))
      → ¬ Among opens after
      → IsOpen events opened
      → IsOpen (events ++ after) opened
  IsOpen-append events after none none_later h =
      λ m. elim (Among-append opens events after m) [ inl l ↦ h l | inr r ↦ none_later r ]
  IsOpen-append events after (some storage) none_later h = Among-append_left opens events after h

  module _ (outcome : Task Metadata → Result (Unit {0})) (documented : Documented u outcome) where
    serve-EndsWell :
        (events : List (Event Metadata)) (cfg : Configuration) (d : Option (Dependencies DB))
        (opened : Option (Storage DB)) (accepted : Result (Unit {0}))
        → u.server_asserter cfg.network ≡ accepted
        → IsOpen events opened
        → exit_code (serve u events cfg d opened).exit ≡ some 0
        → (u.signal_received ≡ true) × EndsWell (serve u events cfg d opened).events
    unfolding serve
    serve-EndsWell events cfg d opened (ok x) q is_open h =
        let server = new_server u cfg d in
        let after = goes (listen_and_serve server) ∷ goes shut_server_down ∷ [] in
        let (e, ends) = documented.serving_ends server in
        let (e', waited) =
          documented.first_error (tasks_of (events ++ after)) (listen_and_serve server) e
            (Among-tasks_of (listen_and_serve server) events _) ends in
        rw (q, serve)
          (rw waited (
            closed-EndsWell (events ++ after) e' opened
              (IsOpen-append events after opened (opens_no_task _ _) is_open)
              (rw waited at (rw (q, serve) at h))))
    serve-EndsWell events cfg d opened (err x) q is_open h = cc (rw (q, serve) at h)
    serve-EndsWell events cfg d opened panics q is_open h = cc (rw (q, serve) at h)
    serve-EndsWell events cfg d opened blocks q is_open h = cc (rw (q, serve) at h)

    dependencies-EndsWell :
        (events : List (Event Metadata)) (cfg : Configuration)
        (r : Result (Client × Indexer DB × Storage DB))
        → exit_code (with_dependencies u events cfg r).exit ≡ some 0
        → (u.signal_received ≡ true) × EndsWell (with_dependencies u events cfg r).events
    dependencies-EndsWell events cfg (ok (client, i, storage)) h =
        serve-EndsWell (events ++ opens ∷ goes sync_indexer ∷ []) cfg
          (some
            (record { client = client; storage = u.libraries.modules; reads = λ n. storage.db }))
          (some storage) (u.server_asserter cfg.network) refl
          (Among-append_right opens events _ (inl refl)) h
    dependencies-EndsWell events cfg (err e) h = cc h
    dependencies-EndsWell events cfg panics h = cc h
    dependencies-EndsWell events cfg blocks h = cc h

    configured-EndsWell :
        (start_node : Bool) (cfg : Configuration)
        → exit_code (run_configured u start_node cfg).exit ≡ some 0
        → (u.signal_received ≡ true) × EndsWell (run_configured u start_node cfg).events
    unfolding run_configured
    configured-EndsWell start_node cfg h = elim (Bool-cases (cfg.mode == online)) [
      | inl on ↦ rw on (
          dependencies-EndsWell (goes monitor_memory ∷ node_events u start_node cfg) cfg
            (start_online_dependencies u cfg) (rw on at h))
      | inr off ↦ rw off (
          serve-EndsWell (goes monitor_memory ∷ []) cfg none none (u.server_asserter cfg.network)
            refl (opens_no_monitor) (rw off at h))
    ]

    with_configuration-EndsWell :
        (start_node : Bool) (r : Result Configuration)
        → exit_code (with_configuration u start_node r).exit ≡ some 0
        → (u.signal_received ≡ true) × EndsWell (with_configuration u start_node r).events
    with_configuration-EndsWell start_node (ok cfg) h = configured-EndsWell start_node cfg h
    with_configuration-EndsWell start_node (err e) h = cc h
    with_configuration-EndsWell start_node panics h = cc h
    with_configuration-EndsWell start_node blocks h = cc h

    run-EndsWell :
        (start_node : Bool) (made : Result (Unit {0}))
        → u.new_logger ≡ made
        → exit_code (run_cmd_handler u start_node).exit ≡ some 0
        → (u.signal_received ≡ true) × EndsWell (run_cmd_handler u start_node).events
    unfolding run_cmd_handler
    run-EndsWell start_node (ok x) q h =
        rw (q, run_cmd_handler)
          (with_configuration-EndsWell start_node (load_configuration u.host)
            (rw (q, run_cmd_handler) at h))
    run-EndsWell start_node (err e) q h = cc (rw (q, run_cmd_handler) at h)
    run-EndsWell start_node panics q h = cc (rw (q, run_cmd_handler) at h)
    run-EndsWell start_node blocks q h = cc (rw (q, run_cmd_handler) at h)

    -- Where errgroup returns an error if one of its goroutines does, and `ListenAndServe` always
    -- returns one: if the command ends with status 0 then a signal was received, the group was
    -- waited for after everything was started, and a database that was opened was closed after
    -- that; so the status 0 means a halt that was asked for.
    pub run_cmd_handler-EndsWell :
        (start_node : Bool)
        → exit_code (run_cmd_handler u start_node).exit ≡ some 0
        → (u.signal_received ≡ true) × EndsWell (run_cmd_handler u start_node).events
    run_cmd_handler-EndsWell start_node h = run-EndsWell start_node u.new_logger refl h
