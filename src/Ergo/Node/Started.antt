-- ===== src/Ergo/Node/Started.antt =====
-- When the node's process is interrupted.
use Prim.Native.String.{◌++◌ as append}
use rosetta_ergo.Base.{
  String, List, [], ◌∷◌, ◌≡◌, refl, ◌↔◌, Result, ok, err, panics, blocks, wrap_with, Among, inl,
  inr,
}
use rosetta_ergo.Ergo.Node.{
  NodeConfiguration, NodeHost, NodeTask, log_output, interrupt_node, node_command, after_start,
  with_pipes, start_ergo_node, ergo_logger, ergo_std_err_logger,
}

-- The command line of the node: its options, its network and its configuration file.
abbrev pub command_line : {Pipe : Type 0} → NodeHost Pipe → NodeConfiguration → List String
command_line h cfg =
    h.join h.java_home "bin" "java"
    ∷ "-Dfile.encoding=UTF-8"
    ∷ "-Xmx4g"
    ∷ "-jar"
    ∷ "/app/ergo.jar"
    ∷ append "--" cfg.network
    ∷ append "-c=" cfg.config_file_path
    ∷ []

-- The process was started with that command line, and with both pipes.
pub record HasStarted {Pipe : Type 0} (h : NodeHost Pipe) (cfg : NodeConfiguration) : Type 0 where
  pub stdout : Pipe
  pub stderr : Pipe
  pub has_stdout : h.stdout_pipe ≡ ok stdout
  pub has_stderr : h.stderr_pipe ≡ ok stderr
  pub starts : h.start (command_line h cfg) ≡ ok tt

module _ {Pipe : Type 0} (h : NodeHost Pipe) (cfg : NodeConfiguration) where
  abbrev logs : Pipe → Pipe → List (NodeTask Pipe)
  logs p q = log_output p ergo_logger ∷ log_output q ergo_std_err_logger ∷ []

  not-Among-logs : (p q : Pipe) → ¬ Among interrupt_node (logs p q)
  not-Among-logs p q (inl e) = cc e
  not-Among-logs p q (inr (inl e)) = cc e
  not-Among-logs p q (inr (inr m)) = m

  started_ok :
      (p q : Pipe) (s : Result (Unit {0}))
      → Among interrupt_node
          (after_start h cfg (logs p q) (wrap_with "%w: unable to start ergo node" [] s)).0
      → s ≡ ok tt
  started_ok p q (ok tt) m = refl
  started_ok p q (err e) m = absurd (not-Among-logs p q m)
  started_ok p q panics m = absurd (not-Among-logs p q m)
  started_ok p q blocks m = absurd (not-Among-logs p q m)

  pipes_HasStarted :
      (a b : Result Pipe)
      → h.stdout_pipe ≡ a
      → h.stderr_pipe ≡ b
      → Among interrupt_node (with_pipes h cfg a b).0
      → HasStarted h cfg
  pipes_HasStarted (ok p) (ok q) e e' m = record {
    stdout = p;
    stderr = q;
    has_stdout = e;
    has_stderr = e';
    starts = unfold node_command in started_ok p q (h.start (node_command h cfg)) m;
  }
  pipes_HasStarted (ok p) (err x) e e' m = absurd m
  pipes_HasStarted (ok p) panics e e' m = absurd m
  pipes_HasStarted (ok p) blocks e e' m = absurd m
  pipes_HasStarted (err x) b e e' m = absurd m
  pipes_HasStarted panics b e e' m = absurd m
  pipes_HasStarted blocks b e e' m = absurd m

  run_started :
      (g : HasStarted h cfg)
      → start_ergo_node h cfg ≡ (
        log_output g.stdout ergo_logger
            ∷ log_output g.stderr ergo_std_err_logger
            ∷ interrupt_node
            ∷ [],
        h.wait,
      )
  unfolding start_ergo_node node_command
  run_started g = rw (g.has_stdout, start_ergo_node) (rw (g.has_stderr) (rw g.starts))

  -- The goroutine that interrupts the node when the context is cancelled is added to the group
  -- exactly where both pipes were made and the process was started as `java` with
  -- the node's jar, the option of the configured network and the configured file. Then the two that copy its output are there too, and the call returns what
  -- the process's `Wait` returns.
  pub start_ergo_node-HasStarted :
      (Among interrupt_node (start_ergo_node h cfg).0 ↔ HasStarted h cfg)
      × ((g : HasStarted h cfg)
          → start_ergo_node h cfg ≡ (
            log_output g.stdout ergo_logger
                ∷ log_output g.stderr ergo_std_err_logger
                ∷ interrupt_node
                ∷ [],
            h.wait,
          ))
  start_ergo_node-HasStarted = (
    (
      λ m. pipes_HasStarted h.stdout_pipe h.stderr_pipe refl refl (unfold start_ergo_node in m),
      λ g. rw (run_started g) (inr (inr (inl refl))),
    ),
    run_started,
  )
