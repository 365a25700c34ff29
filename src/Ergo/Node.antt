-- ===== src/Ergo/Node.antt =====
-- pkg/ergo/node.go: the node's process, and the goroutines that copy its output and interrupt it.
-- What the operating system answers is a parameter.
pub mod Started
use Prim.Native.String.{◌++◌ as append}
use rosetta_ergo.Base.{
  String, List, [], ◌∷◌, ◌++◌, map, Option, none, some, Result, ok, err, panics, blocks, wrap_with,
}

pub record NodeConfiguration : Type 0 where
  pub network : String
  pub config_file_path : String

abbrev pub ergo_logger : String
ergo_logger = "ergo-node"

abbrev pub ergo_std_err_logger : String
ergo_std_err_logger = "ergo-node stderr"

-- The environment, `path.Join`, and what the process answers to each call. A pipe is named by
-- what `exec.Cmd` returns for it.
pub record NodeHost (Pipe : Type 0) : Type 0 where
  pub java_home : String
  pub join : String → String → String → String
  pub stdout_pipe : Result Pipe
  pub stderr_pipe : Result Pipe
  pub start : List String → Result (Unit {0})
  pub wait : Result (Unit {0})

-- The lines of the pipe, printed with the identifier in front, and the error of the scanner.
unfoldable pub log_pipe : List String → Result (Unit {0}) → String → List String × Result (Unit {0})
log_pipe lines scanned identifier =
    (map (λ text. append identifier (append ": " text)) lines, scanned)

-- The goroutines that are added to the group.
pub data NodeTask (Pipe : Type 0) : Type 0 where
  log_output : Pipe → String → NodeTask Pipe
  interrupt_node : NodeTask Pipe

module _ {Pipe : Type 0} (h : NodeHost Pipe) (cfg : NodeConfiguration) where
  unfoldable pub node_command : List String
  node_command =
      h.join h.java_home "bin" "java"
      ∷ "-Dfile.encoding=UTF-8"
      ∷ "-Xmx4g"
      ∷ "-jar"
      ∷ "/app/ergo.jar"
      ∷ append "--" cfg.network
      ∷ append "-c=" cfg.config_file_path
      ∷ []

  -- From the start of the process on.
  abbrev pub after_start :
      List (NodeTask Pipe) → Result (Unit {0}) → List (NodeTask Pipe) × Result (Unit {0})
  after_start tasks (ok u) = (tasks ++ interrupt_node ∷ [], h.wait)
  after_start tasks (err e) = (tasks, err e)
  after_start tasks panics = (tasks, panics)
  after_start tasks blocks = (tasks, blocks)

  abbrev pub with_pipes : Result Pipe → Result Pipe → List (NodeTask Pipe) × Result (Unit {0})
  with_pipes (ok stdout) (ok stderr) =
      after_start (log_output stdout ergo_logger ∷ log_output stderr ergo_std_err_logger ∷ [])
        (wrap_with "%w: unable to start ergo node" [] (h.start node_command))
  with_pipes (ok stdout) (err e) = ([], err e)
  with_pipes (ok stdout) panics = ([], panics)
  with_pipes (ok stdout) blocks = ([], blocks)
  with_pipes (err e) stderr = ([], err e)
  with_pipes panics stderr = ([], panics)
  with_pipes blocks stderr = ([], blocks)

  -- The goroutines that it leaves in the group, and what it returns.
  unfoldable pub start_ergo_node : List (NodeTask Pipe) × Result (Unit {0})
  unfolding node_command
  start_ergo_node = with_pipes h.stdout_pipe h.stderr_pipe
