-- ===== src/Cmd/Root.antt =====
-- cmd/root.go, cmd/version.go and `main` of main.go. What cobra makes of the arguments is a
-- parameter: a command with the flags that were given, or an error.
use Prim.Native.String.{◌++◌ as append}
use rosetta_ergo.Base.{
  ℕ, String, Bool, true, false, Option, none, some, List, [], ◌∷◌, Result, ok, err, panics, blocks,
}
use rosetta_ergo.Cmd.{Startup, Exit, returns, run_cmd_handler, exit_code}

pub data Command : Type 0 where
  run : Option Bool → Command
  version : Command

-- The flag `start-node` and its default.
abbrev pub start_node : Option Bool → Bool
start_node none = false
start_node (some given) = given

module _ {S : Type 0} where
  unfoldable pub call_all : List (S → S) → S → S
  call_all [] s = s
  call_all (listener ∷ listeners) s = call_all listeners (listener s)

  -- What the goroutine does when a signal comes: `SignalReceived`, and what the listeners do.
  unfoldable pub handle_signals : List (S → S) → Bool × S → Bool × S
  unfolding call_all
  handle_signals listeners (signal_received, s) = (true, call_all listeners s)

abbrev pub print_version : String → String
print_version version_text = append "rosetta-ergo v" (append version_text "\n")

module _ {DB Metadata : Type 0} (u : Startup DB Metadata) where
  -- What is printed, and how the command ends.
  unfoldable pub execute : Command → List String × Exit
  execute (run flag) = ([], (run_cmd_handler u (start_node flag)).exit)
  execute version = (print_version u.host.version ∷ [], returns (ok tt))

  -- The exit status, where it ends.
  unfoldable pub main : Result Command → Option ℕ
  unfolding execute
  main (ok command) = exit_code (execute command).1
  main (err e) = exit_code (returns (err e))
  main panics = exit_code (returns panics)
  main blocks = exit_code (returns blocks)
