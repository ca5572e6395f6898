-- ===== src/Gateway/Tasks/Signals.antt =====
-- src/main.rs: the reloads on signals, from the start of the process on.
use mcpstead.Base.{ℕ, ◌≡◌, String, Option, none, some, List, [], ◌∷◌, Result, ok}
use mcpstead.Config.{Config}
use mcpstead.State.App.{AppState}
use mcpstead.Reload.{reload_config}
use mcpstead.Reload.Sound.{IsSound, reload_config-IsSound}
use mcpstead.Gateway.Startup.{startup}
use mcpstead.Gateway.Startup.Started.{startup-IsSound}
use mcpstead.Gateway.Tasks.{Signal, stop, hangup, reload_signals, reload_signal_task}

module _ (from_str : String → Option Config) (env : String → Option String) {V : Type 0} where
  reload_signals-IsSound :
      (signals : List Signal) (s : AppState V)
      → IsSound s
      → IsSound (reload_signals from_str env signals s)
  unfolding reload_signals
  reload_signals-IsSound [] s d = d
  reload_signals-IsSound (stop ∷ rest) s d = d
  reload_signals-IsSound (hangup unix_now read_to_string ∷ rest) s d =
      reload_signals-IsSound rest (reload_config read_to_string from_str env unix_now s).1
        (reload_config-IsSound read_to_string from_str env unix_now s d)

  reload_signal_task-IsSound :
      (signals : Option (List Signal)) (s : AppState V)
      → IsSound s
      → IsSound (reload_signal_task from_str env signals s)
  unfolding reload_signal_task
  reload_signal_task-IsSound none s d = d
  reload_signal_task-IsSound (some signals) s d = reload_signals-IsSound signals s d

module _ (read_to_string : String → Option String) (from_str : String → Option Config)
    (env : String → Option String) (build_clients : Result String (Unit {0})) {Addr : Type 0}
    (parse_addr : String → Option Addr) (bind : Addr → Result String (Unit {0})) where
  -- Once the process serves, its state is sound behind every sequence of signals, whatever the file
  -- holds at each of them: the live configuration is valid, the registry has its servers
  -- and no others, and each of them, and no other, has a managing task.
  pub startup-reload_signal_task :
      (V : Type 0) (now unix_now : ℕ) (config_arg : Option String) (signals : Option (List Signal))
      (s : AppState V)
      → startup read_to_string from_str env build_clients parse_addr bind now unix_now config_arg
        ≡ ok s
      → IsSound (reload_signal_task from_str env signals s)
  startup-reload_signal_task V now unix_now config_arg signals s h =
      reload_signal_task-IsSound from_str env signals s (
        startup-IsSound read_to_string from_str env build_clients parse_addr bind V now unix_now
          config_arg s h)
