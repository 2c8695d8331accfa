-- ===== src/Agent/Control.antt =====
-- agent/src/quic/server.rs: `run_control_mode`, and the task of `handle_session` that starts it again and
-- again. Starting a program, the directory /tmp and the lines that the program writes are parameters.
pub mod Outputs
use oxmux.Prelude.{
  ℕ, zero, suc, Bool, List, [], ◌∷◌, ◌++◌, Option, none, some, if◌then◌else◌, length,
}
use oxmux.Prelude.Text.{Text, codes}
use oxmux.Result.{Result, ok, err}
use oxmux.Agent.Tmux.{find_socket}
use oxmux.Agent.Session.{output_line}
use oxmux.Agent.Session.Start.{control_command}

-- what one start meets
pub record Run : Type 0 where
  -- /tmp, and whether a path exists
  pub names : List Text
  pub exists : Text → Bool
  pub spawns : Bool
  pub has_stdin : Bool
  pub has_stdout : Bool
  -- the lines, `none` for a read that fails, as it does at a line that is not UTF-8
  pub read : List (Option Text)
  -- how many outputs the channel takes before its receiver is gone
  pub takes : ℕ

pub record ControlMode : Type 0 where
  -- the programs that were to be started, oldest first
  pub started : List Text
  -- the pipe of a program, by its place among those
  pub ctrl_stdin : Option ℕ
  -- the outputs put into the channel
  pub output_tx : List (Text × List ℕ)

-- the loop over the lines
unfoldable pub send_lines : ℕ → List (Option Text) → List (Text × List ℕ)
unfolding output_line
send_lines takes [] = []
send_lines takes (none ∷ rest) = []
send_lines takes (some line ∷ rest) = elim (output_line line) [
  | none ↦ send_lines takes rest
  | some out ↦ elim takes [ zero ↦ [] | suc n ↦ out ∷ send_lines n rest ]
]

unfoldable pub run_control_mode : Text → Run → ControlMode → Result (Unit {0}) × ControlMode
unfolding send_lines control_command find_socket
run_control_mode session_name r m =
    let wrapper = control_command (find_socket r.exists r.names) session_name in
    let m1 = record m { started = m.started ++ wrapper ∷ [] } in
    let m2 = record m1 { ctrl_stdin = some (length m.started) } in
    if r.spawns
    then if r.has_stdin
      then if r.has_stdout
        then (ok tt, record m2 { output_tx = m.output_tx ++ send_lines r.takes r.read })
        else (err (codes "no stdout"), m2)
      else (err (codes "no stdin"), m1)
    else (err (codes "failed to spawn tmux -CC via script"), m1)

-- the runs up to the time the task is stopped; how a run ends goes to the log only
unfoldable pub control_loop : Text → List Run → ControlMode → ControlMode
unfolding run_control_mode
control_loop session_name [] m = m
control_loop session_name (r ∷ runs) m =
    control_loop session_name runs (run_control_mode session_name r m).1
