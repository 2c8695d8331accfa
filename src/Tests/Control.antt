-- ===== src/Tests/Control.antt =====
-- agent/src/quic/server.rs, the control mode in two runs and a start that fails.
use oxmux.Prelude.{◌≡◌, refl, Bool, true, false, List, [], ◌∷◌, none, some, arith}
use oxmux.Prelude.Text.{codes, strip_prefix, trim_end_matches}
use oxmux.Tmux.Decode.RoundTrip.{plain, escaped, render, bytes_of}
use oxmux.Tmux.Decode.{encode_utf8}
use oxmux.Tmux.Control.Print.{output, print, window_add}
use oxmux.Agent.Control.{Run, ControlMode, run_control_mode, control_loop}
use oxmux.Agent.Control.Outputs.{
  Written, notice, other, garbled, AreWritten, lines_of, all_outputs, control_loop-outputs,
}

abbrev run_of : Bool → List Written → Run
run_of spawns written = record {
  names = [];
  exists = λ path. false;
  spawns = spawns;
  has_stdin = true;
  has_stdout = true;
  read = lines_of written;
  takes = 9;
}

-- the second output stands behind a line that is not UTF-8
abbrev first : List Written
first =
    other (codes "%begin 1 2 0")
    ∷ notice (output (codes "%1") (plain b'h' ∷ escaped 10 ∷ []))
    ∷ notice (window_add (codes "@2"))
    ∷ garbled
    ∷ notice (output (codes "%1") (plain b'x' ∷ []))
    ∷ []

abbrev second : List Written
second = notice (output (codes "%2") (escaped 27 ∷ [])) ∷ []

abbrev runs : List Run
runs = run_of true first ∷ run_of false first ∷ run_of true second ∷ []

abbrev before : ControlMode
before = record { started = []; ctrl_stdin = none; output_tx = [] }

-- the output behind the line that is not UTF-8 does not reach the client
behind_lost :
    all_outputs runs (first ∷ first ∷ second ∷ [])
    ≡ (codes "%1", b'h' ∷ 10 ∷ []) ∷ (codes "%2", 27 ∷ []) ∷ []
unfolding bytes_of encode_utf8
behind_lost = refl

-- the pipe that is left is that of the third start
third_stdin : (control_loop (codes "main") runs before).ctrl_stdin ≡ some 2
unfolding control_loop run_control_mode
third_stdin = refl

first-AreWritten : AreWritten first
unfolding strip_prefix trim_end_matches print render
first-AreWritten = (
  refl,
  (
    (((refl, (refl, tt)), (refl, (omega arith, tt))), grind arith),
    ((tt, grind arith), (tt, ((((refl, (refl, tt)), (refl, tt)), grind arith), tt))),
  ),
)

second-AreWritten : AreWritten second
unfolding print render
second-AreWritten = ((((refl, (refl, tt)), (omega arith, tt)), grind arith), tt)

control_loop-outputs_example :
    (control_loop (codes "main") runs before).output_tx
    ≡ all_outputs runs (first ∷ first ∷ second ∷ [])
control_loop-outputs_example =
    control_loop-outputs (codes "main") runs (first ∷ first ∷ second ∷ []) before (
      refl,
      first-AreWritten,
      omega arith,
      (refl, first-AreWritten, omega arith, (refl, second-AreWritten, omega arith, tt)),
    )
