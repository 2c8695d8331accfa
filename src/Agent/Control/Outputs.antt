-- ===== src/Agent/Control/Outputs.antt =====
-- agent/src/quic/server.rs: what `run_control_mode` puts into the channel, over all its starts, against what
-- tmux writes.
use oxmux.Prelude.{
  ℕ, suc, ◌≤◌, ◌≡◌, refl, ap, sym, ◌∙◌, Bool, ◌&&◌, List, [], ◌∷◌, ◌++◌, Option, none, some,
  if◌then◌else◌, length, arith, append-nil, append_assoc, zero,
}
use oxmux.Prelude.Text.{
  Text, codes, Lacks, strip_prefix, split_once-append, trim_end_matches, trim_end_matches-Lacks,
}
use oxmux.Tmux.Decode.RoundTrip.{bytes_of, render, decode-render_both}
use oxmux.Tmux.Control.Print.{
  Notice, output, session_changed, session_created, window_renamed, layout_change, session_closed,
  window_add, window_close, pane_mode_changed, exit, exit_because, print, IsNotice,
}
use oxmux.Agent.Session.{pane_output, trimmed_line, output_line}
use oxmux.Agent.Control.{Run, ControlMode, send_lines, run_control_mode, control_loop}

-- a line that tmux writes
pub data Written : Type 0 where
  notice : Notice → Written
  -- of a command's answer, or a kind of notification that the agent does not know
  other : Text → Written
  garbled : Written

abbrev pub IsWritten : Written → Type 0
IsWritten (notice n) = IsNotice n × Lacks b'\r' (print n)
IsWritten (other line) = strip_prefix (codes "%output ") (trim_end_matches b'\r' line) ≡ none
IsWritten garbled = Unit

abbrev pub AreWritten : List Written → Type 0
AreWritten [] = Unit
AreWritten (w ∷ ws) = IsWritten w × AreWritten ws

-- what a read of it gives
abbrev pub line_of : Written → Option Text
line_of (notice n) = some (print n)
line_of (other line) = some line
line_of garbled = none

abbrev pub lines_of : List Written → List (Option Text)
lines_of [] = []
lines_of (w ∷ ws) = line_of w ∷ lines_of ws

-- the output that a notification tells of
abbrev output_of : Notice → Option (Text × List ℕ)
output_of (output pane ps) = some (pane, bytes_of ps)
output_of _ = none

abbrev or_skip : Option (Text × List ℕ) → List (Text × List ℕ) → List (Text × List ℕ)
or_skip none outs = outs
or_skip (some out) outs = out ∷ outs

-- the outputs in front of the first line that cannot be read
abbrev pub outputs_of : List Written → List (Text × List ℕ)
outputs_of [] = []
outputs_of (notice n ∷ ws) = or_skip (output_of n) (outputs_of ws)
outputs_of (other line ∷ ws) = outputs_of ws
outputs_of (garbled ∷ ws) = []

trimmed_line-print : (n : Notice) → IsNotice n → trimmed_line (print n) ≡ output_of n
unfolding trimmed_line print strip_prefix
trimmed_line-print (output pane ps) h =
    ap pane_output (split_once-append b' ' pane (render ps) h.0)
    ∙ ap (λ bytes. some (pane, bytes)) (decode-render_both ps h.1).1
trimmed_line-print (session_changed a b) h = refl
trimmed_line-print (session_created a b) h = refl
trimmed_line-print (window_renamed a b) h = refl
trimmed_line-print (layout_change a b) h = refl
trimmed_line-print (session_closed a) h = refl
trimmed_line-print (window_add a) h = refl
trimmed_line-print (window_close a) h = refl
trimmed_line-print (pane_mode_changed a) h = refl
trimmed_line-print (exit) h = refl
trimmed_line-print (exit_because a) h = refl

output_line-print :
    (n : Notice) → IsNotice n → Lacks b'\r' (print n) → output_line (print n) ≡ output_of n
unfolding output_line
output_line-print n h cr = rw (trim_end_matches-Lacks b'\r' (print n) cr) (trimmed_line-print n h)

output_line-other : (line : Text) → IsWritten (other line) → output_line line ≡ none
unfolding output_line trimmed_line
output_line-other line h = rw (h, trimmed_line) refl

abbrev sent_on : ℕ → Option (Text × List ℕ) → List (Option Text) → List (Text × List ℕ)
sent_on takes none rest = send_lines takes rest
sent_on zero (some out) rest = []
sent_on (suc n) (some out) rest = out ∷ send_lines n rest

send_lines-step :
    (takes : ℕ) (line : Text) (o : Option (Text × List ℕ)) (rest : List (Option Text))
    → output_line line ≡ o
    → send_lines takes (some line ∷ rest) ≡ sent_on takes o rest
unfolding send_lines
send_lines-step zero line none rest h = rw (h, send_lines) refl
send_lines-step (suc n) line none rest h = rw (h, send_lines) refl
send_lines-step zero line (some out) rest h = rw (h, send_lines) refl
send_lines-step (suc n) line (some out) rest h = rw (h, send_lines) refl

sent_on-room :
    (takes : ℕ) (o : Option (Text × List ℕ)) (ws : List Written)
    → ((n : ℕ) → length (outputs_of ws) ≤ n → send_lines n (lines_of ws) ≡ outputs_of ws)
    → length (or_skip o (outputs_of ws)) ≤ takes
    → sent_on takes o (lines_of ws) ≡ or_skip o (outputs_of ws)
sent_on-room takes none ws each room = each takes room
sent_on-room zero (some out) ws each room = absurd (omega arith)
sent_on-room (suc n) (some out) ws each room = ap (λ t. out ∷ t) (each n (omega arith))

-- one run, with room in the channel
send_lines-written :
    (takes : ℕ) (ws : List Written)
    → AreWritten ws
    → length (outputs_of ws) ≤ takes
    → send_lines takes (lines_of ws) ≡ outputs_of ws
unfolding send_lines
send_lines-written takes [] h room = refl
send_lines-written takes (garbled ∷ ws) h room = refl
send_lines-written takes (other line ∷ ws) h room =
    send_lines-step takes line none (lines_of ws) (output_line-other line h.0)
    ∙ send_lines-written takes ws h.1 room
send_lines-written takes (notice n ∷ ws) h room =
    send_lines-step takes (print n) (output_of n) (lines_of ws) (output_line-print n h.0.0 h.0.1)
    ∙ sent_on-room takes (output_of n) ws (λ m. send_lines-written m ws h.1) room

abbrev pub attaches : Run → Bool
attaches r = r.spawns && r.has_stdin && r.has_stdout

-- what tmux writes in each run, and its receiver stays for all outputs
abbrev pub AreRuns : List Run → List (List Written) → Type 0
AreRuns [] [] = Unit
AreRuns [] (ws ∷ written) = ⊥
AreRuns (r ∷ runs) [] = ⊥
AreRuns (r ∷ runs) (ws ∷ written) =
    (r.read ≡ lines_of ws)
    × AreWritten ws
    × (length (outputs_of ws) ≤ r.takes)
    × AreRuns runs written

-- the outputs of those runs whose program was started with both pipes
abbrev pub all_outputs : List Run → List (List Written) → List (Text × List ℕ)
all_outputs [] written = []
all_outputs (r ∷ runs) [] = []
all_outputs (r ∷ runs) (ws ∷ written) =
    (if attaches r then outputs_of ws else []) ++ all_outputs runs written

run-output_tx :
    (session_name : Text) (r : Run) (ws : List Written) (m : ControlMode)
    → r.read ≡ lines_of ws
    → AreWritten ws
    → length (outputs_of ws) ≤ r.takes
    → (run_control_mode session_name r m).1.output_tx
      ≡ m.output_tx ++ (if attaches r then outputs_of ws else [])
unfolding run_control_mode
run-output_tx session_name r ws m e h room =
    let sent : send_lines r.takes r.read ≡ outputs_of ws =
      ap (send_lines r.takes) e ∙ send_lines-written r.takes ws h room in
    ground (arith, sent, append-nil m.output_tx)

-- The control mode is started again whenever it ends. What its runs have put into the channel, while
-- the channel has its receiver, is in order the outputs that tmux wrote in those runs whose program
-- was started with both its pipes: of each run those in front of the first line that is not UTF-8,
-- with the pane's bytes as they were before tmux escaped them. Other lines put nothing into it.
pub control_loop-outputs :
    (session_name : Text) (runs : List Run) (written : List (List Written)) (m : ControlMode)
    → AreRuns runs written
    → (control_loop session_name runs m).output_tx ≡ m.output_tx ++ all_outputs runs written
unfolding control_loop
control_loop-outputs session_name [] written m h = sym (append-nil m.output_tx)
control_loop-outputs session_name (r ∷ runs) [] m h = absurd h
control_loop-outputs session_name (r ∷ runs) (ws ∷ written) m (e, h, room, more) =
    control_loop-outputs session_name runs written (run_control_mode session_name r m).1 more
    ∙ (ap (λ t. t ++ all_outputs runs written) (run-output_tx session_name r ws m e h room)
        ∙ append_assoc m.output_tx (if attaches r then outputs_of ws else [])
            (all_outputs runs written))
