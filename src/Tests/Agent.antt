-- ===== src/Tests/Agent.antt =====
-- agent/src/quic/server.rs at concrete messages.
use oxmux.Prelude.{◌≡◌, refl, ℕ, true, false, List, [], ◌∷◌, none, arith, All}
use oxmux.Prelude.Text.{Text, codes}
use oxmux.Result.{Result, ok}
use oxmux.Agent.Frames.{send_raw, to_be_bytes, read_chunks, drain, drain_buffer}
use oxmux.Agent.Frames.Stream.{read_chunks-send_all}
use oxmux.Agent.Commands.{is_valid_pane_id, send_tmux_input}
use oxmux.Agent.Commands.WireFormat.{IsLine, input-IsLine}
use oxmux.Agent.Messages.{
  Value, uint, string, table, entry, end, AgentState, contains, handle_messages,
}
use oxmux.Agent.Messages.Wanted.{last_word, subscribed-last_word}
use oxmux.Agent.Messages.Written.{IsCommand, written-IsCommand}
use oxmux.Agent.Messages.Candidates.{queue_of, candidates-queued}

pub valid_pane : is_valid_pane_id (codes "%1") ≡ true
unfolding is_valid_pane_id
valid_pane = refl

-- a message of two bytes in two chunks
read_chunks-send_all_example :
    read_chunks [] ((0 ∷ 0 ∷ 0 ∷ 2 ∷ 7 ∷ []) ∷ (8 ∷ 0 ∷ []) ∷ []) ≡ ((7 ∷ 8 ∷ []) ∷ [], 0 ∷ [])
read_chunks-send_all_example =
    read_chunks-send_all ((7 ∷ 8 ∷ []) ∷ []) (0 ∷ []) ((0 ∷ 0 ∷ 0 ∷ 2 ∷ 7 ∷ []) ∷ (8 ∷ 0 ∷ []) ∷ [])
      (omega arith, tt) (unfold drain_buffer drain in refl) (unfold send_raw to_be_bytes in refl)

input-IsLine_example : All IsLine (send_tmux_input (codes "%1\nkill-server") (10 ∷ []))
input-IsLine_example = input-IsLine (codes "%1\nkill-server") (10 ∷ []) (omega arith, tt)

abbrev pub field : Text → Value
field t = string t

-- `{t, pane}`
abbrev pub about : Text → Text → Value
about t pane =
    table (entry (field (codes "t")) (string t) (entry (field (codes "pane")) (string pane) end))

abbrev resize_to : ℕ → ℕ → Value
resize_to cols rows = table (
    entry (field (codes "t")) (string (codes "r")) (
      entry (field (codes "pane")) (string (codes "%1"))
        (entry (field (codes "cols")) (uint cols) (entry (field (codes "rows")) (uint rows) end))))

abbrev ice : Value
ice = table (
    entry (field (codes "t")) (string (codes "webrtc_ice"))
      (entry (field (codes "candidate")) (string (codes "c")) end))

abbrev pub answering : Text → Result (ℕ × Text)
answering sdp = ok (1, sdp)

abbrev pub fresh : AgentState ℕ ℕ
fresh = record {
  subscribed_panes = [];
  pane_dimensions = [];
  has_stdin = true;
  written = [];
  sent = [];
  webrtc_pc = none;
  webrtc_dc = none;
  webrtc_remote_set = false;
  webrtc_pending_candidates = [];
  added = [];
  closed = [];
}

abbrev talk : List Value
talk =
    about (codes "sub") (codes "%1")
    ∷ about (codes "unsub") (codes "%1")
    ∷ about (codes "sub") (codes "%1")
    ∷ resize_to 80 24
    ∷ ice
    ∷ []

subscribed-last_word_example :
    contains (codes "%1") (handle_messages answering talk fresh).subscribed_panes
    ≡ last_word (codes "%1") talk (contains (codes "%1") [])
subscribed-last_word_example = subscribed-last_word answering (codes "%1") talk fresh valid_pane

written-IsCommand_example : All IsCommand (handle_messages answering talk fresh).written
written-IsCommand_example = written-IsCommand answering talk fresh tt

candidates-queued_example :
    ((handle_messages answering talk fresh).webrtc_remote_set ≡ false)
    × ((handle_messages answering talk fresh).added ≡ [])
    × ((handle_messages answering talk fresh).webrtc_pending_candidates ≡ queue_of talk [])
candidates-queued_example = candidates-queued answering talk fresh refl
