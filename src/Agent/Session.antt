-- ===== src/Agent/Session.antt =====
-- agent/src/quic/server.rs, `handle_session`: the first message, and the loop over messages and output. The
-- library `rmpv`, which decodes a message, is a parameter.
pub mod Admits
pub mod Forward
pub mod Start
use oxmux.Prelude.{
  ℕ, zero, suc, ◌+◌, ◌&&◌, Bool, true, false, List, [], ◌∷◌, ◌++◌, Option, none, some, leb,
  if◌then◌else◌, is_empty, length, take, drop,
}
use oxmux.Prelude.Text.{Text, codes, strip_prefix, split_once, trim_end_matches}
use oxmux.Result.{Result, ok, err}
use oxmux.Tmux.Decode.{agent_decode_tmux_output}
use oxmux.Agent.Frames.{from_be_bytes, drain_buffer}
use oxmux.Agent.Messages.{Value, get_str, AgentState, contains, handle_message, handle_messages}

abbrev pub pane_output : Option (Text × Text) → Option (Text × List ℕ)
pane_output none = none
pane_output (some (pane_id, encoded)) = some (pane_id, agent_decode_tmux_output encoded)

-- `run_control_mode`: a line of tmux's output without the carriage returns at its end, decoded
unfoldable pub trimmed_line : Text → Option (Text × List ℕ)
trimmed_line line = elim (strip_prefix (codes "%output ") line) [
  | none ↦ none
  | some rest ↦ pane_output (split_once b' ' rest)
]

unfoldable pub output_line : Text → Option (Text × List ℕ)
unfolding trimmed_line
output_line line = trimmed_line (trim_end_matches b'\r' line)

-- the message at the front of the buffer, once all of it has come
unfoldable pub whole_message : List ℕ → Option (List ℕ)
whole_message (a ∷ b ∷ c ∷ d ∷ s) =
    let len = from_be_bytes a b c d in if leb len (length s) then some (take len s) else none
whole_message _ = none

-- "Read length-prefixed first message": the message, and the reads that are still to come. What the
-- last read brought behind the message is not kept.
unfoldable pub read_first : List ℕ → List (List ℕ) → Option (List ℕ × List (List ℕ))
unfolding whole_message
read_first first_buf [] = none
read_first first_buf (chunk ∷ chunks) =
    let more = read_first (first_buf ++ chunk) chunks in
    if is_empty chunk
    then none
    else elim (whole_message (first_buf ++ chunk)) [ some msg ↦ some (msg, chunks) | none ↦ more ]

unfoldable pub session_name : Value → Text
unfolding get_str
session_name first_msg =
    let name = get_str first_msg (codes "name") in if is_empty name then codes "default" else name

-- how an output went to the client
pub data Via : Type 0 where
  data_channel : Via
  quic_stream : Via

-- what a round of the loop selects
pub data Selected : Type 0 where
  -- of the control mode; `stream_up`: whether a write to the stream would succeed
  output : (pane_id : Text) (bytes : List ℕ) (stream_up : Bool) → Selected
  -- the control mode's channel is closed
  restarting : Selected
  dc_msg : List ℕ → Selected
  chunk : List ℕ → Selected
  read_error : Selected

pub record Session (Peer Channel : Type 0) : Type 0 where
  pub agent : AgentState Peer Channel
  pub stream_buf : List ℕ
  -- what was forwarded, oldest first
  pub forwarded : List (Via × Text × List ℕ)

abbrev pub decoded : (List ℕ → Option Value) → List (List ℕ) → List Value
decoded decode [] = []
decoded decode (m ∷ ms) = elim (decode m) [
  | none ↦ decoded decode ms
  | some msg ↦ msg ∷ decoded decode ms
]

abbrev pub sent_via_dc : {Channel : Type 0} → (Channel → Bool) → Option Channel → Bool
sent_via_dc dc_sends none = false
sent_via_dc dc_sends (some dc) = dc_sends dc

-- `dc_sends`: whether the data channel is open, and a send on it succeeds
module _ {Peer Channel : Type 0} (dc_sends : Channel → Bool) where
  abbrev log : Via → Text → List ℕ → Session Peer Channel → Session Peer Channel
  log via pane_id bytes s = record s { forwarded = s.forwarded ++ (via, pane_id, bytes) ∷ [] }

  -- the data channel first, then the stream; whether the loop goes on
  unfoldable pub forward : Text → List ℕ → Bool → Session Peer Channel → Bool × Session Peer Channel
  forward pane_id bytes stream_up s =
      if sent_via_dc dc_sends s.agent.webrtc_dc
      then (true, log data_channel pane_id bytes s)
      else if stream_up
      then (true, log quic_stream pane_id bytes s)
      else (false, s)

module _ {Peer Channel : Type 0} (create_webrtc_answer : Text → Result (Peer × Text))
    (decode : List ℕ → Option Value) (dc_sends : Channel → Bool) where
  -- "Process buffered messages"; of a message that is none, only a line goes to the log
  unfoldable pub process_buffer : Session Peer Channel → Session Peer Channel
  unfolding drain_buffer handle_messages
  process_buffer s =
      let (msgs, rest) = drain_buffer s.stream_buf in
      record s {
        agent = handle_messages create_webrtc_answer (decoded decode msgs) s.agent;
        stream_buf = rest;
      }

  unfoldable pub select : Selected → Session Peer Channel → Bool × Session Peer Channel
  unfolding forward handle_messages
  select (output pane_id bytes stream_up) s =
      if contains pane_id s.agent.subscribed_panes
      then forward dc_sends pane_id bytes stream_up s
      else (true, s)
  select restarting s = (true, s)
  select (dc_msg bytes) s = (
    true,
    record s { agent = handle_messages create_webrtc_answer (decoded decode (bytes ∷ [])) s.agent },
  )
  select (chunk bytes) s =
      if is_empty bytes then (false, s) else (true, record s { stream_buf = s.stream_buf ++ bytes })
  select read_error s = (false, s)

  unfoldable pub message_loop : List Selected → Session Peer Channel → Session Peer Channel
  unfolding process_buffer select
  message_loop [] s = s
  message_loop (t ∷ turns) s =
      let (goes_on, s') = select t (process_buffer s) in
      let rest = message_loop turns s' in if goes_on then rest else s'

  -- "Close WebRTC peer connection if active"
  abbrev pub close_peer : AgentState Peer Channel → AgentState Peer Channel
  close_peer a = elim a.webrtc_pc [
    | none ↦ a
    | some pc ↦ record a { webrtc_pc = none; closed = pc ∷ a.closed }
  ]

  -- from the first message on; `turns` is what the rounds select, the later reads among them; `none`
  -- when the connection ends before the message, or it cannot be decoded; tmux grants `ensure_session`
  unfoldable pub serve :
      List (List ℕ) → List Selected → AgentState Peer Channel → Option (Text × Session Peer Channel)
  unfolding read_first session_name message_loop
  serve chunks turns a = elim (read_first [] chunks) [
    | none ↦ none
    | some (msg, later) ↦ elim (decode msg) [
      | none ↦ none
      | some first_msg ↦
          let s = message_loop turns (record { agent = a; stream_buf = []; forwarded = [] }) in
          some (session_name first_msg, record s { agent = close_peer s.agent })
    ]
  ]
