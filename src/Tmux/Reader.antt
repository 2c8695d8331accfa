-- ===== src/Tmux/Reader.antt =====
-- server/src/session/ssh_transport.rs, `connect`: the task that reads the control mode. One turn of its
-- loop takes a message of the SSH channel or an event of the parser's channel. Each message is
-- decoded by itself with `from_utf8_lossy`, which is a parameter.
pub mod Sent
pub mod Stream
pub mod Progress
use oxmux.Prelude.{
  ℕ, zero, suc, ◌+◌, List, [], ◌∷◌, ◌++◌, Option, none, some, leb, if◌then◌else◌, unwrap_or, length,
  ◌==◌,
}
use oxmux.Prelude.Text.{Text}
use oxmux.Prelude.Maps.{Map, get, insert}
use oxmux.Tmux.Control.{TmuxEvent, output, exit, ControlModeParser, idle, feed_lines}

pub data ChannelMsg : Type 0 where
  data_msg : List ℕ → ChannelMsg
  eof : ChannelMsg
  close : ChannelMsg
  -- `None`: the channel has ended
  ended : ChannelMsg
  other : ChannelMsg

pub record Reader : Type 0 where
  pub parser : ControlModeParser
  pub line_buf : Text
  -- the events between `event_tx` and `event_rx`
  pub queue : List TmuxEvent
  -- what the task has sent to each pane's channel, oldest first
  pub outputs : Map (List (List ℕ))

-- the loop goes on, or is left, or never comes round again: the task waits for room in the channel
-- that only the task itself empties
pub data Turn : Type 0 where
  continues : Reader → Turn
  breaks : Turn
  waits : Turn

abbrev pub start : Reader
start = record { parser = idle; line_buf = []; queue = []; outputs = [] }

-- the size of the event channel
abbrev pub capacity : ℕ
capacity = 512

abbrev pub cons_line : ℕ → List Text × Text → List Text × Text
cons_line c ([], rest) = ([], c ∷ rest)
cons_line c (line ∷ lines, rest) = ((c ∷ line) ∷ lines, rest)

-- "Process complete lines": the lines that the loop takes off the buffer, and what it leaves
unfoldable pub take_lines : Text → List Text × Text
take_lines [] = ([], [])
take_lines (c ∷ s) =
    let (lines, rest) = take_lines s in
    let more = cons_line c (lines, rest) in if c == b'\n' then ([] ∷ lines, rest) else more

-- the lines are fed in turn; each event waits for room
abbrev pub feed : Reader → List Text × Text → Turn
feed r (lines, rest) =
    let (parser, sent) = feed_lines r.parser lines in
    if leb (length r.queue + length sent) capacity
    then continues (record r { parser = parser; line_buf = rest; queue = r.queue ++ sent })
    else waits

-- the arm of `ctrl_channel.wait()`
unfoldable pub on_message : (List ℕ → Text) → ChannelMsg → Reader → Turn
unfolding take_lines feed_lines
on_message lossy (data_msg bytes) r = feed r (take_lines (r.line_buf ++ lossy bytes))
on_message lossy eof r = breaks
on_message lossy close r = breaks
on_message lossy ended r = breaks
on_message lossy other r = continues r

-- the pane's channel is made when it is missing
abbrev pub send_output : Text → List ℕ → Map (List (List ℕ)) → Map (List (List ℕ))
send_output pane_id bytes outputs =
    insert pane_id (unwrap_or (get pane_id outputs) [] ++ bytes ∷ []) outputs

abbrev pub handle_event : TmuxEvent → Reader → Turn
handle_event (output pane_id bytes) r =
    continues (record r { outputs = send_output pane_id bytes r.outputs })
handle_event (exit reason) r = breaks
handle_event _ r = continues r

abbrev pub next_event : Reader → List TmuxEvent → Option Turn
next_event r [] = none
next_event r (event ∷ events) = some (handle_event event (record r { queue = events }))

-- the arm of `event_rx.recv()`; `none` while there is no event
unfoldable pub on_event : Reader → Option Turn
on_event r = next_event r r.queue
