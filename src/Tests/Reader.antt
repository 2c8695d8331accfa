-- ===== src/Tests/Reader.antt =====
-- server/src/session/ssh_transport.rs, the reader task on a few messages.
use oxmux.Prelude.{ℕ, zero, suc, ◌+◌, ◌<◌, ◌≡◌, ◌⊎◌, refl, List, [], ◌∷◌, ◌++◌, some, length}
use oxmux.Prelude.Text.{Text, codes, strip_prefix, split_once, trim_end_matches}
use oxmux.Prelude.Maps.{get, insert}
use oxmux.Tmux.Decode.{decode_tmux_output, escape_output, encode_utf8}
use oxmux.Tmux.Control.{TmuxEvent, output, window_add, idle, feed_line, feed_lines}
use oxmux.Tmux.Reader.{
  data_msg, Reader, continues, waits, start, capacity, take_lines, on_message, on_event,
}
use oxmux.Tmux.Reader.Stream.{Reads, begin, message, turn, Reads-outputs}
use oxmux.Tmux.Reader.Sent.{outputs_of, sent_to}
use oxmux.Tmux.Reader.Progress.{AtRest, and_then, run_events, sent_by, message_progress}

-- the text of bytes below 128
abbrev lossy : List ℕ → Text
lossy bytes = bytes

-- a line that comes in two messages
abbrev first : Text
first = codes "%output %1 ab\n%outp"

abbrev second : Text
second = codes "ut %1 c\n"

abbrev after_first : Reader
after_first = record start {
  line_buf = codes "%outp";
  queue = output (codes "%1") (codes "ab") ∷ [];
}

abbrev after_event : Reader
after_event = record start {
  line_buf = codes "%outp";
  outputs = (codes "%1", codes "ab" ∷ []) ∷ [];
}

abbrev after_second : Reader
after_second = record after_event { line_buf = []; queue = output (codes "%1") (codes "c") ∷ [] }

reads_first : on_message lossy (data_msg first) start ≡ continues after_first
unfolding on_message decode_tmux_output escape_output encode_utf8 feed_line strip_prefix
    trim_end_matches split_once
reads_first = refl

takes : on_event after_first ≡ some (continues after_event)
unfolding on_event get insert
takes = refl

reads_second : on_message lossy (data_msg second) after_event ≡ continues after_second
unfolding on_message decode_tmux_output escape_output encode_utf8 feed_line strip_prefix
    trim_end_matches split_once
reads_second = refl

reading : Reads lossy (first ++ second) after_second
reading =
    message first second after_event after_second
      (turn first after_first after_event (message [] first start after_first begin reads_first)
        takes)
      reads_second

Reads-outputs_example :
    (sent_to (codes "%1") after_second ++ outputs_of (codes "%1") after_second.queue
      ≡ outputs_of (codes "%1") (feed_lines idle (take_lines (first ++ second)).0).1)
    × (after_second.line_buf ≡ (take_lines (first ++ second)).1)
Reads-outputs_example = Reads-outputs lossy (codes "%1") (first ++ second) after_second reading

abbrev waiting : ℕ → List TmuxEvent
waiting zero = []
waiting (suc n) = window_add (codes "@1") ∷ waiting n

-- With 512 events in the channel, a message with one more makes the task wait for itself.
waits_full :
    on_message lossy (data_msg second) (record after_event { queue = waiting capacity }) ≡ waits
unfolding on_message decode_tmux_output escape_output encode_utf8 feed_line strip_prefix
    trim_end_matches split_once
waits_full = refl

message_progress_example :
    ((capacity < length after_event.queue + length (sent_by lossy (codes "%1") second after_event))
      × (on_message lossy (data_msg second) after_event ≡ waits))
    ⊎ AtRest
        (codes "%1")
        after_event
        (after_event.queue ++ sent_by lossy (codes "%1") second after_event)
        (and_then (on_message lossy (data_msg second) after_event) (
          run_events (length (after_event.queue ++ sent_by lossy (codes "%1") second after_event))))
unfolding feed_lines take_lines feed_line strip_prefix trim_end_matches split_once
message_progress_example = message_progress lossy (codes "%1") second after_event refl
