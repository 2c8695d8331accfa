-- ===== src/Tmux/Control.antt =====
-- server/src/tmux/control.rs, `TmuxEvent` and `ControlModeParser`. `emit` sends on a channel; here
-- the events that a line sends are returned, at most one, in the order of sending.
pub mod Blocks
pub mod Print
use oxmux.Prelude.{
  ℕ, zero, suc, ◌+◌, ◌*◌, ◌-◌, ◌^◌, ◌%◌, Bool, true, false, ◌&&◌, List, [], ◌∷◌, ◌++◌, Option, none,
  some, ltb, leb, if◌then◌else◌, is_some, unwrap_or, get_elem?,
}
use oxmux.Prelude.Text.{
  Text, codes, text_eq, strip_prefix, starts_with, split_once, splitn, trim_end_matches, parse_uint,
}
use oxmux.Tmux.Decode.{decode_tmux_output}

pub data TmuxEvent : Type 0 where
  output : Text → List ℕ → TmuxEvent
  command_response : ℕ → ℕ → List Text → TmuxEvent
  session_changed : Text → Text → TmuxEvent
  session_created : Text → Text → TmuxEvent
  session_closed : Text → TmuxEvent
  window_add : Text → TmuxEvent
  window_close : Text → TmuxEvent
  window_renamed : Text → Text → TmuxEvent
  layout_change : Text → Text → TmuxEvent
  pane_mode_changed : Text → TmuxEvent
  exit : Option Text → TmuxEvent

pub record BlockAccumulator : Type 0 where
  pub timestamp : ℕ
  pub flags : ℕ
  pub lines : List Text

-- `in_block`
abbrev pub ControlModeParser : Type 0
ControlModeParser = Option BlockAccumulator

abbrev pub Fed : Type 0
Fed = ControlModeParser × List TmuxEvent

abbrev pub idle : ControlModeParser
idle = none

-- `Option::and_then` with `str::parse`
abbrev parse_part : ℕ → Option Text → Option ℕ
parse_part bound none = none
parse_part bound (some s) = parse_uint bound s

-- inside a %begin/%end block
unfoldable pub feed_block : BlockAccumulator → Text → Fed
feed_block block line =
    if starts_with (codes "%end ") line
    then (none, command_response block.timestamp block.flags block.lines ∷ [])
    else if starts_with (codes "%error ") line
    then (none, [])
    else (some (record block { lines = block.lines ++ line ∷ [] }), [])

-- the fields of a %begin line: the first, and the third with whatever follows it
unfoldable pub begin_block : Text → Fed
begin_block rest =
    let parts = splitn 3 b' ' rest in
    (
      some (record {
        timestamp = unwrap_or (parse_part (2 ^ 64) (get_elem? parts 0)) 0;
        flags = unwrap_or (parse_part (2 ^ 32) (get_elem? parts 2)) 0;
        lines = [];
      }),
      [],
    )

-- `if let Some((a, b)) = rest.split_once(' ')`
abbrev pub with_pair : (Text → Text → TmuxEvent) → Text → List TmuxEvent
with_pair f rest = elim (split_once b' ' rest) [ none ↦ [] | some (a, b) ↦ f a b ∷ [] ]

-- The last pair of tests in the order of the source is on `%exit`.
unfoldable pub feed_exit : Text → List TmuxEvent
feed_exit line =
    if text_eq line (codes "%exit")
    then exit none ∷ []
    else elim (strip_prefix (codes "%exit ") line) [ none ↦ [] | some rest ↦ exit (some rest) ∷ [] ]

-- The notifications other than %begin: a prefix, and what the rest of the line sends, in the order
-- in which `feed_line` tries them.
abbrev pub notifications : List (Text × (Text → List TmuxEvent))
notifications =
    (codes "%output ", with_pair (λ pane_id encoded. output pane_id (decode_tmux_output encoded)))
    ∷ (codes "%session-changed ", with_pair session_changed)
    ∷ (
      codes "%session-created ",
      λ rest. elim (split_once b' ' rest) [
        | none ↦ session_created rest [] ∷ []
        | some (a, b) ↦ session_created a b ∷ []
      ],
    )
    ∷ (codes "%session-closed ", λ rest. session_closed rest ∷ [])
    ∷ (codes "%window-add ", λ rest. window_add rest ∷ [])
    ∷ (codes "%window-close ", λ rest. window_close rest ∷ [])
    ∷ (codes "%window-renamed ", with_pair window_renamed)
    ∷ (codes "%layout-change ", with_pair layout_change)
    ∷ (codes "%pane-mode-changed ", λ rest. pane_mode_changed rest ∷ [])
    ∷ []

-- the ladder of `strip_prefix` tests, each of which returns
unfoldable pub notify : List (Text × (Text → List TmuxEvent)) → Text → List TmuxEvent
unfolding feed_exit
notify [] line = feed_exit line
notify ((prefix, handler) ∷ more) line =
    let rest = notify more line in
    elim (strip_prefix prefix line) [ none ↦ rest | some tail ↦ handler tail ]

-- outside a block
unfoldable pub feed_idle : Text → Fed
unfolding begin_block notify
feed_idle line = elim (strip_prefix (codes "%begin ") line) [
  | some rest ↦ begin_block rest
  | none ↦ (none, notify notifications line)
]

unfoldable pub feed_line : ControlModeParser → Text → Fed
unfolding feed_block feed_idle
feed_line none line = feed_idle (trim_end_matches b'\r' line)
feed_line (some block) line = feed_block block (trim_end_matches b'\r' line)

-- The reader task feeds the lines one by one and consumes the events in the order of sending.
unfoldable pub feed_lines : ControlModeParser → List Text → Fed
feed_lines p [] = (p, [])
feed_lines p (line ∷ lines) =
    let (p', sent) = feed_line p line in
    let (p'', later) = feed_lines p' lines in (p'', sent ++ later)
