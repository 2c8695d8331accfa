-- ===== src/Agent/Commands.antt =====
-- The commands that are written to tmux's control mode: agent/src/quic/server.rs
-- (`is_valid_pane_id`, `send_tmux_input`, the resize of `handle_message`) and
-- server/src/session/ssh_transport.rs (`send_input`, `resize_pane`, `write_control_command`).
pub mod WireFormat
use oxmux.Prelude.{
  ℕ, ◌+◌, ◌/◌, ◌%◌, Bool, true, false, ◌&&◌, List, [], ◌∷◌, ◌++◌, ltb, ◌==◌, if◌then◌else◌, all,
  is_empty,
}
use oxmux.Prelude.Text.{Text, codes, is_digit, trim}
use oxmux.Prelude.Decimal.{show}

-- `%N` where N is a number
unfoldable pub is_valid_pane_id : Text → Bool
is_valid_pane_id [] = false
is_valid_pane_id (c ∷ []) = false
is_valid_pane_id (c ∷ d ∷ s) = c == b'%' && all is_digit (d ∷ s)

abbrev pub hex_digit : ℕ → ℕ
hex_digit n = if ltb n 10 then 48 + n else 87 + n

-- `{:02x}`
abbrev pub hex : ℕ → Text
hex byte = hex_digit (byte / 16) ∷ hex_digit (byte % 16) ∷ []

-- the agent's loop: ` {:02x}` for each byte
unfoldable pub spaced_hex : List ℕ → Text
spaced_hex [] = []
spaced_hex (byte ∷ bytes) = b' ' ∷ (hex byte ++ spaced_hex bytes)

-- the server's `collect`: `{:02x} ` for each byte
unfoldable pub hex_spaced : List ℕ → Text
hex_spaced [] = []
hex_spaced (byte ∷ bytes) = hex byte ++ b' ' ∷ hex_spaced bytes

-- what `send_tmux_input` writes for bytes and a pane that pass its test
unfoldable pub input_command : Text → List ℕ → Text
unfolding spaced_hex
input_command pane bytes =
    codes "send-keys -t " ++ (pane ++ (codes " -H" ++ (spaced_hex bytes ++ b'\n' ∷ [])))

-- what `send_tmux_input` writes: nothing for no bytes, nor for what is no pane
unfoldable pub send_tmux_input : Text → List ℕ → List Text
unfolding input_command
send_tmux_input pane bytes =
    if is_empty bytes
    then []
    else if is_valid_pane_id pane
    then input_command pane bytes ∷ []
    else []

-- `-t {} -x {} -y {}`
abbrev target_size : Text → ℕ → ℕ → Text
target_size pane cols rows =
    codes " -t " ++ (pane ++ (codes " -x " ++ (show cols ++ (codes " -y " ++ show rows))))

abbrev pub resize_window : Text → ℕ → ℕ → Text
resize_window pane cols rows = codes "resize-window" ++ target_size pane cols rows

abbrev pub resize_pane : Text → ℕ → ℕ → Text
resize_pane pane cols rows = codes "resize-pane" ++ target_size pane cols rows

-- the agent's resize when the size changes
unfoldable pub changed_command : Text → ℕ → ℕ → Text
changed_command pane cols rows =
    resize_window pane cols rows ++ b'\n' ∷ (resize_pane pane cols rows ++ b'\n' ∷ [])

-- the agent's resize at the same size: tmux sends no signal by itself
unfoldable pub same_command : Text → ℕ → ℕ → Text
same_command pane cols rows =
    resize_window pane cols rows
    ++ b'\n'
      ∷ (resize_pane pane cols rows
          ++ b'\n' ∷ (codes "run-shell -t " ++ (pane ++ codes " \"kill -WINCH #{pane_pid}\"\n")))

unfoldable pub ends_with_newline : Text → Bool
ends_with_newline [] = false
ends_with_newline (c ∷ []) = c == b'\n'
ends_with_newline (c ∷ d ∷ s) = ends_with_newline (d ∷ s)

-- `write_control_command`: the text that goes to the channel
unfoldable pub write_control_command : Text → Text
unfolding ends_with_newline
write_control_command cmd = if ends_with_newline cmd then cmd else cmd ++ b'\n' ∷ []

-- the server's `send_input`
unfoldable pub ssh_send_input : Text → List ℕ → Text
unfolding write_control_command hex_spaced
ssh_send_input pane bytes =
    write_control_command
      (codes "send-keys -t " ++ (pane ++ (codes " -H " ++ trim (hex_spaced bytes))))

-- the server's `resize_pane`: two commands
unfoldable pub ssh_resize_pane : Text → ℕ → ℕ → List Text
unfolding write_control_command
ssh_resize_pane pane cols rows =
    write_control_command (resize_window pane cols rows)
    ∷ write_control_command (resize_pane pane cols rows)
    ∷ []
