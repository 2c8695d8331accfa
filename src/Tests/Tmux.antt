-- ===== src/Tests/Tmux.antt =====
-- server/src/tmux and agent/src/quic/server.rs at concrete lines.
use oxmux.Prelude.{◌≡◌, refl, List, [], ◌∷◌, ◌++◌, arith, map}
use oxmux.Prelude.Text.{Text, codes, strip_prefix, trim_end_matches}
use oxmux.Tmux.Decode.{
  decode_tmux_output, escape_output, agent_decode_tmux_output, agent_decode, encode_utf8,
}
use oxmux.Tmux.Decode.RoundTrip.{Piece, plain, escaped, render, bytes_of, decode-render_both}
use oxmux.Tmux.Control.{idle, feed_line, feed_lines, command_response}
use oxmux.Tmux.Control.Print.{session_changed, print, event_of, feed_line-print}
use oxmux.Tmux.Control.Blocks.{trimmed, AreBody, begin_line, end_line, error_line, feed_lines-block}

-- the test `decode_octal_escapes` of the source
decode_escapes : decode_tmux_output (codes "\\033[32mhel\\007") ≡ 27 ∷ (codes "[32mhel" ++ 7 ∷ [])
unfolding decode_tmux_output escape_output encode_utf8
decode_escapes = refl

-- An escape that is none: the server drops the characters after the digit, the agent reads a byte.
decode_one_digit :
    (decode_tmux_output (codes "\\1abc") ≡ codes "\\c")
    × (agent_decode_tmux_output (codes "\\1abc") ≡ 1 ∷ codes "abc")
unfolding decode_tmux_output escape_output agent_decode encode_utf8
decode_one_digit = (refl, refl)

abbrev green : List Piece
green = escaped 27 ∷ plain b'[' ∷ plain b'm' ∷ plain 0x20ac ∷ []

decode-render_both_example :
    (decode_tmux_output (render green) ≡ bytes_of green)
    × (agent_decode_tmux_output (render green) ≡ bytes_of green)
decode-render_both_example = decode-render_both green (omega arith, (refl, (refl, (refl, tt))))

feed_line-print_example :
    feed_line idle (print (session_changed (codes "$1") (codes "main")))
    ≡ (idle, event_of (session_changed (codes "$1") (codes "main")) ∷ [])
feed_line-print_example =
    feed_line-print (session_changed (codes "$1") (codes "main")) (refl, (refl, tt))
      (unfold print in (grind arith))

abbrev body : List Text
body = codes "main" ∷ codes "%output %1 x" ∷ []

feed_lines-block_example :
    (feed_lines idle (begin_line 1700 1 0 ∷ (body ++ end_line (codes "1700 1 0") ∷ []))
      ≡ (idle, command_response 1700 0 (map trimmed body) ∷ []))
    × (feed_lines idle (begin_line 1700 1 0 ∷ (body ++ error_line (codes "1700 1 0") ∷ []))
        ≡ (idle, []))
feed_lines-block_example =
    feed_lines-block 1700 1 0 body (codes "1700 1 0") (omega arith) (omega arith) closed
  where
    closed : AreBody body
    closed = unfold strip_prefix trim_end_matches in ((refl, refl), ((refl, refl), tt))
