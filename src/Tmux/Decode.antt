-- ===== src/Tmux/Decode.antt =====
-- server/src/tmux/control.rs, `decode_tmux_output`, and agent/src/quic/server.rs, the agent's own
-- `decode_tmux_output`. A byte is a number below 256. The server takes up to three characters after a
-- backslash off the iterator, whatever they are; the agent takes at most three octal digits.
pub mod RoundTrip
use oxmux.Prelude.{
  ℕ, zero, suc, ◌+◌, ◌-◌, ◌*◌, ◌/◌, ◌%◌, Bool, true, false, ◌&&◌, List, [], ◌∷◌, ◌++◌, Option, none,
  some, ltb, leb, ◌==◌, if◌then◌else◌, ◌≡◌, refl,
}
use oxmux.Prelude.Text.{Text, codes}

-- `char::encode_utf8`
unfoldable pub encode_utf8 : ℕ → List ℕ
encode_utf8 c =
    if ltb c 0x80
    then c ∷ []
    else if ltb c 0x800
    then (0xc0 + c / 64) ∷ (0x80 + c % 64) ∷ []
    else if ltb c 0x10000
    then (0xe0 + c / 4096) ∷ (0x80 + c / 64 % 64) ∷ (0x80 + c % 64) ∷ []
    else (0xf0 + c / 262144) ∷ (0x80 + c / 4096 % 64) ∷ (0x80 + c / 64 % 64) ∷ (0x80 + c % 64) ∷ []

-- the bytes of a string
unfoldable pub utf8 : Text → List ℕ
utf8 [] = []
utf8 (c ∷ s) = encode_utf8 c ++ utf8 s

-- `c.is_ascii_digit() && *c <= '7'`
abbrev pub is_octal : ℕ → Bool
is_octal c = leb b'0' c && leb c b'7'

-- `u8::from_str_radix` on three octal digits: an error above 255
unfoldable pub octal_byte : ℕ → ℕ → ℕ → Option ℕ
octal_byte d1 d2 d3 =
    let n = (d1 - 48) * 64 + (d2 - 48) * 8 + (d3 - 48) in if ltb n 256 then some n else none

-- what an escape that takes three characters off puts out: the byte, or a literal backslash
unfoldable pub escape_output : ℕ → ℕ → ℕ → List ℕ
unfolding octal_byte
escape_output d1 d2 d3 =
    if is_octal d2 && is_octal d3
    then elim (octal_byte d1 d2 d3) [ some byte ↦ byte ∷ [] | none ↦ b'\\' ∷ [] ]
    else b'\\' ∷ []

-- The server's decoder. A first digit is peeked at; the second and third `next()` are made whatever
-- follows.
unfoldable pub decode_tmux_output : Text → List ℕ
decode_tmux_output [] = []
decode_tmux_output (ch ∷ []) = if ch == b'\\' then b'\\' ∷ [] else encode_utf8 ch
decode_tmux_output (ch ∷ d1 ∷ []) =
    if ch == b'\\'
    then (if is_octal d1 then b'\\' ∷ [] else b'\\' ∷ decode_tmux_output (d1 ∷ []))
    else encode_utf8 ch ++ decode_tmux_output (d1 ∷ [])
decode_tmux_output (ch ∷ d1 ∷ d2 ∷ []) =
    let next = decode_tmux_output (d1 ∷ d2 ∷ []) in
    if ch == b'\\'
    then (if is_octal d1 then b'\\' ∷ [] else b'\\' ∷ next)
    else encode_utf8 ch ++ next
decode_tmux_output (ch ∷ d1 ∷ d2 ∷ d3 ∷ s) =
    let next = decode_tmux_output (d1 ∷ d2 ∷ d3 ∷ s) in
    let skip = escape_output d1 d2 d3 ++ decode_tmux_output s in
    if ch == b'\\' then (if is_octal d1 then skip else b'\\' ∷ next) else encode_utf8 ch ++ next

-- The agent's decoder, a character at a time: `copy` outside an escape, `digits k n` after a
-- backslash and `k` octal digits whose value is `n`.
pub data AgentMode : Type 0 where
  copy : AgentMode
  digits : ℕ → ℕ → AgentMode

-- what the end of the digits puts out: nothing for no digit (the backslash is the caller's), the
-- byte if it is below 256, else nothing
abbrev pub octal_output : ℕ → List ℕ
octal_output n = if ltb n 256 then n ∷ [] else []

unfoldable pub agent_decode : AgentMode → Text → List ℕ
agent_decode copy [] = []
agent_decode copy (ch ∷ s) =
    let plain = encode_utf8 ch ++ agent_decode copy s in
    let escape = agent_decode (digits 0 0) s in if ch == b'\\' then escape else plain
agent_decode (digits zero n) [] = []
agent_decode (digits (suc k) n) [] = octal_output n
agent_decode (digits zero n) (ch ∷ s) =
    let more = agent_decode (digits 1 (ch - 48)) s in
    let skip = b'\\' ∷ agent_decode copy s in
    let plain = b'\\' ∷ (encode_utf8 ch ++ agent_decode copy s) in
    if is_octal ch then more else if ch == b'\\' then skip else plain
agent_decode (digits (suc zero) n) (ch ∷ s) =
    let more = agent_decode (digits 2 (n * 8 + (ch - 48))) s in
    let plain = octal_output n ++ (encode_utf8 ch ++ agent_decode copy s) in
    let escape = octal_output n ++ agent_decode (digits 0 0) s in
    if is_octal ch then more else if ch == b'\\' then escape else plain
agent_decode (digits (suc (suc k)) n) (ch ∷ s) =
    let more = octal_output (n * 8 + (ch - 48)) ++ agent_decode copy s in
    let plain = octal_output n ++ (encode_utf8 ch ++ agent_decode copy s) in
    let escape = octal_output n ++ agent_decode (digits 0 0) s in
    if is_octal ch then more else if ch == b'\\' then escape else plain

-- agent/src/quic/server.rs, `decode_tmux_output`
abbrev pub agent_decode_tmux_output : Text → List ℕ
agent_decode_tmux_output s = agent_decode copy s
