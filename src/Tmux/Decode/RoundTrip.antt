-- ===== src/Tmux/Decode/RoundTrip.antt =====
-- server/src/tmux/control.rs and agent/src/quic/server.rs: both decoders against the escaping that
-- tmux documents for control mode.
use oxmux.Prelude.{
  ℕ, ◌+◌, ◌/◌, ◌%◌, ◌<◌, ◌≡◌, refl, ap, ◌∙◌, false, List, [], ◌∷◌, ◌++◌, arith, ◌==◌, append-nil,
  true, ◌-◌, ◌*◌,
}
use oxmux.Prelude.Text.{Text}
use oxmux.Tmux.Decode.{
  encode_utf8, is_octal, octal_output, escape_output, decode_tmux_output, agent_decode,
  agent_decode_tmux_output,
}

-- A unit of tmux's output: a character that stands for itself, or a byte that is escaped.
pub data Piece : Type 0 where
  plain : ℕ → Piece
  escaped : ℕ → Piece

abbrev pub IsPiece : Piece → Type 0
IsPiece (plain c) = (c == b'\\') ≡ false
IsPiece (escaped byte) = byte < 256

abbrev pub ArePieces : List Piece → Type 0
ArePieces [] = Unit
ArePieces (p ∷ ps) = IsPiece p × ArePieces ps

-- how tmux writes it: `\ooo` for an escaped byte
unfoldable pub render : List Piece → Text
render [] = []
render (plain c ∷ ps) = c ∷ render ps
render (escaped byte ∷ ps) =
    b'\\' ∷ (48 + byte / 64) ∷ (48 + byte / 8 % 8) ∷ (48 + byte % 8) ∷ render ps

-- the bytes that the pane put out
unfoldable pub bytes_of : List Piece → List ℕ
bytes_of [] = []
bytes_of (plain c ∷ ps) = encode_utf8 c ++ bytes_of ps
bytes_of (escaped byte ∷ ps) = byte ∷ bytes_of ps

decode-plain :
    (c : ℕ) (s : Text)
    → (c == b'\\') ≡ false
    → decode_tmux_output (c ∷ s) ≡ encode_utf8 c ++ decode_tmux_output s
unfolding decode_tmux_output
decode-plain c [] h = rw append-nil (ground arith)
decode-plain c (d1 ∷ []) h = ground arith
decode-plain c (d1 ∷ d2 ∷ []) h = ground arith
decode-plain c (d1 ∷ d2 ∷ d3 ∷ s) h = ground arith

escape_output-octal :
    (byte : ℕ)
    → byte < 256
    → escape_output (48 + byte / 64) (48 + byte / 8 % 8) (48 + byte % 8) ≡ byte ∷ []
unfolding escape_output
escape_output-octal byte h = ground arith

decode-escaped :
    (byte : ℕ) (s : Text)
    → byte < 256
    → decode_tmux_output (b'\\' ∷ (48 + byte / 64) ∷ (48 + byte / 8 % 8) ∷ (48 + byte % 8) ∷ s)
      ≡ byte ∷ decode_tmux_output s
unfolding decode_tmux_output
decode-escaped byte s h = ground (arith, escape_output-octal byte h)

pub decode-render : (ps : List Piece) → ArePieces ps → decode_tmux_output (render ps) ≡ bytes_of ps
unfolding render bytes_of
decode-render [] h = unfold decode_tmux_output in refl
decode-render (plain c ∷ ps) h =
    decode-plain c (render ps) h.0 ∙ ap (λ t. encode_utf8 c ++ t) (decode-render ps h.1)
decode-render (escaped byte ∷ ps) h =
    decode-escaped byte (render ps) h.0 ∙ ap (λ t. byte ∷ t) (decode-render ps h.1)

agent_decode-plain :
    (c : ℕ) (s : Text)
    → (c == b'\\') ≡ false
    → agent_decode_tmux_output (c ∷ s) ≡ encode_utf8 c ++ agent_decode_tmux_output s
unfolding agent_decode
agent_decode-plain c s h = rw h

octal_digit : (d : ℕ) → d < 8 → is_octal (48 + d) ≡ true
octal_digit d h = ground arith

agent_digits :
    (d1 d2 d3 : ℕ) (s : Text)
    → d1 < 8
    → d2 < 8
    → d3 < 8
    → agent_decode_tmux_output (b'\\' ∷ (48 + d1) ∷ (48 + d2) ∷ (48 + d3) ∷ s)
      ≡ octal_output ((d1 * 8 + d2) * 8 + d3) ++ agent_decode_tmux_output s
unfolding agent_decode
agent_digits d1 d2 d3 s h1 h2 h3 =
    let e : 48 + d1 - 48 ≡ d1 = omega arith in
    let e2 : 48 + d2 - 48 ≡ d2 = omega arith in
    let e3 : 48 + d3 - 48 ≡ d3 = omega arith in
    rw (octal_digit d1 h1, octal_digit d2 h2, octal_digit d3 h3) (rw (e, e2, e3))

agent_decode-escaped :
    (byte : ℕ) (s : Text)
    → byte < 256
    → agent_decode_tmux_output
        (b'\\' ∷ (48 + byte / 64) ∷ (48 + byte / 8 % 8) ∷ (48 + byte % 8) ∷ s)
      ≡ byte ∷ agent_decode_tmux_output s
agent_decode-escaped byte s h =
    let e : (byte / 64 * 8 + byte / 8 % 8) * 8 + byte % 8 ≡ byte = omega arith in
    agent_digits (byte / 64) (byte / 8 % 8) (byte % 8) s (omega arith) (omega arith) (omega arith)
    ∙ rw e (ground arith)

agent_decode-render :
    (ps : List Piece) → ArePieces ps → agent_decode_tmux_output (render ps) ≡ bytes_of ps
unfolding render bytes_of
agent_decode-render [] h = unfold agent_decode in refl
agent_decode-render (plain c ∷ ps) h =
    agent_decode-plain c (render ps) h.0 ∙ ap (λ t. encode_utf8 c ++ t) (agent_decode-render ps h.1)
agent_decode-render (escaped byte ∷ ps) h =
    agent_decode-escaped byte (render ps) h.0 ∙ ap (λ t. byte ∷ t) (agent_decode-render ps h.1)

-- On what tmux writes for any sequence of characters other than a backslash and of escaped bytes,
-- the server's decoder and the agent's both give back the bytes that the pane put out.
pub decode-render_both :
    (ps : List Piece)
    → ArePieces ps
    → (decode_tmux_output (render ps) ≡ bytes_of ps)
      × (agent_decode_tmux_output (render ps) ≡ bytes_of ps)
decode-render_both ps h = (decode-render ps h, agent_decode-render ps h)
