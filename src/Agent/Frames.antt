-- ===== src/Agent/Frames.antt =====
-- agent/src/quic/server.rs: `send_raw`, and the part of the message loop of `handle_session` that
-- takes messages off the stream's buffer. A message stands behind its length, in four bytes, the most
-- significant first. A byte is a number below 256.
pub mod Stream
use oxmux.Prelude.{
  ℕ, zero, suc, ◌+◌, ◌*◌, ◌/◌, ◌%◌, ◌^◌, Bool, List, [], ◌∷◌, ◌++◌, ltb, if◌then◌else◌, length,
  take, drop,
}

-- `(len as u32).to_be_bytes()`
unfoldable pub to_be_bytes : ℕ → List ℕ
to_be_bytes n = n / 16777216 % 256 ∷ (n / 65536 % 256) ∷ (n / 256 % 256) ∷ (n % 256) ∷ []

-- `u32::from_be_bytes`
unfoldable pub from_be_bytes : ℕ → ℕ → ℕ → ℕ → ℕ
from_be_bytes a b c d = ((a * 256 + b) * 256 + c) * 256 + d

-- what `send_raw` writes
unfoldable pub send_raw : List ℕ → List ℕ
unfolding to_be_bytes
send_raw encoded = to_be_bytes (length encoded % 2 ^ 32) ++ encoded

-- the messages taken off, and what is left of the buffer
abbrev pub Drained : Type 0
Drained = List (List ℕ) × List ℕ

abbrev pub with_message : List ℕ → Drained → Drained
with_message m (ms, rest) = (m ∷ ms, rest)

-- `while stream_buf.len() >= 4 { … }`; each round takes four bytes off at least, so the length of the
-- buffer is fuel enough
unfoldable pub drain : ℕ → List ℕ → Drained
drain zero buf = ([], buf)
drain (suc f) [] = ([], [])
drain (suc f) (a ∷ []) = ([], a ∷ [])
drain (suc f) (a ∷ b ∷ []) = ([], a ∷ b ∷ [])
drain (suc f) (a ∷ b ∷ c ∷ []) = ([], a ∷ b ∷ c ∷ [])
drain (suc f) (a ∷ b ∷ c ∷ d ∷ s) =
    let len = from_be_bytes a b c d in
    let more = with_message (take len s) (drain f (drop len s)) in
    if ltb (length s) len then ([], a ∷ b ∷ c ∷ d ∷ s) else more

unfoldable pub drain_buffer : List ℕ → Drained
unfolding drain
drain_buffer buf = drain (length buf) buf

-- Chunks arrive one by one; after each the buffer is drained.
unfoldable pub read_chunks : List ℕ → List (List ℕ) → Drained
unfolding drain_buffer
read_chunks buf [] = ([], buf)
read_chunks buf (chunk ∷ chunks) =
    let (ms, rest) = drain_buffer (buf ++ chunk) in
    let (later, left) = read_chunks rest chunks in (ms ++ later, left)
