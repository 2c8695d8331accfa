-- ===== src/Tests/Forward.antt =====
-- agent/src/quic/server.rs, `handle_session` in a few rounds.
use oxmux.Prelude.{ℕ, zero, suc, ◌≡◌, refl, Bool, true, false, List, [], ◌∷◌, Option, none, some}
use oxmux.Prelude.Text.{codes, text_eq}
use oxmux.Agent.Frames.{drain_buffer, from_be_bytes}
use oxmux.Agent.Messages.{get_str, Value, contains}
use oxmux.Agent.Session.{Selected, output, chunk, dc_msg, Session, read_first, message_loop}
use oxmux.Agent.Messages.Wanted.{last_word}
use oxmux.Agent.Session.Forward.{data_to, wanted, forwarded-wanted}
use oxmux.Tests.Agent.{fresh, answering, about, valid_pane}

-- messages of one byte
abbrev decode : List ℕ → Option Value
decode (suc zero ∷ []) = some (about (codes "sub") (codes "%1"))
decode (suc (suc zero) ∷ []) = some (about (codes "unsub") (codes "%1"))
decode _ = none

abbrev dc_sends : ℕ → Bool
dc_sends dc = true

abbrev session : Session ℕ ℕ
session = record { agent = fresh; stream_buf = []; forwarded = [] }

-- The subscription comes in two reads; the first output is too early, and the last too late.
abbrev turns : List Selected
turns =
    output (codes "%1") (codes "a") true
    ∷ chunk (0 ∷ 0 ∷ 0 ∷ [])
    ∷ output (codes "%1") (codes "b") true
    ∷ chunk (1 ∷ 1 ∷ [])
    ∷ output (codes "%1") (codes "c") true
    ∷ output (codes "%2") (codes "d") true
    ∷ dc_msg (2 ∷ [])
    ∷ output (codes "%1") (codes "e") true
    ∷ []

forwarded-wanted_example :
    data_to (codes "%1") (message_loop answering decode dc_sends turns session).forwarded
    ≡ wanted decode (codes "%1") [] (contains (codes "%1") []) turns
forwarded-wanted_example =
    forwarded-wanted answering decode dc_sends (codes "%1") valid_pane turns session refl
      (refl, (tt, (refl, (tt, (refl, (refl, (tt, (refl, tt))))))))

due : wanted decode (codes "%1") [] false turns ≡ codes "c" ∷ []
unfolding wanted drain_buffer text_eq last_word from_be_bytes get_str
due = refl

-- What comes behind the first message in the same read is lost.
behind_first : read_first [] ((0 ∷ 0 ∷ 0 ∷ 1 ∷ 1 ∷ 0 ∷ 0 ∷ 0 ∷ 1 ∷ 2 ∷ []) ∷ []) ≡ some (1 ∷ [], [])
unfolding read_first from_be_bytes
behind_first = refl
