-- ===== src/Tmux/Reader/Stream.antt =====
-- server/src/session/ssh_transport.rs, the reader task over the whole stream: what the panes'
-- channels get.
use oxmux.Prelude.{
  ℕ, ◌+◌, ◌≡◌, refl, sym, ap, ◌∙◌, List, [], ◌∷◌, ◌++◌, append_assoc, some, leb, length, Bool-cases,
  inl, inr,
}
use mathlib.Core.Path.{subst}
use oxmux.Prelude.Text.{Text}
use oxmux.Prelude.Maps.{get}
use oxmux.Tmux.Control.{TmuxEvent, idle, feed_lines}
use oxmux.Tmux.Control.Blocks.{feed_lines-append}
use oxmux.Tmux.Reader.{
  data_msg, other, Reader, continues, start, take_lines, feed, on_message, next_event, on_event,
  capacity,
}
use oxmux.Tmux.Reader.Sent.{
  outputs_of, outputs-append, sent_to, lines-append, Keeps, continues-injective,
  handle_event-Handled,
}

-- The loop, from its start: the decoded text of the messages that have come so far, and the state.
pub data Reads (lossy : List ℕ → Text) : Text → Reader → Type 0 where
  begin : Reads lossy [] start
  message :
      (input : Text) (bytes : List ℕ) (r r' : Reader)
      → Reads lossy input r
      → on_message lossy (data_msg bytes) r ≡ continues r'
      → Reads lossy (input ++ lossy bytes) r'
  skip :
      (input : Text) (r r' : Reader)
      → Reads lossy input r
      → on_message lossy other r ≡ continues r'
      → Reads lossy input r'
  turn :
      (input : Text) (r r' : Reader)
      → Reads lossy input r
      → on_event r ≡ some (continues r')
      → Reads lossy input r'

-- Taking an event off the channel moves its data to the pane.
turn_keeps :
    (pane_id : Text) (r r' : Reader) (q : List TmuxEvent)
    → next_event r q ≡ some (continues r')
    → (r'.line_buf ≡ r.line_buf)
      × (r'.parser ≡ r.parser)
      × (sent_to pane_id r' ++ outputs_of pane_id r'.queue
          ≡ sent_to pane_id r ++ outputs_of pane_id q)
unfolding outputs_of
turn_keeps pane_id r r' [] h = absurd (cc)
turn_keeps pane_id r r' (e ∷ events) h =
    let (l, p, q, s) = handle_event-Handled pane_id e (record r { queue = events }) r' (cc) in
    (l, p, rw s (rw q (rw append_assoc refl)))

-- the state after the lines, when their events fit
abbrev pub fed : Reader → List Text × Text → Reader
fed r (lines, rest) =
    let (parser, sent) = feed_lines r.parser lines in
    record r { parser = parser; line_buf = rest; queue = r.queue ++ sent }

feed-continues :
    (r r' : Reader) (taken : List Text × Text) → feed r taken ≡ continues r' → fed r taken ≡ r'
unfolding feed_lines
feed-continues r r' (lines, rest) h =
    elim (Bool-cases (leb (length r.queue + length (feed_lines r.parser lines).1) capacity)) [
      | inl fits ↦ continues-injective (sym (rw fits refl) ∙ h)
      | inr full ↦ absurd (cc)
    ]

more_sent :
    (pane_id : Text) (sent : List (List ℕ)) (q before new : List TmuxEvent)
    → sent ++ outputs_of pane_id q ≡ outputs_of pane_id before
    → sent ++ outputs_of pane_id (q ++ new) ≡ outputs_of pane_id (before ++ new)
more_sent pane_id sent q before new h = rw (outputs-append pane_id q new) (
    rw (outputs-append pane_id before new) (
      sym (append_assoc sent (outputs_of pane_id q) (outputs_of pane_id new))
      ∙ ap (λ t. t ++ outputs_of pane_id new) h))

fed-Keeps :
    (pane_id input text : Text) (r : Reader)
    → Keeps pane_id input r
    → Keeps pane_id (input ++ text) (fed r (take_lines (r.line_buf ++ text)))
fed-Keeps pane_id input text r (l, p, s) =
    let first = (take_lines input).0 in
    let second = (take_lines ((take_lines input).1 ++ text)).0 in
    (
      rw (lines-append input text) (rw (sym l) refl),
      rw (lines-append input text)
          (rw (feed_lines-append idle first second) (rw (sym l) (rw (sym p) refl))),
      rw (lines-append input text) (
          rw (feed_lines-append idle first second) (
            rw (sym l) (
              rw (sym p) (
                more_sent pane_id (sent_to pane_id r) r.queue (feed_lines idle first).1
                  (feed_lines r.parser (take_lines (r.line_buf ++ text)).0).1 s)))),
    )

message-Keeps :
    (lossy : List ℕ → Text) (pane_id input : Text) (bytes : List ℕ) (r r' : Reader)
    → Keeps pane_id input r
    → on_message lossy (data_msg bytes) r ≡ continues r'
    → Keeps pane_id (input ++ lossy bytes) r'
unfolding on_message
message-Keeps lossy pane_id input bytes r r' k h =
    subst (λ x. Keeps pane_id (input ++ lossy bytes) x)
      (feed-continues r r' (take_lines (r.line_buf ++ lossy bytes)) h)
      (fed-Keeps pane_id input (lossy bytes) r k)

turn-Keeps :
    (pane_id input : Text) (r r' : Reader)
    → Keeps pane_id input r
    → on_event r ≡ some (continues r')
    → Keeps pane_id input r'
unfolding on_event
turn-Keeps pane_id input r r' (l, p, s) h =
    let (l', p', s') = turn_keeps pane_id r r' r.queue h in (l' ∙ l, p' ∙ p, s' ∙ s)

start-Keeps : (pane_id : Text) → Keeps pane_id [] start
unfolding take_lines feed_lines outputs_of get
start-Keeps pane_id = (refl, refl, refl)

skip-Keeps :
    (lossy : List ℕ → Text) (pane_id input : Text) (r r' : Reader)
    → Keeps pane_id input r
    → on_message lossy other r ≡ continues r'
    → Keeps pane_id input r'
unfolding on_message
skip-Keeps lossy pane_id input r r' k h =
    subst (λ x. Keeps pane_id input x) (continues-injective h) k

-- The text is that of the messages so far, each decoded by itself: a character whose bytes come in two
-- messages is not in it. In whatever order the loop takes messages and events: what has been sent to a pane's channel, and then the pane's data among the queued events, is the
-- pane's output in the complete lines of the text so far, in order, and the rest of the text is in
-- the buffer.
pub Reads-outputs :
    (lossy : List ℕ → Text) (pane_id input : Text) (r : Reader)
    → Reads lossy input r
    → (sent_to pane_id r ++ outputs_of pane_id r.queue
        ≡ outputs_of pane_id (feed_lines idle (take_lines input).0).1)
      × (r.line_buf ≡ (take_lines input).1)
Reads-outputs lossy pane_id input r reads = let (l, p, s) = kept reads in (s, l)
  where
    kept : {text : Text} {x : Reader} → Reads lossy text x → Keeps pane_id text x
    kept begin = start-Keeps pane_id
    kept (message before bytes x y reading h) =
        message-Keeps lossy pane_id before bytes x y (kept reading) h
    kept (skip before x y reading h) = skip-Keeps lossy pane_id before x y (kept reading) h
    kept (turn before x y reading h) = turn-Keeps pane_id before x y (kept reading) h
