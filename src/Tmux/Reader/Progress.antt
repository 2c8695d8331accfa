-- ===== src/Tmux/Reader/Progress.antt =====
-- server/src/session/ssh_transport.rs, the reader task: when it comes to rest, and when it waits for ever.
use oxmux.Prelude.{
  ℕ, zero, suc, ◌+◌, ◌<◌, ◌≡◌, ◌⊎◌, refl, sym, ◌∙◌, Bool, true, false, List, [], ◌∷◌, ◌++◌,
  append_assoc, append-nil, none, some, arith, leb, length, all, Bool-cases, inl, inr,
}
use oxmux.Prelude.Text.{Text}
use oxmux.Tmux.Control.{
  TmuxEvent, output, command_response, session_changed, session_created, session_closed, window_add,
  window_close, window_renamed, layout_change, pane_mode_changed, exit, feed_lines,
}
use oxmux.Tmux.Reader.{
  data_msg, Reader, Turn, continues, breaks, waits, capacity, take_lines, on_message, handle_event,
  on_event,
}
use oxmux.Tmux.Reader.Stream.{fed}
use oxmux.Tmux.Reader.Sent.{outputs_of, sent_to, handle_event-Handled}

abbrev pub and_then : Turn → (Reader → Turn) → Turn
and_then (continues r) f = f r
and_then breaks f = breaks
and_then waits f = waits

-- at most that many turns of the loop, all of them on events
unfoldable pub run_events : ℕ → Reader → Turn
unfolding on_event
run_events zero r = continues r
run_events (suc n) r = elim (on_event r) [
  | none ↦ continues r
  | some turn ↦ and_then turn (λ r'. run_events n r')
]

abbrev pub is_no_exit : TmuxEvent → Bool
is_no_exit (exit reason) = false
is_no_exit _ = true

handle_continues :
    (e : TmuxEvent) (r : Reader)
    → is_no_exit e ≡ true
    → (r' : Reader) × (handle_event e r ≡ continues r')
handle_continues (output id bytes) r h = (_, refl)
handle_continues (exit reason) r h = absurd (cc)
handle_continues (command_response t f ls) r h = (r, refl)
handle_continues (session_changed a b) r h = (r, refl)
handle_continues (session_created a b) r h = (r, refl)
handle_continues (session_closed a) r h = (r, refl)
handle_continues (window_add a) r h = (r, refl)
handle_continues (window_close a) r h = (r, refl)
handle_continues (window_renamed a b) r h = (r, refl)
handle_continues (layout_change a b) r h = (r, refl)
handle_continues (pane_mode_changed a) r h = (r, refl)

-- the channel is empty, and the pane has its data
abbrev pub AtRest : Text → Reader → List TmuxEvent → Turn → Type 0
AtRest pane_id r events turn =
    (r' : Reader) × (turn ≡ continues r')
    × (r'.queue ≡ [])
    × (sent_to pane_id r' ≡ sent_to pane_id r ++ outputs_of pane_id events)

drains :
    (pane_id : Text) (q : List TmuxEvent) (r : Reader)
    → r.queue ≡ q
    → all is_no_exit q ≡ true
    → AtRest pane_id r q (run_events (length q) r)
unfolding run_events outputs_of
drains pane_id [] r h k = (r, refl, h, sym (append-nil (sent_to pane_id r)))
drains pane_id (e ∷ q) r h k =
    let (r1, e1) = handle_continues e (record r { queue = q }) (ground arith) in
    let (l, p, q1, s1) = handle_event-Handled pane_id e (record r { queue = q }) r1 e1 in
    let (r2, e2, q2, s2) = drains pane_id q r1 q1 (ground arith) in
    (r2, rw h (rw (e1, handle_event) e2), q2, s2 ∙ rw s1 (rw append_assoc refl))

module _ (lossy : List ℕ → Text) (pane_id : Text) (bytes : List ℕ) (r : Reader) where
  -- the events that the complete lines of the buffer and a message send
  abbrev pub sent_by : List TmuxEvent
  sent_by = (feed_lines r.parser (take_lines (r.line_buf ++ lossy bytes)).0).1

  -- After a message that sends no exit: either its events do not fit into the channel, and the task
  -- waits for ever; or, after as many turns as there are events, the channel is empty and the pane
  -- has got all its data.
  pub message_progress :
      all is_no_exit (r.queue ++ sent_by) ≡ true
      → ((capacity < length r.queue + length sent_by)
          × (on_message lossy (data_msg bytes) r ≡ waits))
        ⊎ AtRest pane_id r (r.queue ++ sent_by) (
            and_then
              (on_message lossy (data_msg bytes) r)
              (run_events (length (r.queue ++ sent_by))))
  unfolding on_message
  message_progress k = elim (Bool-cases (leb (length r.queue + length sent_by) capacity)) [
    | inr full ↦ inl (ground arith, rw (full, on_message) refl)
    | inl fits ↦ inr (
        let (r', e, q, s) =
          drains pane_id (r.queue ++ sent_by) (fed r (take_lines (r.line_buf ++ lossy bytes))) refl
            k in
        (r', rw (fits, on_message) e, q, s))
  ]
