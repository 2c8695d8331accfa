-- ===== src/Agent/Session/Forward.antt =====
-- agent/src/quic/server.rs, `handle_session`: which output is forwarded.
use oxmux.Prelude.{
  ℕ, ◌≡◌, refl, sym, ap, ◌∙◌, Bool, true, false, ◌&&◌, List, [], ◌∷◌, ◌++◌, append_assoc,
  append-nil, Option, arith, if◌then◌else◌, is_empty, All, Bool-cases, inl, inr,
}
use oxmux.Prelude.Text.{Text, text_eq, text_eq_iff}
use oxmux.Result.{Result}
use oxmux.Agent.Commands.{is_valid_pane_id}
use oxmux.Agent.Frames.{drain_buffer}
use oxmux.Agent.Messages.{Value, contains, handle_messages}
use oxmux.Agent.Messages.Wanted.{last_word, subscribed-last_word}
use oxmux.Agent.Session.{
  Via, data_channel, quic_stream, Selected, output, restarting, dc_msg, chunk, read_error, Session,
  decoded, sent_via_dc, process_buffer, forward, select, message_loop,
}

-- the data that went out for a pane
abbrev pub data_to : Text → List (Via × Text × List ℕ) → List (List ℕ)
data_to pane [] = []
data_to pane ((via, p, bytes) ∷ more) =
    if text_eq p pane then bytes ∷ data_to pane more else data_to pane more

data_to-append :
    (pane : Text) (xs ys : List (Via × Text × List ℕ))
    → data_to pane (xs ++ ys) ≡ data_to pane xs ++ data_to pane ys
data_to-append pane [] ys = refl
data_to-append pane ((via, p, bytes) ∷ xs) ys = ground (arith, data_to-append pane xs ys)

-- Every write to the stream succeeds.
abbrev pub IsUp : Selected → Type 0
IsUp (output pane_id bytes stream_up) = stream_up ≡ true
IsUp _ = Unit

module _ (decode : List ℕ → Option Value) where
  -- one round, from the buffer and whether the pane is wanted, both after the buffered messages
  abbrev pub wanted_round :
      Text → List ℕ → Bool → Selected → (List ℕ → Bool → List (List ℕ)) → List (List ℕ)
  wanted_round pane buf now (output p bytes up) later =
      (if text_eq p pane && now then bytes ∷ [] else []) ++ later buf now
  wanted_round pane buf now restarting later = later buf now
  wanted_round pane buf now (dc_msg bytes) later =
      later buf (last_word pane (decoded decode (bytes ∷ [])) now)
  wanted_round pane buf now (chunk bytes) later =
      if is_empty bytes then [] else later (buf ++ bytes) now
  wanted_round pane buf now read_error later = []

  -- What a client is due: the pane's output whenever the last message that names the pane, of those
  -- that have come whole by then, was a `sub`.
  unfoldable pub wanted : Text → List ℕ → Bool → List Selected → List (List ℕ)
  wanted pane buf before [] = []
  wanted pane buf before (t ∷ turns) =
      let (msgs, rest) = drain_buffer buf in
      wanted_round pane rest (last_word pane (decoded decode msgs) before) t
        (λ buf' before'. wanted pane buf' before' turns)

module _ {Peer Channel : Type 0} (create_webrtc_answer : Text → Result (Peer × Text))
    (decode : List ℕ → Option Value) (dc_sends : Channel → Bool) (pane : Text)
    (valid : is_valid_pane_id pane ≡ true) where
  abbrev subscribed : Session Peer Channel → Bool
  subscribed s = contains pane s.agent.subscribed_panes

  abbrev due : List Selected → Session Peer Channel → List (List ℕ)
  due turns s = data_to pane s.forwarded ++ wanted decode pane s.stream_buf (subscribed s) turns

  subscribed-buffer :
      (s : Session Peer Channel)
      → subscribed (process_buffer create_webrtc_answer decode dc_sends s)
        ≡ last_word pane (decoded decode (drain_buffer s.stream_buf).0) (subscribed s)
  unfolding process_buffer
  subscribed-buffer s =
      subscribed-last_word create_webrtc_answer pane (decoded decode (drain_buffer s.stream_buf).0)
        s.agent valid

  forward-data :
      (p : Text) (bytes : List ℕ) (s : Session Peer Channel)
      → ((forward dc_sends p bytes true s).0 ≡ true)
        × ((forward dc_sends p bytes true s).1.agent ≡ s.agent)
        × ((forward dc_sends p bytes true s).1.stream_buf ≡ s.stream_buf)
        × (data_to pane (forward dc_sends p bytes true s).1.forwarded
            ≡ data_to pane s.forwarded ++ (if text_eq p pane then bytes ∷ [] else []))
  unfolding forward
  forward-data p bytes s = elim (Bool-cases (sent_via_dc dc_sends s.agent.webrtc_dc)) [
    | inl dc ↦
        rw dc (refl, refl, refl, data_to-append pane s.forwarded ((data_channel, p, bytes) ∷ []))
    | inr off ↦
        rw off (refl, refl, refl, data_to-append pane s.forwarded ((quic_stream, p, bytes) ∷ []))
  ]

  abbrev loop : List Selected → Session Peer Channel → Session Peer Channel
  loop turns s = message_loop create_webrtc_answer decode dc_sends turns s

  -- the loop after a round, whose outcome is given
  abbrev rest_of : List Selected → Bool × Session Peer Channel → Session Peer Channel
  rest_of turns (goes_on, s) = if goes_on then loop turns s else s

  abbrev later : List Selected → List ℕ → Bool → List (List ℕ)
  later turns buf now = wanted decode pane buf now turns

  advance :
      (turns : List Selected) (x : List (List ℕ)) (s s' : Session Peer Channel)
      → s'.agent ≡ s.agent
      → s'.stream_buf ≡ s.stream_buf
      → data_to pane s'.forwarded ≡ data_to pane s.forwarded ++ x
      → due turns s' ≡ data_to pane s.forwarded ++ (x ++ later turns s.stream_buf (subscribed s))
  advance turns x s s' a b d = rw d (rw b (rw a (append_assoc (data_to pane s.forwarded) x _)))

  -- whether an output is for the pane and the pane is subscribed, from whether the output's pane is
  gate_open :
      (p : Text) (panes : List Text)
      → contains p panes ≡ true
      → (text_eq p pane && contains pane panes) ≡ text_eq p pane
  gate_open p panes h = elim (Bool-cases (text_eq p pane)) [
    | inl same ↦ rw same (ap (λ q. contains q panes) (sym ((text_eq_iff p pane).0 same)) ∙ h)
    | inr different ↦ rw different refl
  ]

  gate_shut :
      (p : Text) (panes : List Text)
      → contains p panes ≡ false
      → (text_eq p pane && contains pane panes) ≡ false
  gate_shut p panes h = elim (Bool-cases (text_eq p pane)) [
    | inl same ↦ rw same (ap (λ q. contains q panes) (sym ((text_eq_iff p pane).0 same)) ∙ h)
    | inr different ↦ rw different refl
  ]

  select-due :
      (t : Selected) (turns : List Selected) (s : Session Peer Channel)
      → IsUp t
      → ((s' : Session Peer Channel) → data_to pane (loop turns s').forwarded ≡ due turns s')
      → data_to pane (rest_of turns (select create_webrtc_answer decode dc_sends t s)).forwarded
        ≡ data_to pane s.forwarded
          ++ wanted_round decode pane s.stream_buf (subscribed s) t (later turns)
  unfolding select
  select-due (output p bytes up) turns s u ih =
      elim (Bool-cases (contains p s.agent.subscribed_panes)) [
        | inl some_sub ↦
            let (goes, a, b, d) = forward-data p bytes s in
            rw some_sub (
              rw u (
                rw goes (
                  rw (gate_open p s.agent.subscribed_panes some_sub) (
                    ih (forward dc_sends p bytes true s).1
                    ∙ advance turns (if text_eq p pane then bytes ∷ [] else []) s
                        (forward dc_sends p bytes true s).1 a b d))))
        | inr no_sub ↦ rw no_sub (rw (gate_shut p s.agent.subscribed_panes no_sub) (ih s))
      ]
  select-due restarting turns s u ih = ih s
  select-due (dc_msg bytes) turns s u ih =
      ih (record s {
        agent = handle_messages create_webrtc_answer (decoded decode (bytes ∷ [])) s.agent;
      })
      ∙ ap (λ w. data_to pane s.forwarded ++ later turns s.stream_buf w)
          (subscribed-last_word create_webrtc_answer pane (decoded decode (bytes ∷ [])) s.agent
            valid)
  select-due (chunk bytes) turns s u ih = elim (Bool-cases (is_empty bytes)) [
    | inl e ↦ rw e (sym (append-nil (data_to pane s.forwarded)))
    | inr e ↦ rw e (ih (record s { stream_buf = s.stream_buf ++ bytes }))
  ]
  select-due read_error turns s u ih = sym (append-nil (data_to pane s.forwarded))

  loop-due :
      (turns : List Selected) (s : Session Peer Channel)
      → All IsUp turns
      → data_to pane (loop turns s).forwarded ≡ due turns s
  unfolding message_loop wanted process_buffer
  loop-due [] s u = sym (append-nil (data_to pane s.forwarded))
  loop-due (t ∷ turns) s u =
      select-due t turns (process_buffer create_webrtc_answer decode dc_sends s) u.0
        (λ s'. loop-due turns s' u.1)
      ∙ rw (subscribed-buffer s) refl

  -- While the writes to the stream succeed: what the session has forwarded of a valid pane is, in
  -- order, the pane's output in those rounds in which the last `sub` or `unsub` for the pane, among
  -- the messages that had come whole by then, was a `sub`.
  pub forwarded-wanted :
      (turns : List Selected) (s : Session Peer Channel)
      → s.forwarded ≡ []
      → All IsUp turns
      → data_to pane (message_loop create_webrtc_answer decode dc_sends turns s).forwarded
        ≡ wanted decode pane s.stream_buf (contains pane s.agent.subscribed_panes) turns
  forwarded-wanted turns s e u = loop-due turns s u ∙ rw e refl
