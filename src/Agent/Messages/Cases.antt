-- ===== src/Agent/Messages/Cases.antt =====
-- agent/src/quic/server.rs, `handle_message`: reasoning by the kinds of message.
use oxmux.Prelude.{
  ℕ, ◌%◌, ◌^◌, ◌≡◌, Bool, true, false, List, ◌∷◌, if◌then◌else◌, Bool-cases, inl, inr,
}
use oxmux.Prelude.Text.{Text, codes, text_eq}
use oxmux.Result.{Result}
use oxmux.Agent.Commands.{send_tmux_input}
use oxmux.Agent.Messages.{
  Value, Sent, pong, no_sessions, find_key, get_str, get_bytes, get_u64, AgentState, write,
  handle_sub, handle_unsub, handle_resize, handle_offer, ice_fields, add_candidate, handle_message,
}

if-P {ℓ κ} : {A : Type ℓ} (P : A → Type κ) (b : Bool) (x y : A) → P x → P y → P (if b then x else y)
if-P P true x y hx hy = hx
if-P P false x y hx hy = hy

module _ {κ} {Peer Channel : Type 0} (create_webrtc_answer : Text → Result (Peer × Text))
    (P : AgentState Peer Channel → Type κ) where
  -- What holds after each of the other kinds holds after a message that is neither `sub` nor `unsub`.
  pub message-other :
      (msg : Value) (s : AgentState Peer Channel)
      → text_eq (get_str msg (codes "t")) (codes "sub") ≡ false
      → text_eq (get_str msg (codes "t")) (codes "unsub") ≡ false
      → ((pane : Text) (bytes : List ℕ) → P (write (send_tmux_input pane bytes) s))
      → ((pane : Text) (cols rows : ℕ) → P (handle_resize pane cols rows s))
      → ((out : Sent) → P (record s { sent = out ∷ s.sent }))
      → ((sdp : Text) → P (handle_offer create_webrtc_answer sdp s))
      → ((c : Text × Text) → P (add_candidate c s))
      → P s
      → P (handle_message create_webrtc_answer msg s)
  unfolding handle_message
  message-other msg s no_sub no_unsub input resize send offer candidate same =
      let pane = get_str msg (codes "pane") in
      rw no_sub (
        rw no_unsub (
          if-P P _ _ _ (input pane (get_bytes msg (codes "data"))) (
            if-P P _ _ _
              (resize pane (get_u64 msg (codes "cols") % 2 ^ 16)
                (get_u64 msg (codes "rows") % 2 ^ 16))
              (if-P P _ _ _ (send (pong (get_u64 msg (codes "ts")))) (
                if-P P _ _ _ (send no_sessions) (
                  if-P P _ _ _ (offer (get_str msg (codes "sdp"))) (
                    if-P P _ _ _ (candidate (ice_fields (find_key (codes "candidate") msg)))
                      same)))))))

  -- What holds after each of the other kinds holds after a message that is neither an offer nor a candidate.
  pub message-plain :
      (msg : Value) (s : AgentState Peer Channel)
      → text_eq (get_str msg (codes "t")) (codes "webrtc_offer") ≡ false
      → text_eq (get_str msg (codes "t")) (codes "webrtc_ice") ≡ false
      → ((pane : Text) → P (handle_sub pane s))
      → ((pane : Text) → P (handle_unsub pane s))
      → ((pane : Text) (bytes : List ℕ) → P (write (send_tmux_input pane bytes) s))
      → ((pane : Text) (cols rows : ℕ) → P (handle_resize pane cols rows s))
      → ((out : Sent) → P (record s { sent = out ∷ s.sent }))
      → P s
      → P (handle_message create_webrtc_answer msg s)
  unfolding handle_message
  message-plain msg s no_offer no_ice sub unsub input resize send same =
      let pane = get_str msg (codes "pane") in
      rw no_offer (
        rw no_ice (
          if-P P _ _ _ (sub pane) (
            if-P P _ _ _ (unsub pane) (
              if-P P _ _ _ (input pane (get_bytes msg (codes "data"))) (
                if-P P _ _ _
                  (resize pane (get_u64 msg (codes "cols") % 2 ^ 16)
                    (get_u64 msg (codes "rows") % 2 ^ 16))
                  (if-P P _ _ _ (send (pong (get_u64 msg (codes "ts"))))
                    (if-P P _ _ _ (send no_sessions) same)))))))

  -- What holds after each kind holds after any message.
  pub message-any :
      (msg : Value) (s : AgentState Peer Channel)
      → ((pane : Text) → P (handle_sub pane s))
      → ((pane : Text) → P (handle_unsub pane s))
      → ((pane : Text) (bytes : List ℕ) → P (write (send_tmux_input pane bytes) s))
      → ((pane : Text) (cols rows : ℕ) → P (handle_resize pane cols rows s))
      → ((out : Sent) → P (record s { sent = out ∷ s.sent }))
      → ((sdp : Text) → P (handle_offer create_webrtc_answer sdp s))
      → ((c : Text × Text) → P (add_candidate c s))
      → P s
      → P (handle_message create_webrtc_answer msg s)
  message-any msg s sub unsub input resize send offer candidate same =
      elim (Bool-cases (text_eq (get_str msg (codes "t")) (codes "sub"))) [
        | inl is_sub ↦ unfold handle_message in rw is_sub (sub (get_str msg (codes "pane")))
        | inr no_sub ↦ elim (Bool-cases (text_eq (get_str msg (codes "t")) (codes "unsub"))) [
          | inl is_unsub ↦
              unfold handle_message in rw no_sub (rw is_unsub (unsub (get_str msg (codes "pane"))))
          | inr no_unsub ↦
              message-other msg s no_sub no_unsub input resize send offer candidate same
        ]
      ]
