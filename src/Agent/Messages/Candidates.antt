-- ===== src/Agent/Messages/Candidates.antt =====
-- agent/src/quic/server.rs, `handle_message`: the ICE candidates of the browser.
use oxmux.Prelude.{
  ℕ, ◌≡◌, refl, sym, ap, ◌∙◌, append-nil, if◌then◌else◌, false, List, [], ◌∷◌, ◌++◌, Bool-cases,
  inl, inr, is_empty, ◌&&◌, ltb,
}
use oxmux.Prelude.Text.{Text, codes, text_eq, text_eq_iff}
use oxmux.Result.{Result, Result-cases}
use oxmux.Agent.Commands.{is_valid_pane_id, send_tmux_input}
use oxmux.Prelude.Maps.{get, insert}
use oxmux.Agent.Messages.{
  resize_command, Candidate, Value, find_key, get_str, ice_fields, AgentState, write, resize,
  handle_sub, handle_unsub, handle_resize, reset_peer, handle_offer, add_candidate, handle_message,
  handle_messages,
}
use oxmux.Agent.Messages.Cases.{message-any, message-plain}

-- the candidate of a message, unless it is empty
abbrev pub candidate_of : Value → List Candidate
candidate_of msg =
    let (text, mid) = ice_fields (find_key (codes "candidate") msg) in
    if is_empty text then [] else record { candidate = text; sdp_mid = mid } ∷ []

-- the queue after one message: an offer empties it, and a candidate goes to its end
abbrev pub queue_after : Value → List Candidate → List Candidate
queue_after msg queue =
    if text_eq (get_str msg (codes "t")) (codes "webrtc_offer")
    then []
    else if text_eq (get_str msg (codes "t")) (codes "webrtc_ice")
    then queue ++ candidate_of msg
    else queue

abbrev pub queue_of : List Value → List Candidate → List Candidate
queue_of [] queue = queue
queue_of (msg ∷ msgs) queue = queue_of msgs (queue_after msg queue)

module _ {Peer Channel : Type 0} (create_webrtc_answer : Text → Result (Peer × Text)) where
  -- the flag is off, and the candidates that were added are `added`
  abbrev IsQueueing : List (Peer × Candidate) → AgentState Peer Channel → Type 0
  IsQueueing added s = (s.webrtc_remote_set ≡ false) × (s.added ≡ added)

  write-IsQueueing :
      {added : List (Peer × Candidate)} (cmds : List Text) (s : AgentState Peer Channel)
      → IsQueueing added s
      → IsQueueing added (write cmds s)
  unfolding write
  write-IsQueueing cmds s h = elim (Bool-cases s.has_stdin) [ inl e ↦ rw e h | inr e ↦ rw e h ]

  offer-IsQueueing :
      {added : List (Peer × Candidate)} (sdp : Text) (s : AgentState Peer Channel)
      → IsQueueing added s
      → IsQueueing added (handle_offer create_webrtc_answer sdp s)
  unfolding handle_offer reset_peer
  offer-IsQueueing sdp s h = elim (Result-cases (create_webrtc_answer sdp)) [
    | inl (r, e) ↦ rw e (refl, h.1)
    | inr (r, e) ↦ rw e (refl, h.1)
  ]

  candidate-IsQueueing :
      {added : List (Peer × Candidate)} (c : Text × Text) (s : AgentState Peer Channel)
      → IsQueueing added s
      → IsQueueing added (add_candidate c s)
  unfolding add_candidate
  candidate-IsQueueing (text, mid) s h = elim (Bool-cases (is_empty text)) [
    | inl e ↦ rw e h
    | inr e ↦ rw e (rw h.0 (refl, h.1))
  ]

  resize-IsQueueing :
      {added : List (Peer × Candidate)} (pane : Text) (cols rows : ℕ) (s : AgentState Peer Channel)
      → IsQueueing added s
      → IsQueueing added (handle_resize pane cols rows s)
  unfolding handle_resize resize
  resize-IsQueueing pane cols rows s h =
      elim (Bool-cases (is_valid_pane_id pane && ltb 0 cols && ltb 0 rows)) [
        | inl e ↦ rw e (
            write-IsQueueing (resize_command (get pane s.pane_dimensions) pane cols rows ∷ [])
              (record s { pane_dimensions = insert pane (cols, rows) s.pane_dimensions }) h)
        | inr e ↦ rw e h
      ]

  message-IsQueueing :
      {added : List (Peer × Candidate)} (msg : Value) (s : AgentState Peer Channel)
      → IsQueueing added s
      → IsQueueing added (handle_message create_webrtc_answer msg s)
  message-IsQueueing {added} msg s h =
      message-any create_webrtc_answer (IsQueueing added) msg s
        (λ pane.
          unfold handle_sub in
          elim (Bool-cases (is_valid_pane_id pane)) [ inl e ↦ rw e h | inr e ↦ rw e h ])
        (λ pane.
          unfold handle_unsub in
          elim (Bool-cases (is_valid_pane_id pane)) [ inl e ↦ rw e h | inr e ↦ rw e h ])
        (λ pane bytes. write-IsQueueing (send_tmux_input pane bytes) s h)
        (λ pane cols rows. resize-IsQueueing pane cols rows s h) (λ out. h)
        (λ sdp. offer-IsQueueing sdp s h) (λ c. candidate-IsQueueing c s h) h

  queued :
      {added : List (Peer × Candidate)} (msgs : List Value) (s : AgentState Peer Channel)
      → IsQueueing added s
      → IsQueueing added (handle_messages create_webrtc_answer msgs s)
  unfolding handle_messages
  queued [] s h = h
  queued (msg ∷ msgs) s h =
      queued msgs (handle_message create_webrtc_answer msg s) (message-IsQueueing msg s h)

  pending-offer :
      (sdp : Text) (s : AgentState Peer Channel)
      → (handle_offer create_webrtc_answer sdp s).webrtc_pending_candidates ≡ []
  unfolding handle_offer reset_peer
  pending-offer sdp s = elim (Result-cases (create_webrtc_answer sdp)) [
    | inl (r, e) ↦ rw e refl
    | inr (r, e) ↦ rw e refl
  ]

  pending-candidate :
      (msg : Value) (s : AgentState Peer Channel)
      → s.webrtc_remote_set ≡ false
      → (add_candidate (ice_fields (find_key (codes "candidate") msg)) s).webrtc_pending_candidates
        ≡ s.webrtc_pending_candidates ++ candidate_of msg
  unfolding add_candidate
  pending-candidate msg s off =
      elim (Bool-cases (is_empty (ice_fields (find_key (codes "candidate") msg)).0)) [
        | inl e ↦ rw e (sym (append-nil s.webrtc_pending_candidates))
        | inr e ↦ rw e (rw off refl)
      ]

  pending-write :
      (cmds : List Text) (s : AgentState Peer Channel)
      → (write cmds s).webrtc_pending_candidates ≡ s.webrtc_pending_candidates
  unfolding write
  pending-write cmds s = elim (Bool-cases s.has_stdin) [ inl e ↦ rw e refl | inr e ↦ rw e refl ]

  pending-resize :
      (pane : Text) (cols rows : ℕ) (s : AgentState Peer Channel)
      → (handle_resize pane cols rows s).webrtc_pending_candidates ≡ s.webrtc_pending_candidates
  unfolding handle_resize resize
  pending-resize pane cols rows s =
      elim (Bool-cases (is_valid_pane_id pane && ltb 0 cols && ltb 0 rows)) [
        | inl e ↦ rw e (
            pending-write (resize_command (get pane s.pane_dimensions) pane cols rows ∷ [])
              (record s { pane_dimensions = insert pane (cols, rows) s.pane_dimensions }))
        | inr e ↦ rw e refl
      ]

  pending-sub :
      (pane : Text) (s : AgentState Peer Channel)
      → (handle_sub pane s).webrtc_pending_candidates ≡ s.webrtc_pending_candidates
  unfolding handle_sub
  pending-sub pane s = elim (Bool-cases (is_valid_pane_id pane)) [
    | inl e ↦ rw e refl
    | inr e ↦ rw e refl
  ]

  pending-unsub :
      (pane : Text) (s : AgentState Peer Channel)
      → (handle_unsub pane s).webrtc_pending_candidates ≡ s.webrtc_pending_candidates
  unfolding handle_unsub
  pending-unsub pane s = elim (Bool-cases (is_valid_pane_id pane)) [
    | inl e ↦ rw e refl
    | inr e ↦ rw e refl
  ]

  pending-other :
      (msg : Value) (s : AgentState Peer Channel)
      → text_eq (get_str msg (codes "t")) (codes "webrtc_offer") ≡ false
      → text_eq (get_str msg (codes "t")) (codes "webrtc_ice") ≡ false
      → (handle_message create_webrtc_answer msg s).webrtc_pending_candidates
        ≡ s.webrtc_pending_candidates
  pending-other msg s no_offer no_ice =
      message-plain create_webrtc_answer
        (λ x. x.webrtc_pending_candidates ≡ s.webrtc_pending_candidates) msg s no_offer no_ice
        (λ pane. pending-sub pane s) (λ pane. pending-unsub pane s)
        (λ pane bytes. pending-write (send_tmux_input pane bytes) s)
        (λ pane cols rows. pending-resize pane cols rows s) (λ out. refl) refl

  pending-message :
      (msg : Value) (s : AgentState Peer Channel)
      → s.webrtc_remote_set ≡ false
      → (handle_message create_webrtc_answer msg s).webrtc_pending_candidates
        ≡ queue_after msg s.webrtc_pending_candidates
  unfolding handle_message text_eq
  pending-message msg s off =
      elim (Bool-cases (text_eq (get_str msg (codes "t")) (codes "webrtc_offer"))) [
        | inl e ↦
            rw ((text_eq_iff (get_str msg (codes "t")) (codes "webrtc_offer")).0 e)
              (pending-offer (get_str msg (codes "sdp")) s)
        | inr no_offer ↦
            elim (Bool-cases (text_eq (get_str msg (codes "t")) (codes "webrtc_ice"))) [
              | inl e ↦
                  rw ((text_eq_iff (get_str msg (codes "t")) (codes "webrtc_ice")).0 e)
                    (pending-candidate msg s off)
              | inr no_ice ↦ pending-other msg s no_offer no_ice ∙ rw (no_offer, no_ice) refl
            ]
      ]

  pending-messages :
      (msgs : List Value) (s : AgentState Peer Channel)
      → s.webrtc_remote_set ≡ false
      → (handle_messages create_webrtc_answer msgs s).webrtc_pending_candidates
        ≡ queue_of msgs s.webrtc_pending_candidates
  unfolding handle_messages
  pending-messages [] s off = refl
  pending-messages (msg ∷ msgs) s off =
      pending-messages msgs (handle_message create_webrtc_answer msg s)
        (message-IsQueueing msg s (off, refl)).0
      ∙ ap (queue_of msgs) (pending-message msg s off)

  -- A session starts with the flag `webrtc_remote_set` off. From such a state no sequence of messages
  -- turns it on, and none of the browser's candidates is ever given to a peer connection: the queue is
  -- what was in it and the candidates that are not empty, in their order, those since the last offer
  -- only, since an offer empties it.
  pub candidates-queued :
      (msgs : List Value) (s : AgentState Peer Channel)
      → s.webrtc_remote_set ≡ false
      → ((handle_messages create_webrtc_answer msgs s).webrtc_remote_set ≡ false)
        × ((handle_messages create_webrtc_answer msgs s).added ≡ s.added)
        × ((handle_messages create_webrtc_answer msgs s).webrtc_pending_candidates
            ≡ queue_of msgs s.webrtc_pending_candidates)
  candidates-queued msgs s h =
      let (off, same) = queued msgs s (h, refl) in (off, same, pending-messages msgs s h)
