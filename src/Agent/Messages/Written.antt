-- ===== src/Agent/Messages/Written.antt =====
-- agent/src/quic/server.rs, `handle_message`: what goes to tmux's control mode.
use oxmux.Prelude.{
  ℕ, ◌<◌, ◌≡◌, refl, true, ◌&&◌, List, [], ◌∷◌, ◌++◌, Option, arith, ltb, ◌==◌, if◌then◌else◌,
  Bool-cases, inl, inr, All,
}
use oxmux.Prelude.Text.{Text}
use oxmux.Prelude.Maps.{get, insert, get_self-insert}
use oxmux.Result.{Result, Result-cases}
use oxmux.Agent.Commands.{
  is_valid_pane_id, send_tmux_input, input_command, changed_command, same_command,
}
use oxmux.Agent.Messages.{
  resize_command, Value, AgentState, same_dims, write, resize, handle_sub, handle_unsub,
  handle_resize, reset_peer, handle_offer, add_candidate, handle_message, handle_messages,
}
use oxmux.Agent.Messages.Cases.{message-any}

-- a text the agent may write: one of three formats, for a pane id that passed the test and a size
-- that is not zero
pub data IsCommand : Text → Type 0 where
  input :
      (pane : Text) (bytes : List ℕ)
      → is_valid_pane_id pane ≡ true
      → IsCommand (input_command pane bytes)
  changed :
      (pane : Text) (cols rows : ℕ)
      → is_valid_pane_id pane ≡ true
      → 0 < cols
      → 0 < rows
      → IsCommand (changed_command pane cols rows)
  same :
      (pane : Text) (cols rows : ℕ)
      → is_valid_pane_id pane ≡ true
      → 0 < cols
      → 0 < rows
      → IsCommand (same_command pane cols rows)

input-IsCommand : (pane : Text) (bytes : List ℕ) → All IsCommand (send_tmux_input pane bytes)
unfolding send_tmux_input
input-IsCommand pane [] = tt
input-IsCommand pane (b ∷ bytes) = elim (Bool-cases (is_valid_pane_id pane)) [
  | inl valid ↦ rw valid (input pane (b ∷ bytes) valid, tt)
  | inr other ↦ rw other tt
]

All-append {ℓ κ} :
    {A : Type ℓ} (P : A → Type κ) (xs ys : List A) → All P xs → All P ys → All P (xs ++ ys)
All-append P [] ys hx hy = hy
All-append P (x ∷ xs) ys hx hy = (hx.0, All-append P xs ys hx.1 hy)

resize_command-IsCommand :
    (known : Option (ℕ × ℕ)) (pane : Text) (cols rows : ℕ)
    → (is_valid_pane_id pane && ltb 0 cols && ltb 0 rows) ≡ true
    → IsCommand (resize_command known pane cols rows)
resize_command-IsCommand known pane cols rows valid =
    elim (Bool-cases (same_dims known cols rows)) [
      | inl eq ↦ rw eq (same pane cols rows (ground arith) (ground arith) (ground arith))
      | inr ne ↦ rw ne (changed pane cols rows (ground arith) (ground arith) (ground arith))
    ]

module _ {Peer Channel : Type 0} (create_webrtc_answer : Text → Result (Peer × Text)) where
  write-IsCommand :
      (cmds : List Text) (s : AgentState Peer Channel)
      → All IsCommand cmds
      → All IsCommand s.written
      → All IsCommand (write cmds s).written
  unfolding write
  write-IsCommand cmds s hc h = elim (Bool-cases s.has_stdin) [
    | inl open_ ↦ rw open_ (All-append IsCommand cmds s.written hc h)
    | inr shut ↦ rw shut h
  ]

  resize-IsCommand :
      (pane : Text) (cols rows : ℕ) (s : AgentState Peer Channel)
      → All IsCommand s.written
      → All IsCommand (handle_resize pane cols rows s).written
  unfolding handle_resize resize
  resize-IsCommand pane cols rows s h =
      elim (Bool-cases (is_valid_pane_id pane && ltb 0 cols && ltb 0 rows)) [
        | inl valid ↦ rw valid (
            write-IsCommand (resize_command (get pane s.pane_dimensions) pane cols rows ∷ [])
              (record s { pane_dimensions = insert pane (cols, rows) s.pane_dimensions })
              (resize_command-IsCommand (get pane s.pane_dimensions) pane cols rows valid, tt) h)
        | inr other ↦ rw other h
      ]

  pub offer-written :
      (sdp : Text) (s : AgentState Peer Channel)
      → (handle_offer create_webrtc_answer sdp s).written ≡ s.written
  unfolding handle_offer reset_peer
  offer-written sdp s = elim (Result-cases (create_webrtc_answer sdp)) [
    | inl (r, e) ↦ rw e refl
    | inr (r, e) ↦ rw e refl
  ]

  candidate-written :
      (c : Text × Text) (s : AgentState Peer Channel) → (add_candidate c s).written ≡ s.written
  unfolding add_candidate
  candidate-written c s = ground arith

  message-IsCommand :
      (msg : Value) (s : AgentState Peer Channel)
      → All IsCommand s.written
      → All IsCommand (handle_message create_webrtc_answer msg s).written
  message-IsCommand msg s h =
      message-any create_webrtc_answer (λ x. All IsCommand x.written) msg s
        (λ pane.
          unfold handle_sub in
          elim (Bool-cases (is_valid_pane_id pane)) [ inl v ↦ rw v h | inr v ↦ rw v h ])
        (λ pane.
          unfold handle_unsub in
          elim (Bool-cases (is_valid_pane_id pane)) [ inl v ↦ rw v h | inr v ↦ rw v h ])
        (λ pane bytes.
          write-IsCommand (send_tmux_input pane bytes) s (input-IsCommand pane bytes) h)
        (λ pane cols rows. resize-IsCommand pane cols rows s h) (λ out. h)
        (λ sdp. rw (offer-written sdp s) h) (λ c. rw (candidate-written c s) h) h

  -- Whatever messages a client sends, every text that the agent writes to the control mode is an input
  -- command or a resize, for a pane id that passed the agent's test and for a size that is not zero, if
  -- that held before.
  pub written-IsCommand :
      (msgs : List Value) (s : AgentState Peer Channel)
      → All IsCommand s.written
      → All IsCommand (handle_messages create_webrtc_answer msgs s).written
  unfolding handle_messages
  written-IsCommand [] s h = h
  written-IsCommand (msg ∷ msgs) s h =
      written-IsCommand msgs (handle_message create_webrtc_answer msg s) (message-IsCommand msg s h)

-- A resize to the size that the pane was given last makes the program in the pane redraw; a resize to
-- another size does not force it. For a valid pane, sizes that are not zero, and an open control mode:
-- the second of two resizes of a pane writes the command with the signal exactly when its size is the
-- first's.
pub resize-twice :
    {Peer Channel : Type 0} (pane : Text) (c r cols rows : ℕ) (s : AgentState Peer Channel)
    → is_valid_pane_id pane ≡ true
    → 0 < c
    → 0 < r
    → 0 < cols
    → 0 < rows
    → s.has_stdin ≡ true
    → (handle_resize pane cols rows (handle_resize pane c r s)).written
      ≡ (if c == cols && r == rows
          then same_command pane cols rows
          else changed_command pane cols rows)
        ∷ (handle_resize pane c r s).written
unfolding handle_resize resize write
resize-twice pane c r cols rows s valid hc hr hcols hrows hs =
    let c_pos : ltb 0 c ≡ true = ground arith in
    let r_pos : ltb 0 r ≡ true = ground arith in
    let cols_pos : ltb 0 cols ≡ true = ground arith in
    let rows_pos : ltb 0 rows ≡ true = ground arith in
    rw valid (
      rw c_pos (
        rw r_pos (
          rw cols_pos
            (rw rows_pos (rw hs (rw (get_self-insert pane (c, r) s.pane_dimensions) refl))))))
