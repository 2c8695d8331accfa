-- ===== src/Agent/Messages/Wanted.antt =====
-- agent/src/quic/server.rs, `handle_message`: the set of subscribed panes.
use oxmux.Prelude.{
  ℕ, ◌≡◌, refl, ap, ◌∙◌, Bool, true, false, not, ◌&&◌, ◌||◌, List, [], ◌∷◌, arith, if◌then◌else◌,
  Bool-cases, inl, inr,
}
use oxmux.Prelude.Text.{Text, codes, text_eq, text_eq_iff}
use oxmux.Result.{Result, Result-cases}
use oxmux.Agent.Commands.{is_valid_pane_id, send_tmux_input}
use oxmux.Agent.Messages.Cases.{message-other}
use oxmux.Agent.Messages.{
  Value, get_str, AgentState, contains, without, with_pane, write, resize, handle_sub, handle_unsub,
  handle_resize, reset_peer, handle_offer, add_candidate, handle_message, handle_messages,
}

contains-with_pane :
    (p q : Text) (ps : List Text) → contains p (with_pane q ps) ≡ (text_eq p q || contains p ps)
contains-with_pane p q ps = elim (Bool-cases (contains q ps)) [
  | inl old ↦ rw old (found ps old)
  | inr fresh ↦ rw fresh refl
]
  where
    found : (ps : List Text) → contains q ps ≡ true → contains p ps ≡ (text_eq p q || contains p ps)
    found [] h = ground arith
    found (r ∷ rs) h = ground (arith, found rs, text_eq_iff p q, text_eq_iff q r, text_eq_iff p r)

contains-without :
    (p q : Text) (ps : List Text) → contains p (without q ps) ≡ (not (text_eq p q) && contains p ps)
contains-without p q [] = ground arith
contains-without p q (r ∷ rs) =
    ground (arith, contains-without p q rs, text_eq_iff p q, text_eq_iff q r, text_eq_iff p r)

-- the message is of the kind `t` and names the pane
abbrev names : Text → Text → Value → Bool
names t pane msg = text_eq (get_str msg (codes "t")) t && text_eq pane (get_str msg (codes "pane"))

-- what one message does to the subscription of a pane
abbrev after : Text → Value → Bool → Bool
after pane msg before =
    if names (codes "sub") pane msg
    then true
    else if names (codes "unsub") pane msg
    then false
    else before

-- what the last `sub` or `unsub` for the pane says; `before` when there is none
unfoldable pub last_word : Text → List Value → Bool → Bool
last_word pane [] before = before
last_word pane (msg ∷ msgs) before = last_word pane msgs (after pane msg before)

sub-no_unsub : (t : Text) → text_eq t (codes "sub") ≡ true → text_eq t (codes "unsub") ≡ false
unfolding text_eq
sub-no_unsub [] h = refl
sub-no_unsub (c ∷ s) h = ground arith

module _ {Peer Channel : Type 0} (create_webrtc_answer : Text → Result (Peer × Text)) where
  panes-write :
      (cmds : List Text) (s : AgentState Peer Channel)
      → (write cmds s).subscribed_panes ≡ s.subscribed_panes
  unfolding write
  panes-write cmds s = ground arith

  panes-resize :
      (pane : Text) (cols rows : ℕ) (s : AgentState Peer Channel)
      → (handle_resize pane cols rows s).subscribed_panes ≡ s.subscribed_panes
  unfolding handle_resize resize write
  panes-resize pane cols rows s = ground arith

  panes-offer :
      (sdp : Text) (s : AgentState Peer Channel)
      → (handle_offer create_webrtc_answer sdp s).subscribed_panes ≡ s.subscribed_panes
  unfolding handle_offer reset_peer
  panes-offer sdp s = elim (Result-cases (create_webrtc_answer sdp)) [
    | inl (r, e) ↦ rw e refl
    | inr (r, e) ↦ rw e refl
  ]

  panes-candidate :
      (c : Text × Text) (s : AgentState Peer Channel)
      → (add_candidate c s).subscribed_panes ≡ s.subscribed_panes
  unfolding add_candidate
  panes-candidate c s = ground arith

  panes-other :
      (msg : Value) (s : AgentState Peer Channel)
      → text_eq (get_str msg (codes "t")) (codes "sub") ≡ false
      → text_eq (get_str msg (codes "t")) (codes "unsub") ≡ false
      → (handle_message create_webrtc_answer msg s).subscribed_panes ≡ s.subscribed_panes
  panes-other msg s no_sub no_unsub =
      message-other create_webrtc_answer (λ x. x.subscribed_panes ≡ s.subscribed_panes) msg s no_sub
        no_unsub (λ pane bytes. panes-write (send_tmux_input pane bytes) s)
        (λ pane cols rows. panes-resize pane cols rows s) (λ out. refl) (λ sdp. panes-offer sdp s)
        (λ c. panes-candidate c s) refl

  contains-sub :
      (pane q : Text) (s : AgentState Peer Channel)
      → is_valid_pane_id pane ≡ true
      → contains pane (handle_sub q s).subscribed_panes
        ≡ (text_eq pane q || contains pane s.subscribed_panes)
  unfolding handle_sub
  contains-sub pane q s valid = elim (Bool-cases (is_valid_pane_id q)) [
    | inl ok_q ↦ rw ok_q (contains-with_pane pane q s.subscribed_panes)
    | inr bad ↦ ground (arith, text_eq_iff pane q)
  ]

  contains-unsub :
      (pane q : Text) (s : AgentState Peer Channel)
      → is_valid_pane_id pane ≡ true
      → contains pane (handle_unsub q s).subscribed_panes
        ≡ (not (text_eq pane q) && contains pane s.subscribed_panes)
  unfolding handle_unsub
  contains-unsub pane q s valid = elim (Bool-cases (is_valid_pane_id q)) [
    | inl ok_q ↦ rw ok_q (contains-without pane q s.subscribed_panes)
    | inr bad ↦ ground (arith, text_eq_iff pane q)
  ]

  contains-step :
      (pane : Text) (msg : Value) (s : AgentState Peer Channel)
      → is_valid_pane_id pane ≡ true
      → contains pane (handle_message create_webrtc_answer msg s).subscribed_panes
        ≡ after pane msg (contains pane s.subscribed_panes)
  contains-step pane msg s valid =
      elim (Bool-cases (text_eq (get_str msg (codes "t")) (codes "sub"))) [
        | inl is_sub ↦
            unfold handle_message in
            rw is_sub (
              contains-sub pane (get_str msg (codes "pane")) s valid
              ∙ ground (arith, sub-no_unsub (get_str msg (codes "t"))))
        | inr no_sub ↦ elim (Bool-cases (text_eq (get_str msg (codes "t")) (codes "unsub"))) [
          | inl is_unsub ↦
              unfold handle_message in
              rw no_sub (
                rw is_unsub (
                  contains-unsub pane (get_str msg (codes "pane")) s valid
                  ∙ ground (arith, sub-no_unsub (get_str msg (codes "t")))))
          | inr no_unsub ↦
              ap (λ ps. contains pane ps) (panes-other msg s no_sub no_unsub) ∙ ground (arith)
        ]
      ]

  -- After any messages, the agent forwards a valid pane exactly when the last `sub` or `unsub` that
  -- names the pane was a `sub`; with no such message, when it did so before.
  pub subscribed-last_word :
      (pane : Text) (msgs : List Value) (s : AgentState Peer Channel)
      → is_valid_pane_id pane ≡ true
      → contains pane (handle_messages create_webrtc_answer msgs s).subscribed_panes
        ≡ last_word pane msgs (contains pane s.subscribed_panes)
  unfolding handle_messages last_word
  subscribed-last_word pane [] s valid = refl
  subscribed-last_word pane (msg ∷ msgs) s valid =
      subscribed-last_word pane msgs (handle_message create_webrtc_answer msg s) valid
      ∙ ap (last_word pane msgs) (contains-step pane msg s valid)
