-- ===== src/Session/Signal/Balanced.antt =====
-- server/src/session/webrtc_signal.rs: what one call takes from the channel of a peer and gives to it.
use oxmux.Prelude.{
  ◌≡◌, refl, sym, ◌∙◌, Bool, true, List, [], ◌∷◌, none, some, false, arith, ltb, length,
  length-append, append-nil, Bool-cases, Option-cases, inl, inr,
}
use oxmux.Prelude.Text.{Text, text_eq, text_eq_iff}
use oxmux.Prelude.Maps.{Map, get, modify, get-insert, get-remove, get-modify}
use oxmux.Session.Signal.{
  SignalMessage, Channel, WebRtcSignaler, register_agent, unregister_agent, create_signal_channel,
  remove_signal_channel, target, offer, answer, ice_candidate, ready, bye, add_message,
  relay_signal, receive, capacity, first_waiting, without_first,
}
use oxmux.Session.Signal.Calls.{
  Call, registers, unregisters, creates, removes, relays, receives, accepted, nothing, relayed_as,
  received_as, call, is_for, KeepsOne, Balance,
}

some-injective : {a b : Channel} → some a ≡ some b → a ≡ b
some-injective e = cc

pub is_for-target :
    (peer to : Text) (msg : SignalMessage)
    → target msg ≡ some to
    → is_for peer msg ≡ text_eq to peer
unfolding target
is_for-target peer to (offer from t sdp) h = cc
is_for-target peer to (answer from t sdp) h = cc
is_for-target peer to (ice_candidate from t candidate sdp_mid sdp_mline_index) h = cc
is_for-target peer to (ready agent_id) h = cc
is_for-target peer to (bye from) h = absurd (cc)

pub is_for-none : (peer : Text) (msg : SignalMessage) → target msg ≡ none → is_for peer msg ≡ false
unfolding target
is_for-none peer (offer from t sdp) h = absurd (cc)
is_for-none peer (answer from t sdp) h = absurd (cc)
is_for-none peer (ice_candidate from t candidate sdp_mid sdp_mline_index) h = absurd (cc)
is_for-none peer (ready agent_id) h = absurd (cc)
is_for-none peer (bye from) h = refl

module _ (peer : Text) (c : Channel) where
  unmoved : (m : Map Channel) → get peer m ≡ some c → Balance peer c.waiting nothing m
  unmoved m h = (c, h, append-nil c.waiting, λ short. short)

  Balance-sent :
      (msg : SignalMessage) (to : Text) (d : Channel) (m : Map Channel)
      → get peer m ≡ some c
      → get to m ≡ some d
      → target msg ≡ some to
      → ltb (length d.waiting) capacity ≡ true
      → Balance peer c.waiting (accepted msg) (modify to (add_message msg) m)
  Balance-sent msg to d m h hd ht room = elim (Bool-cases (text_eq to peer)) [
    | inr other ↦ (
      c,
      get-modify to peer (add_message msg) m ∙ rw other h,
      rw (is_for-target peer to msg ht) (rw other (append-nil c.waiting)),
      λ short. short,
    )
    | inl same ↦
        let at_peer : to ≡ peer = (text_eq_iff to peer).0 same in
        let mine : d ≡ c = some-injective (sym hd ∙ rw at_peer h) in
        let fits : ltb (length c.waiting) capacity ≡ true = rw (← mine) room in
        (
          add_message msg c,
          get-modify to peer (add_message msg) m ∙ rw same (rw h refl),
          rw (is_for-target peer to msg ht) (rw same refl),
          λ short. rw (length-append c.waiting (msg ∷ [])) (ground arith),
        )
  ]

  Balance-relay :
      (msg : SignalMessage) (s : WebRtcSignaler)
      → get peer s.signal_channels ≡ some c
      → Balance peer c.waiting
          (relayed_as msg (relay_signal msg s)).0
          (relayed_as msg (relay_signal msg s)).1.signal_channels
  unfolding relay_signal
  Balance-relay msg s h = elim (Option-cases (target msg)) [
    | inl no_one ↦ rw (no_one, relay_signal) (unmoved s.signal_channels h)
    | inr (to, ht) ↦
        rw (ht, relay_signal)
          (elim (Option-cases (get to s.signal_channels)) [
            | inl absent ↦ rw absent (unmoved s.signal_channels h)
            | inr (d, hd) ↦ rw hd (elim (Bool-cases d.has_receiver) [
              | inr gone ↦ rw gone (unmoved s.signal_channels h)
              | inl there ↦ rw there (elim (Bool-cases (ltb (length d.waiting) capacity)) [
                | inr full ↦ rw full (unmoved s.signal_channels h)
                | inl room ↦ rw room (Balance-sent msg to d s.signal_channels h hd ht room)
              ])
            ])
          ])
  ]

  Balance-received :
      (other : Text) (msgs : List SignalMessage) (there : Bool) (s : WebRtcSignaler)
      → get peer s.signal_channels ≡ some c
      → get other s.signal_channels ≡ some (record { waiting = msgs; has_receiver = there })
      → let r = received_as other (
        first_waiting msgs,
        record s { signal_channels = modify other without_first s.signal_channels },
      ) in
        Balance peer c.waiting r.0 r.1.signal_channels
  Balance-received other [] there s h hd = elim (Bool-cases (text_eq other peer)) [
    | inr away ↦ unmoved _ (get-modify other peer without_first s.signal_channels ∙ rw away h)
    | inl same ↦
        let mine : c ≡ record { waiting = []; has_receiver = there } =
          some-injective (sym h ∙ rw (← (text_eq_iff other peer).0 same) hd) in
        (
          without_first c,
          get-modify other peer without_first s.signal_channels ∙ rw same (rw h refl),
          rw mine refl,
          rw mine (λ short. short),
        )
  ]
  Balance-received other (msg ∷ msgs) there s h hd = elim (Bool-cases (text_eq other peer)) [
    | inr away ↦ (
      c,
      get-modify other peer without_first s.signal_channels ∙ rw away h,
      rw away (append-nil c.waiting),
      λ short. short,
    )
    | inl same ↦
        let mine : c ≡ record { waiting = msg ∷ msgs; has_receiver = there } =
          some-injective (sym h ∙ rw (← (text_eq_iff other peer).0 same) hd) in
        (
          without_first c,
          get-modify other peer without_first s.signal_channels ∙ rw same (rw h refl),
          rw same (rw mine (append-nil (msg ∷ msgs))),
          rw mine (λ short. omega arith),
        )
  ]

  Balance-receive :
      (other : Text) (s : WebRtcSignaler)
      → get peer s.signal_channels ≡ some c
      → Balance peer c.waiting
          (received_as other (receive other s)).0
          (received_as other (receive other s)).1.signal_channels
  unfolding receive
  Balance-receive other s h = elim (Option-cases (get other s.signal_channels)) [
    | inl absent ↦ rw (absent, receive) (unmoved s.signal_channels h)
    | inr (d, hd) ↦ rw (hd, receive) (Balance-received other d.waiting d.has_receiver s h hd)
  ]

  pub Balance-call :
      (k : Call) (s : WebRtcSignaler)
      → KeepsOne peer k
      → get peer s.signal_channels ≡ some c
      → Balance peer c.waiting (call k s).0 (call k s).1.signal_channels
  unfolding call register_agent unregister_agent create_signal_channel remove_signal_channel
  Balance-call (registers info) s kept h = unmoved _ h
  Balance-call (unregisters agent_id) s kept h =
      unmoved _ (get-remove agent_id peer s.signal_channels ∙ rw kept h)
  Balance-call (creates other) s kept h =
      unmoved _ (get-insert other peer _ s.signal_channels ∙ rw kept h)
  Balance-call (removes other) s kept h =
      unmoved _ (get-remove other peer s.signal_channels ∙ rw kept h)
  Balance-call (relays msg) s kept h = Balance-relay msg s h
  Balance-call (receives other) s kept h = Balance-receive other s h
