-- ===== src/Session/Signal/Mailbox.antt =====
-- server/src/session/webrtc_signal.rs: the messages of one peer over a sequence of calls.
use oxmux.Prelude.{
  ◌≤◌, ◌≡◌, refl, sym, ap, ◌∙◌, true, List, [], ◌∷◌, ◌++◌, ◌&&◌, if◌then◌else◌, Option, none, some,
  false, ltb, length, append_assoc, append-nil, Bool-cases, Option-cases, inl, inr,
}
use oxmux.Prelude.Text.{Text, text_eq, text_eq_iff}
use oxmux.Prelude.Maps.{Map, get, get-insert, get-remove, get-modify}
use oxmux.Session.Signal.{
  SignalMessage, Channel, WebRtcSignaler, register_agent, unregister_agent, create_signal_channel,
  remove_signal_channel, target, add_message, relay_signal, receive, capacity, without_first,
}
use oxmux.Session.Signal.Calls.{
  Call, registers, unregisters, creates, removes, relays, receives, Came, relayed_as, received_as,
  call, calls, mailbox_after, mailbox, after_first, given_one, taken_one, given, taken, KeepsOne,
  Keeps,
}
use oxmux.Session.Signal.Balanced.{is_for-target, is_for-none, Balance-call}

none-some : {a : Channel} → none ≡ some a → ⊥
none-some e = cc

module _ (peer : Text) (c : Channel) where
  relay-away :
      (msg : SignalMessage) (to : Text) (s : WebRtcSignaler)
      → target msg ≡ some to
      → text_eq to peer ≡ false
      → get peer s.signal_channels ≡ some c
      → get peer (relayed_as msg (relay_signal msg s)).1.signal_channels ≡ some c
  unfolding relay_signal
  relay-away msg to s ht other h =
      rw (ht, relay_signal)
        (elim (Option-cases (get to s.signal_channels)) [
          | inl absent ↦ rw absent h
          | inr (d, hd) ↦ rw hd (elim (Bool-cases d.has_receiver) [
            | inr gone ↦ rw gone h
            | inl there ↦ rw there (elim (Bool-cases (ltb (length d.waiting) capacity)) [
              | inr full ↦ rw full h
              | inl room ↦
                  rw room (get-modify to peer (add_message msg) s.signal_channels ∙ rw other h)
            ])
          ])
        ])

  relay-here :
      (msg : SignalMessage) (to : Text) (s : WebRtcSignaler)
      → target msg ≡ some to
      → text_eq to peer ≡ true
      → get peer s.signal_channels ≡ some c
      → get peer (relayed_as msg (relay_signal msg s)).1.signal_channels
        ≡ some (
            if c.has_receiver && ltb (length c.waiting) 64
            then record c { waiting = c.waiting ++ msg ∷ [] }
            else c)
  unfolding relay_signal
  relay-here msg to s ht same h =
      let known : get to s.signal_channels ≡ some c = rw ((text_eq_iff to peer).0 same) h in
      rw (ht, relay_signal)
        (rw known (elim (Bool-cases c.has_receiver) [
          | inr gone ↦
              rw gone (h ∙ ap (λ b. some (record { waiting = c.waiting; has_receiver = b })) gone)
          | inl there ↦ rw there (elim (Bool-cases (ltb (length c.waiting) 64)) [
            | inr full ↦
                rw full
                  (h ∙ ap (λ b. some (record { waiting = c.waiting; has_receiver = b })) there)
            | inl room ↦ rw room (
                get-modify to peer (add_message msg) s.signal_channels
                ∙ rw same (
                    rw h (
                      ap (λ b. some (record { waiting = c.waiting ++ msg ∷ []; has_receiver = b }))
                        there)))
          ])
        ]))

  received-state :
      (other : Text) (o : Option SignalMessage) (s : WebRtcSignaler)
      → (received_as other (o, s)).1 ≡ s
  received-state other none s = refl
  received-state other (some msg) s = refl

  after-first : (d : Channel) → without_first d ≡ record d { waiting = after_first d.waiting }
  after-first d =
      elim d.waiting
        as (λ w. without_first (record d { waiting = w }) ≡ record d { waiting = after_first w }) [
          | [] ↦ refl
          | msg ∷ msgs ↦ refl
        ]

  receive-mailbox :
      (other : Text) (s : WebRtcSignaler)
      → get peer s.signal_channels ≡ some c
      → get peer (received_as other (receive other s)).1.signal_channels
        ≡ some (mailbox_after peer (receives other) c)
  unfolding receive
  receive-mailbox other s h = elim (Option-cases (get other s.signal_channels)) [
    | inl absent ↦
        rw (absent, receive)
          (elim (Bool-cases (text_eq other peer)) [
            | inr away ↦ rw away h
            | inl same ↦
                absurd (none-some {a = c} (sym absent ∙ rw ((text_eq_iff other peer).0 same) h))
          ])
    | inr (d, hd) ↦
        rw (hd, receive)
          (ap (λ x. get peer x.signal_channels) (received-state other _ _)
            ∙ (get-modify other peer without_first s.signal_channels
                ∙ elim (Bool-cases (text_eq other peer)) [
                  | inr away ↦ rw away h
                  | inl same ↦ rw same (rw h (ap (λ x. some x) (after-first c)))
                ]))
  ]

  relay-mailbox :
      (msg : SignalMessage) (s : WebRtcSignaler)
      → get peer s.signal_channels ≡ some c
      → get peer (call (relays msg) s).1.signal_channels ≡ some (mailbox_after peer (relays msg) c)
  unfolding call relay_signal
  relay-mailbox msg s h = elim (Option-cases (target msg)) [
    | inl no_one ↦ rw (no_one, relay_signal) (rw (is_for-none peer msg no_one) h)
    | inr (to, ht) ↦ elim (Bool-cases (text_eq to peer)) [
      | inr other ↦ rw (is_for-target peer to msg ht) (rw other (relay-away msg to s ht other h))
      | inl same ↦ rw (is_for-target peer to msg ht) (rw same (relay-here msg to s ht same h))
    ]
  ]

  call-mailbox :
      (k : Call) (s : WebRtcSignaler)
      → KeepsOne peer k
      → get peer s.signal_channels ≡ some c
      → get peer (call k s).1.signal_channels ≡ some (mailbox_after peer k c)
  unfolding call register_agent unregister_agent create_signal_channel remove_signal_channel
  call-mailbox (registers info) s kept h = h
  call-mailbox (unregisters agent_id) s kept h =
      get-remove agent_id peer s.signal_channels ∙ rw kept h
  call-mailbox (creates other) s kept h = get-insert other peer _ s.signal_channels ∙ rw kept h
  call-mailbox (removes other) s kept h = get-remove other peer s.signal_channels ∙ rw kept h
  call-mailbox (relays msg) s kept h = relay-mailbox msg s h
  call-mailbox (receives other) s kept h = receive-mailbox other s h

calls-mailbox :
    (peer : Text) (cs : List Call) (c : Channel) (s : WebRtcSignaler)
    → Keeps peer cs
    → get peer s.signal_channels ≡ some c
    → get peer (calls cs s).1.signal_channels ≡ some (mailbox peer cs c)
unfolding calls
calls-mailbox peer [] c s kept h = h
calls-mailbox peer (k ∷ cs) c s kept h =
    calls-mailbox peer cs (mailbox_after peer k c) (call k s).1 kept.1
      (call-mailbox peer c k s kept.0 h)

-- the messages in a peer's channel after the calls, with what the peer was given and took meanwhile
abbrev InOrder : Text → List SignalMessage → List Came → Map Channel → Type 0
InOrder peer before came m =
    (c : Channel) × (get peer m ≡ some c)
    × (before ++ given peer came ≡ taken peer came ++ c.waiting)
    × (length before ≤ 64 → length c.waiting ≤ 64)

in_order :
    (peer : Text) (cs : List Call) (c : Channel) (s : WebRtcSignaler)
    → Keeps peer cs
    → get peer s.signal_channels ≡ some c
    → InOrder peer c.waiting (calls cs s).0 (calls cs s).1.signal_channels
unfolding calls
in_order peer [] c s kept h = (c, h, append-nil c.waiting, λ short. short)
in_order peer (k ∷ cs) c s kept h =
    let came = (call k s).0 in
    let later = (calls cs (call k s).1).0 in
    let (d, hd, one, room1) = Balance-call peer c k s kept.0 h in
    let (e, he, rest, room2) = in_order peer cs d (call k s).1 kept.1 hd in
    (
      e,
      he,
      sym (append_assoc c.waiting (given_one peer came) (given peer later))
          ∙ (ap (λ t. t ++ given peer later) one
              ∙ (append_assoc (taken_one peer came) d.waiting (given peer later)
                  ∙ (ap (λ t. taken_one peer came ++ t) rest
                      ∙ sym (append_assoc (taken_one peer came) (taken peer later) e.waiting)))),
      λ short. room2 (room1 short),
    )

-- The peer's channel is neither made nor taken away during these calls of the relay and of the peers on
-- their receivers. Then the channel is what these calls make of the peer's mailbox: a message that names
-- the peer, or a `ready` of the agent itself, is put behind the others when the channel has a receiver
-- and fewer than 64 messages wait in it, and each time the peer receives, the first is taken off. And
-- what the channel held at first, followed by the messages for the peer that were accepted, is what the
-- peer received, followed by what the channel holds; if it held 64 messages at most, so it does at the
-- end.
pub calls-InOrder :
    (peer : Text) (cs : List Call) (c : Channel) (s : WebRtcSignaler)
    → Keeps peer cs
    → get peer s.signal_channels ≡ some c
    → (get peer (calls cs s).1.signal_channels ≡ some (mailbox peer cs c))
      × InOrder peer c.waiting (calls cs s).0 (calls cs s).1.signal_channels
calls-InOrder peer cs c s kept h = (calls-mailbox peer cs c s kept h, in_order peer cs c s kept h)
