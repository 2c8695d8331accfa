-- ===== src/Session/Transports/Outcome.antt =====
-- server/src/session/local.rs, quic_transport.rs and ssh_transport.rs: how `connect` ends.
use oxmux.Prelude.{
  ℕ, suc, ◌≡◌, ◌⊎◌, refl, ◌∙◌, true, ◌||◌, List, [], ◌∷◌, Option, none, some, arith, any, is_some,
  inl, inr,
}
use oxmux.Prelude.Text.{Text, codes, text_eq, text_eq_iff}
use oxmux.Prelude.Maps.{Map, get, insert, get-insert}
use oxmux.Result.{Result, ok, err}
use oxmux.Ws.Tree.{TmuxSessionInfo}
use oxmux.Session.Manager.Connect.{listing_pane_ids}
use oxmux.Session.Transports.{connecting, connected, add_channels}
use oxmux.Session.Transports.Local
use oxmux.Session.Transports.Local.{LocalTransport, Ran}
use oxmux.Session.Transports.Quic
use oxmux.Session.Transports.Quic.{QuicTransport, Codec, Command}
use oxmux.Session.Types.{SecretString}
use oxmux.Session.Transports.Ssh
use oxmux.Session.Transports.Ssh.{SshTransport, Remote}
use oxmux.Session.Transports.Secured.{SshOutcome, ssh-outcome}

add_channels-get :
    (n : ℕ) (panes : List Text) (channels : Map ℕ) (pane : Text)
    → is_some (get pane (add_channels n panes channels))
      ≡ (any (text_eq pane) panes || is_some (get pane channels))
unfolding add_channels
add_channels-get n [] channels pane = refl
add_channels-get n (p ∷ panes) channels pane = ground (
  arith,
  add_channels-get (suc n) panes (insert p n channels) pane,
  get-insert p pane n channels,
  text_eq_iff p pane,
  text_eq_iff pane p,
)

module _ {World : Type 0} where
  -- `connect` of the local transport fails, and nothing but the status has changed
  abbrev pub LocalFailed : LocalTransport → Result (Unit {0}) × LocalTransport × World → Type 0
  LocalFailed t (r, t', w') = (e : Text) × (r ≡ err e) × (t' ≡ record t { status = connecting })

  -- it succeeds with a listing, and the listed panes and those that had a channel have one
  abbrev pub LocalConnected :
      Text → LocalTransport → Result (Unit {0}) × LocalTransport × World → Type 0
  LocalConnected pane t (r, t', w') =
      (r ≡ ok tt)
      × (t'.status ≡ connected)
      × (is_some (Local.subscribe_output pane t') ≡ (
          any (text_eq pane) (listing_pane_ids t'.tmux_state)
          || is_some (Local.subscribe_output pane t)))

  abbrev pub LocalOutcome :
      Text → LocalTransport → Result (Unit {0}) × LocalTransport × World → Type 0
  LocalOutcome pane t p = LocalFailed t p ⊎ LocalConnected pane t p

  local_connected :
      (pane : Text) (t : LocalTransport) (listing : List TmuxSessionInfo) (w : World)
      → LocalConnected pane t
          (ok tt, Local.with_listing listing (record t { status = connecting }), w)
  unfolding Local.subscribe_output
  local_connected pane t listing w =
      (refl, refl, add_channels-get t.made (listing_pane_ids listing) t.pane_channels pane)

  local-outcome :
      (run : List Text → World → Ran × World) (t : LocalTransport) (w : World) (pane : Text)
      → LocalOutcome pane t (Local.connect run t w)
  unfolding Local.connect
  local-outcome run t w pane =
      let (ensured, w1) = Local.ensure_session run t.session_name w in
      let (listed, w2) = Local.query_tmux_state run t.session_name w1 in finish ensured w1 listed w2
    where
      finish :
          (ensured : Result (Unit {0})) (w1 : World) (listed : Result (List TmuxSessionInfo))
          (w2 : World)
          → LocalOutcome pane t (elim ensured [
            | err e ↦ (err e, record t { status = connecting }, w1)
            | ok u ↦ elim listed [
              | err e ↦ (err e, record t { status = connecting }, w2)
              | ok listing ↦
                  (ok tt, Local.with_listing listing (record t { status = connecting }), w2)
            ]
          ])
      finish (err e) w1 listed w2 = inl (e, refl, refl)
      finish (ok u) w1 (err e) w2 = inl (e, refl, refl)
      finish (ok u) w1 (ok listing) w2 = inr (local_connected pane t listing w2)

-- `connect` of the transport to an agent fails; the connection may stay open
abbrev pub QuicFailed : QuicTransport → Result (Unit {0}) × QuicTransport → Type 0
QuicFailed q (r, q') =
    (e : Text) × (r ≡ err e)
    × (q'.status ≡ connecting)
    × (q'.pane_channels ≡ q.pane_channels)
    × (q'.tmux_state ≡ q.tmux_state)

-- it succeeds with a listing, and the listed panes and those that had a channel have one
abbrev pub QuicConnected : Text → QuicTransport → Result (Unit {0}) × QuicTransport → Type 0
QuicConnected pane q (r, q') =
    (r ≡ ok tt)
    × (q'.status ≡ connected)
    × (is_some (Quic.subscribe_output pane q') ≡ (
        any (text_eq pane) (listing_pane_ids q'.tmux_state)
        || is_some (Quic.subscribe_output pane q)))

abbrev pub QuicOutcome : Text → QuicTransport → Result (Unit {0}) × QuicTransport → Type 0
QuicOutcome pane q p = QuicFailed q p ⊎ QuicConnected pane q p

-- what an exchange on the control stream leaves alone
abbrev Kept : QuicTransport → QuicTransport → Type 0
Kept q q' =
    (q'.status ≡ q.status) × (q'.pane_channels ≡ q.pane_channels) × (q'.tmux_state ≡ q.tmux_state)

with_sessions-outcome :
    (pane : Text) (q q1 : QuicTransport) (sessions : Option (List TmuxSessionInfo))
    → Kept (record q { status = connecting }) q1
    → QuicOutcome pane q (Quic.after_listing (Quic.with_sessions sessions q1))
unfolding Quic.subscribe_output
with_sessions-outcome pane q q1 none (s, c, t) = inl (codes "invalid sessions", refl, s, c, t)
with_sessions-outcome pane q q1 (some listing) (s, c, t) = inr (
  refl,
  refl,
  add_channels-get q1.made (listing_pane_ids listing) q1.pane_channels pane ∙ rw c refl,
)

module _ {Value : Type 0} (json : Codec Value) where
  response-Kept :
      (got : Option (List ℕ) × List ℕ) (q : QuicTransport) → Kept q (Quic.response_of json got q).1
  response-Kept (none, left) q = (refl, refl, refl)
  response-Kept (some bytes, left) q = (refl, refl, refl)

  receive-Kept :
      (stream : Option (List ℕ)) (q : QuicTransport) → Kept q (Quic.receive json stream q).1
  receive-Kept none q = (refl, refl, refl)
  receive-Kept (some stream) q = response-Kept (Quic.read_response stream) q

  exchange-Kept :
      (send payload : Option (List ℕ)) (q : QuicTransport)
      → Kept q (Quic.exchange json send payload q).1
  exchange-Kept none payload q = (refl, refl, refl)
  exchange-Kept (some send) none q = (refl, refl, refl)
  exchange-Kept (some send) (some payload) q =
      receive-Kept q.control_recv (Quic.written_to send payload q)

  send-Kept : (cmd : Command) (q : QuicTransport) → Kept q (Quic.send_control_command json cmd q).1
  unfolding Quic.send_control_command
  send-Kept cmd q = exchange-Kept q.control_send (json.to_vec cmd) q

  listed-outcome :
      (pane : Text) (q : QuicTransport) (p : Result Value × QuicTransport)
      → Kept (record q { status = connecting }) p.1
      → QuicOutcome pane q (Quic.after_listing (Quic.listed json p))
  listed-outcome pane q (err e, q1) (s, c, t) = inl (e, refl, s, c, t)
  listed-outcome pane q (ok resp, q1) k = with_sessions-outcome pane q q1 (json.sessions resp) k

  after_listing-outcome :
      (pane : Text) (q q1 : QuicTransport)
      → Kept (record q { status = connecting }) q1
      → QuicOutcome pane q (Quic.after_listing (Quic.list_tmux_sessions json q1))
  unfolding Quic.list_tmux_sessions
  after_listing-outcome pane q q1 (s, c, t) =
      let (s', c', t') = send-Kept (Quic.list_sessions q1.session_name) q1 in
      listed-outcome pane q (Quic.send_control_command json (Quic.list_sessions q1.session_name) q1)
        (s' ∙ s, c' ∙ c, t' ∙ t)

  quic-outcome :
      (opened : Result (List ℕ)) (q : QuicTransport) (pane : Text)
      → QuicOutcome pane q (Quic.connect json opened q)
  unfolding Quic.connect
  quic-outcome (err e) q pane = inl (e, refl, refl, refl, refl)
  quic-outcome (ok incoming) q pane =
      let q1 = record q {
        status = connecting;
        has_connection = true;
        control_send = some [];
        control_recv = some incoming;
      } in
      after_listing-outcome pane q
        (Quic.send_control_command json (Quic.ensure_session q.session_name) q1).1
        (send-Kept (Quic.ensure_session q.session_name) q1)

-- How `connect` of each transport ends, whatever tmux, the agent or the SSH server answers. It fails,
-- and leaves the status `Connecting`; the local transport and that to an agent keep their channels and
-- their listing, that over SSH its old connection and reader task. Or it succeeds with the status
-- `Connected`; then with the first two a pane can be subscribed to exactly if it is in the new listing
-- or could be before, and the third has the new connection, its control channel, which the task reads,
-- and the listing that the server gave.
pub connect_outcomes :
    {World Value : Type 0} (run : List Text → World → Ran × World) (w : World) (t : LocalTransport)
    (json : Codec Value) (opened : Result (List ℕ)) (q : QuicTransport) (pane : Text)
    (remote : Remote) (keys : Map (SecretString × Option SecretString)) (s : SshTransport)
    → LocalOutcome pane t (Local.connect run t w)
      × QuicOutcome pane q (Quic.connect json opened q)
      × SshOutcome remote keys s (Ssh.connect remote keys s)
connect_outcomes run w t json opened q pane remote keys s =
    (local-outcome run t w pane, quic-outcome json opened q pane, ssh-outcome remote keys s)
