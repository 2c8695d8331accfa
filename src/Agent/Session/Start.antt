-- ===== src/Agent/Session/Start.antt =====
-- agent/src/quic/server.rs, `handle_session`: the token, the tmux session and its settings, and the first
-- listing, before the loop; and the command of `run_control_mode`. The check of a token by the library
-- `jsonwebtoken` is a parameter.
use oxmux.Prelude.{
  ◌≡◌, ℕ, Bool, true, List, [], ◌∷◌, ◌++◌, Option, none, some, if◌then◌else◌, is_empty,
}
use oxmux.Prelude.Text.{Text, codes}
use oxmux.Result.{Result, ok, err, ok_or, ◌>>=◌}
use oxmux.Jwt.{Claims, JwtLibrary}
use oxmux.Ws.Tree.{TmuxSessionInfo}
use oxmux.Session.Transports.Local.{Ran}
use oxmux.Agent.Messages.{Value, get_str, AgentState}
use oxmux.Agent.Session.{Selected, Session, serve}
use oxmux.Agent.Tmux.{PaneInfo, tmux_cmd, ensure_session, list_panes}
use oxmux.Agent.Tree.{connected_session}

-- `decode` into a value of any shape, at a time: it succeeds where `decode` into the claims does
pub record AnyClaims (jwt : JwtLibrary) : Type 0 where
  pub verify : ℕ → Text → Text → Bool
  pub verify-decode :
      (now : ℕ) (token secret : Text) (claims : Claims)
      → jwt.decode now token secret ≡ ok claims
      → verify now token secret ≡ true

-- a secret that is empty turns the check off
unfoldable pub admits : (Text → Text → Bool) → Text → Text → Bool
admits verify agent_secret token = if is_empty agent_secret then true else verify token agent_secret

-- the first read: `none` when the stream is closed
unfoldable pub authenticate :
    (List ℕ → Option Value) → (Text → Text → Bool) → Text → Option (List ℕ) → Result (Unit {0})
unfolding admits get_str
authenticate decode verify agent_secret auth_buf =
    ok_or auth_buf (codes "closed before auth") >>= λ bytes.
    ok_or (decode bytes) (codes "no message") >>= λ auth_msg.
    if admits verify agent_secret (get_str auth_msg (codes "token"))
    then ok tt
    else err (codes "JWT verification failed")

-- the command that `script` runs
unfoldable pub control_command : Option Text → Text → Text
control_command none session_name = codes "trap '' WINCH; tmux -CC attach -t " ++ session_name
control_command (some sock) session_name =
    codes "trap '' WINCH; tmux -S " ++ (sock ++ (codes " -CC attach -t " ++ session_name))

-- what a session comes to: the name, what `sess_connected` says, `none` for a panic, and the loop's end
pub record Served (Peer Channel : Type 0) : Type 0 where
  pub session_name : Text
  pub connected : Option TmuxSessionInfo
  pub session : Session Peer Channel

module _ {World : Type 0} (run : List Text → World → Ran × World) (sock : Option Text) where
  -- two settings, whose failure is not looked at
  unfoldable pub set_options : World → World
  set_options w =
      let (ran, w1) =
        run
          (tmux_cmd sock
            ++ (codes "set-option" ∷ codes "-g" ∷ codes "window-size" ∷ codes "manual" ∷ []))
          w in
      (run
        (tmux_cmd sock
          ++ (codes "set-option" ∷ codes "-g" ∷ codes "aggressive-resize" ∷ codes "on" ∷ []))
        w1).1

module _ {World Peer Channel : Type 0} (run : List Text → World → Ran × World)
    (sock : Option Text) where
  abbrev listed_session :
      Text
      → Session Peer Channel
      → Result (List PaneInfo) × World
      → Result (Served Peer Channel) × World
  listed_session name session (panes, w) = (
    ok (record {
      session_name = name;
      connected = connected_session name panes;
      session = session;
    }),
    w,
  )

  abbrev with_session :
      Text → Session Peer Channel → Result (Unit {0}) × World → Result (Served Peer Channel) × World
  with_session name session (err e, w) = (err e, w)
  with_session name session (ok u, w) =
      listed_session name session (list_panes run sock name (set_options run sock w))

  abbrev with_first :
      Option (Text × Session Peer Channel) → World → Result (Served Peer Channel) × World
  with_first none w = (err (codes "connection closed before first message"), w)
  with_first (some (name, session)) w = with_session name session (ensure_session run sock name w)

  -- `auth_buf`: the first read; `chunks`: the reads up to the first message; `turns`: the rounds of the
  -- loop, which tmux's programs do not touch
  unfoldable pub handle_session :
      (Text → Result (Peer × Text))
      → (List ℕ → Option Value)
      → (Channel → Bool)
      → (Text → Text → Bool)
      → Text
      → Option (List ℕ)
      → List (List ℕ)
      → List Selected
      → AgentState Peer Channel
      → World
      → Result (Served Peer Channel) × World
  unfolding authenticate serve ensure_session list_panes set_options connected_session
  handle_session answer decode dc_sends verify agent_secret auth_buf chunks turns a w =
      elim (authenticate decode verify agent_secret auth_buf) [
        | err e ↦ (err e, w)
        | ok u ↦ with_first (serve answer decode dc_sends chunks turns a) w
      ]
