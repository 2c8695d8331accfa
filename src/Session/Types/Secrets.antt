-- ===== src/Session/Types/Secrets.antt =====
-- server/src/session/types.rs: `sanitized`, the `Debug` of the authentication, and
-- `transport_number`.
use oxmux.Prelude.{ℕ, ◌≡◌, ◌≢◌, refl, sym, ap, Option, none, is_some, ◌↔◌}
use oxmux.Prelude.Text.{Text, codes}
use oxmux.Session.Types.{
  SshAuthConfig, BackendTransport, BrowserTransport, ManagedSession, password, private_key,
  uploaded_key, ssh, local, websocket, quic, webrtc, sanitize_auth, sanitize_backend, sanitized,
  combination_number, transport_number, debug_auth,
}

-- Two ways to authenticate that differ in the secrets at most.
pub data AuthAgrees : SshAuthConfig → SshAuthConfig → Type 0 where
  agents : AuthAgrees SshAuthConfig.agent SshAuthConfig.agent
  passwords : (p q : Text) → AuthAgrees (password p) (password q)
  private_keys :
      (path : Text) (p q : Option Text) → AuthAgrees (private_key path p) (private_key path q)
  uploaded_keys :
      (key_id : Text) (p q : Option Text)
      → AuthAgrees (uploaded_key key_id p) (uploaded_key key_id q)

pub data BackendAgrees : BackendTransport → BackendTransport → Type 0 where
  same : (b : BackendTransport) → BackendAgrees b b
  over_ssh :
      (host : Text) (port : ℕ) (user : Text) {a b : SshAuthConfig}
      → AuthAgrees a b
      → BackendAgrees (ssh host port user a) (ssh host port user b)

-- The session with another backend.
abbrev pub with_backend : ManagedSession → BackendTransport → ManagedSession
with_backend s b = record s { transport = record s.transport { backend = b } }

sanitize_auth-AuthAgrees :
    {a b : SshAuthConfig} → AuthAgrees a b → sanitize_auth a ≡ sanitize_auth b
unfolding sanitize_auth
sanitize_auth-AuthAgrees agents = refl
sanitize_auth-AuthAgrees (passwords p q) = refl
sanitize_auth-AuthAgrees (private_keys path p q) = refl
sanitize_auth-AuthAgrees (uploaded_keys key_id p q) = refl

AuthAgrees-sanitize_auth : (a : SshAuthConfig) → AuthAgrees a (sanitize_auth a)
unfolding sanitize_auth
AuthAgrees-sanitize_auth SshAuthConfig.agent = agents
AuthAgrees-sanitize_auth (password p) = passwords p (codes "***")
AuthAgrees-sanitize_auth (private_key path p) = private_keys path p none
AuthAgrees-sanitize_auth (uploaded_key key_id p) = uploaded_keys key_id p none

backend-BackendAgrees :
    {a b : BackendTransport} → BackendAgrees a b → sanitize_backend a ≡ sanitize_backend b
unfolding sanitize_backend
backend-BackendAgrees (same b) = refl
backend-BackendAgrees (over_ssh host port user h) =
    ap (ssh host port user) (sanitize_auth-AuthAgrees h)

BackendAgrees-backend : (b : BackendTransport) → BackendAgrees b (sanitize_backend b)
unfolding sanitize_backend
BackendAgrees-backend (ssh host port user auth) =
    over_ssh host port user (AuthAgrees-sanitize_auth auth)
BackendAgrees-backend (BackendTransport.agent host port agent_id) = same _
BackendAgrees-backend local = same local

-- `sanitized` depends on no secret: from sessions that differ in their secrets at most it makes the
-- same session. And it takes only secrets away: the result is the session with a backend that
-- differs from its own in the secrets at most.
pub sanitized_secrets :
    (s : ManagedSession) (other : BackendTransport)
    → BackendAgrees s.transport.backend other
    → (sanitized (with_backend s other) ≡ sanitized s)
      × ((b : BackendTransport) × (sanitized s ≡ with_backend s b)
          × BackendAgrees s.transport.backend b)
unfolding sanitized
sanitized_secrets s other h = (
  ap (with_backend s) (sym (backend-BackendAgrees h)),
  (sanitize_backend s.transport.backend, refl, BackendAgrees-backend s.transport.backend),
)

-- The text that `Debug` prints depends on no password, and on a passphrase only in whether there is
-- one.
pub debug_auth_secrets :
    (quote : Text → Text) (p q name : Text) (a b : Option Text)
    → is_some a ≡ is_some b
    → (debug_auth quote (password p) ≡ debug_auth quote (password q))
      × (debug_auth quote (private_key name a) ≡ debug_auth quote (private_key name b))
      × (debug_auth quote (uploaded_key name a) ≡ debug_auth quote (uploaded_key name b))
unfolding debug_auth
debug_auth_secrets quote p q name a b h = (refl, rw h, rw h)

-- The kind of a backend.
pub data BackendKind : Type 0 where
  ssh_kind agent_kind local_kind : BackendKind

abbrev pub kind : BackendTransport → BackendKind
kind (ssh host port user auth) = ssh_kind
kind (BackendTransport.agent host port agent_id) = agent_kind
kind local = local_kind

-- The table of valid combinations in the documentation of `TransportConfig`.
pub data Valid : ℕ → BrowserTransport → BackendKind → Type 0 where
  ws_ssh : {n : ℕ} → n ≡ 1 → Valid n websocket ssh_kind
  quic_ssh : {n : ℕ} → n ≡ 2 → Valid n quic ssh_kind
  webrtc_ssh : {n : ℕ} → n ≡ 3 → Valid n webrtc ssh_kind
  quic_agent : {n : ℕ} → n ≡ 4 → Valid n quic agent_kind
  webrtc_agent : {n : ℕ} → n ≡ 5 → Valid n webrtc agent_kind

valid :
    (n : ℕ) (w : BrowserTransport) (b : BackendTransport)
    → n ≢ 0
    → combination_number w b ≡ n
    → Valid n w (kind b)
unfolding combination_number
valid n websocket (ssh host port user auth) h e = ws_ssh (sym e)
valid n quic (ssh host port user auth) h e = quic_ssh (sym e)
valid n webrtc (ssh host port user auth) h e = webrtc_ssh (sym e)
valid n quic (BackendTransport.agent host port agent_id) h e = quic_agent (sym e)
valid n webrtc (BackendTransport.agent host port agent_id) h e = webrtc_agent (sym e)
valid n websocket (BackendTransport.agent host port agent_id) h e = absurd (h (sym e))
valid n websocket local h e = absurd (h (sym e))
valid n quic local h e = absurd (h (sym e))
valid n webrtc local h e = absurd (h (sym e))

number :
    (n : ℕ) (w : BrowserTransport) (b : BackendTransport)
    → Valid n w (kind b)
    → combination_number w b ≡ n
unfolding combination_number
number n websocket (ssh host port user auth) (ws_ssh e) = sym e
number n quic (ssh host port user auth) (quic_ssh e) = sym e
number n webrtc (ssh host port user auth) (webrtc_ssh e) = sym e
number n quic (BackendTransport.agent host port agent_id) (quic_agent e) = sym e
number n webrtc (BackendTransport.agent host port agent_id) (webrtc_agent e) = sym e
number n websocket (BackendTransport.agent host port agent_id) v = elim v [ ]
number n websocket local v = elim v [ ]
number n quic local v = elim v [ ]
number n webrtc local v = elim v [ ]

-- For a number other than 0: the transport number of a session is this number exactly when the
-- documented table has the session's combination of browser and backend under it.
pub transport_number_iff :
    (s : ManagedSession) (n : ℕ)
    → n ≢ 0
    → (transport_number s ≡ n) ↔ Valid n s.transport.browser (kind s.transport.backend)
unfolding transport_number
transport_number_iff s n h = (
  valid n s.transport.browser s.transport.backend h,
  number n s.transport.browser s.transport.backend,
)
