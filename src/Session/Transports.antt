-- ===== src/Session/Transports.antt =====
-- server/src/session/transport.rs: what the backend transports share. A channel of a pane is its number:
-- each `broadcast::channel` that is made has a new one.
pub mod Local
pub mod Quic
pub mod Ssh
pub mod Secured
pub mod Outcome
use oxmux.Prelude.{ℕ, suc, List, [], ◌∷◌, Option}
use oxmux.Prelude.Text.{Text}
use oxmux.Prelude.Maps.{Map, insert}

pub data TransportStatus : Type 0 where
  disconnected : TransportStatus
  connecting : TransportStatus
  connected : TransportStatus
  error : TransportStatus

-- "Create broadcast channels for each pane"; the number is that of the next channel
unfoldable pub add_channels : ℕ → List Text → Map ℕ → Map ℕ
add_channels n [] channels = channels
add_channels n (pane ∷ panes) channels = add_channels (suc n) panes (insert pane n channels)
