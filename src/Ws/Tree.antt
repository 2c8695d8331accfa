-- ===== src/Ws/Tree.antt =====
-- server/src/ws/protocol.rs: the tmux session/window/pane tree.
use oxmux.Prelude.{ℕ, Bool, List}
use oxmux.Prelude.Text.{Text}

pub record TmuxPaneInfo : Type 0 where
  pub id : Text
  pub index : ℕ
  pub cols : ℕ
  pub rows : ℕ
  pub current_command : Text
  pub is_active : Bool
  pub is_claude : Bool

pub record TmuxWindowInfo : Type 0 where
  pub id : Text
  pub name : Text
  pub index : ℕ
  pub layout : Text
  pub panes : List TmuxPaneInfo

pub record TmuxSessionInfo : Type 0 where
  pub id : Text
  pub name : Text
  pub windows : List TmuxWindowInfo
