-- ===== src/Tmux.antt =====
-- server/src/tmux: what the server reads from tmux.
pub mod Decode
pub mod Control
pub mod Listing
pub mod Layout
pub mod Reader
