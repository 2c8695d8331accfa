-- ===== src/Agent.antt =====
-- agent/src: the agent on a remote host.
pub mod Frames
pub mod Commands
pub mod Messages
pub mod Session
pub mod Tmux
pub mod Tree
pub mod WebRtc
pub mod Control
