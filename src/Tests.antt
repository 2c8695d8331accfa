-- ===== src/Tests.antt =====
-- Runs of the model at concrete inputs, and each theorem at an input that meets its hypotheses.
mod Tmux
mod Session
mod Agent
mod Server
mod Listing
mod KeyUpload
mod Layout
mod Auth
mod Reader
mod Socket
mod Forward
mod Transport
mod Deploy
mod Config
mod Control
mod Listings
mod Admits
mod WebTransport
mod Signal
