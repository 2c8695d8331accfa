-- ===== src/Session/Transports/Secured.antt =====
-- server/src/session/ssh_transport.rs: how `connect` ends.
use oxmux.Prelude.{ℕ, ◌≡◌, ◌⊎◌, refl, Bool, true, false, Option, none, some, inl, inr}
use oxmux.Prelude.Text.{Text}
use oxmux.Prelude.Maps.{Map}
use oxmux.Result.{Result, ok, err}
use oxmux.Tmux.Listing.{parse_pane_listing}
use oxmux.Session.Types.{SecretString}
use oxmux.Session.Transports.{connecting, connected}
use oxmux.Session.Transports.Ssh
use oxmux.Session.Transports.Ssh.{SshTransport, Remote}

-- `connect` fails; the old connection and its reader task are as they were
abbrev pub SshFailed : SshTransport → Result (Unit {0}) × SshTransport → Type 0
SshFailed t (r, t') =
    (e : Text) × (r ≡ err e)
    × (t'.status ≡ connecting)
    × (t'.ssh_handle ≡ t.ssh_handle)
    × (t'.reader_task ≡ t.reader_task)

-- it succeeds with the new connection, whose control channel the task reads and the commands go to,
-- and with the listing that the last command gave
abbrev pub SshConnected :
    (connection channel : Option ℕ) → Result Text → Result (Unit {0}) × SshTransport → Type 0
SshConnected connection channel listed (r, t') =
    (r ≡ ok tt)
    × (t'.status ≡ connected)
    × (t'.ssh_handle ≡ connection)
    × (t'.control_channel_id ≡ channel)
    × (t'.reader_task ≡ channel)
    × ((output : Text) × (listed ≡ ok output) × (t'.tmux_state ≡ parse_pane_listing output))

abbrev pub SshOutcome :
    Remote
    → Map (SecretString × Option SecretString)
    → SshTransport
    → Result (Unit {0}) × SshTransport
    → Type 0
SshOutcome remote keys t p =
    SshFailed t p
    ⊎ SshConnected remote.connection remote.control_channel
        (Ssh.list_remote remote keys (record t { status = connecting })) p

set_up-outcome :
    (pty exec : Bool) (handle : ℕ) (channel : Option ℕ) (listed : Result Text) (t : SshTransport)
    → let p = Ssh.set_up pty exec handle channel listed (record t { status = connecting }) in
      SshFailed t p ⊎ SshConnected (some handle) channel listed p
set_up-outcome pty exec handle channel (err e) t = inl (e, refl, refl, refl, refl)
set_up-outcome pty exec handle none (ok output) t = inl (_, refl, refl, refl, refl)
set_up-outcome false exec handle (some channel) (ok output) t = inl (_, refl, refl, refl, refl)
set_up-outcome true false handle (some channel) (ok output) t = inl (_, refl, refl, refl, refl)
set_up-outcome true true handle (some channel) (ok output) t =
    inr (refl, refl, refl, refl, refl, (output, refl, refl))

connect_over-outcome :
    (pty exec : Bool) (connection channel : Option ℕ) (listed : Result Text) (t : SshTransport)
    → let p =
        Ssh.connect_over pty exec connection channel listed (record t { status = connecting }) in
      SshFailed t p ⊎ SshConnected connection channel listed p
connect_over-outcome pty exec none channel listed t = inl (_, refl, refl, refl, refl)
connect_over-outcome pty exec (some handle) channel listed t =
    set_up-outcome pty exec handle channel listed t

pub ssh-outcome :
    (remote : Remote) (keys : Map (SecretString × Option SecretString)) (t : SshTransport)
    → SshOutcome remote keys t (Ssh.connect remote keys t)
unfolding Ssh.connect
ssh-outcome remote keys t =
    connect_over-outcome remote.request_pty remote.exec_attach remote.connection
      remote.control_channel (Ssh.list_remote remote keys (record t { status = connecting })) t
