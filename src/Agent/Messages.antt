-- ===== src/Agent/Messages.antt =====
-- agent/src/quic/server.rs: `get_str`, `get_bytes`, `get_u64` and `handle_message`. A message is
-- the value that `rmpv` decoded. The peer connection, its answer and the data channel are the
-- `webrtc` library's, and parameters. A write to the control mode or to the stream succeeds.
pub mod Cases
pub mod Wanted
pub mod Written
pub mod Candidates
use oxmux.Prelude.{
  ℕ, ◌+◌, ◌%◌, ◌^◌, Bool, true, false, not, ◌&&◌, List, [], ◌∷◌, ◌++◌, Option, none, some, ltb,
  ◌==◌, if◌then◌else◌, is_empty, any, keep, unwrap_or,
}
use oxmux.Prelude.Text.{Text, codes, text_eq}
use oxmux.Prelude.Maps.{Map, get, insert}
use oxmux.Result.{Result, ok, err}
use oxmux.Tmux.Decode.{utf8}
use oxmux.Agent.Commands.{is_valid_pane_id, send_tmux_input, changed_command, same_command}

-- `rmpv::Value`; `other` for the kinds that no operation below looks into
mutual
  pub data Value : Type 0 where
    uint : ℕ → Value
    string : Text → Value
    binary : List ℕ → Value
    table : Entries → Value
    other : Value

  pub data Entries : Type 0 where
    end : Entries
    entry : Value → Value → Entries → Entries

abbrev is_key : Text → Value → Bool
is_key key (string s) = text_eq s key
is_key key v = false

-- `m.iter().find(|(k, _)| k.as_str() == Some(key))`
unfoldable pub find_entry : Text → Entries → Option Value
find_entry key end = none
find_entry key (entry k v es) = if is_key key k then some v else find_entry key es

unfoldable pub find_key : Text → Value → Option Value
unfolding find_entry
find_key key (table es) = find_entry key es
find_key key v = none

abbrev as_str : Option Value → Option Text
as_str (some (string s)) = some s
as_str v = none

unfoldable pub get_str : Value → Text → Text
unfolding find_key
get_str v key = unwrap_or (as_str (find_key key v)) []

unfoldable pub get_bytes : Value → Text → List ℕ
unfolding find_key utf8
get_bytes v key = elim (find_key key v) [
  | none ↦ []
  | some w ↦ elim w [ string s ↦ utf8 s | binary b ↦ b | _ ↦ [] ]
]

unfoldable pub get_u64 : Value → Text → ℕ
unfolding find_key
get_u64 v key = elim (find_key key v) [ none ↦ 0 | some w ↦ elim w [ uint n ↦ n | _ ↦ 0 ] ]

pub data Sent : Type 0 where
  pong : (ts : ℕ) → Sent
  no_sessions : Sent
  webrtc_answer : (sdp : Text) → Sent
  webrtc_error : (error : Text) → Sent

pub record Candidate : Type 0 where
  pub candidate : Text
  pub sdp_mid : Text

-- What a session of the agent shares with `handle_message`. The fields `written`, `sent`, `added` and
-- `closed` are what went out, the last first: to the control mode of tmux, to the client, to a peer
-- connection, and the connections that were closed.
pub record AgentState (Peer Channel : Type 0) : Type 0 where
  pub subscribed_panes : List Text
  pub pane_dimensions : Map (ℕ × ℕ)
  pub has_stdin : Bool
  pub written : List Text
  pub sent : List Sent
  pub webrtc_pc : Option Peer
  pub webrtc_dc : Option Channel
  pub webrtc_remote_set : Bool
  pub webrtc_pending_candidates : List Candidate
  pub added : List (Peer × Candidate)
  pub closed : List Peer

-- `HashSet::contains`, `remove`, `insert`
abbrev pub contains : Text → List Text → Bool
contains pane panes = any (text_eq pane) panes

abbrev pub without : Text → List Text → List Text
without pane panes = keep (λ p. not (text_eq pane p)) panes

abbrev pub with_pane : Text → List Text → List Text
with_pane pane panes = if contains pane panes then panes else pane ∷ panes

-- `Option<(u16, u16)> == Some(…)`
abbrev pub same_dims : Option (ℕ × ℕ) → ℕ → ℕ → Bool
same_dims none cols rows = false
same_dims (some (c, r)) cols rows = c == cols && r == rows

-- the candidate, an object or a plain string, and its `sdpMid`
unfoldable pub ice_fields : Option Value → Text × Text
unfolding find_entry
ice_fields none = ([], codes "0")
ice_fields (some (table es)) = (
  unwrap_or (as_str (find_entry (codes "candidate") es)) [],
  unwrap_or (as_str (find_entry (codes "sdpMid") es)) (codes "0"),
)
ice_fields (some (string s)) = (s, codes "0")
ice_fields (some (uint n)) = ([], codes "0")
ice_fields (some (binary b)) = ([], codes "0")
ice_fields (some other) = ([], codes "0")

module _ {Peer : Type 0} where
  abbrev close_old : Option Peer → List Peer → List Peer
  close_old none closed = closed
  close_old (some pc) closed = pc ∷ closed

  abbrev add_to : Option Peer → Candidate → List (Peer × Candidate) → List (Peer × Candidate)
  add_to none c added = added
  add_to (some pc) c added = (pc, c) ∷ added

-- `cmd`, from the dimensions that the pane had
abbrev pub resize_command : Option (ℕ × ℕ) → Text → ℕ → ℕ → Text
resize_command known pane cols rows =
    if same_dims known cols rows
    then same_command pane cols rows
    else changed_command pane cols rows

module _ {Peer Channel : Type 0} where
  unfoldable pub write : List Text → AgentState Peer Channel → AgentState Peer Channel
  write cmds s = if s.has_stdin then record s { written = cmds ++ s.written } else s

  unfoldable pub handle_sub : Text → AgentState Peer Channel → AgentState Peer Channel
  handle_sub pane s =
      if is_valid_pane_id pane
      then record s { subscribed_panes = with_pane pane s.subscribed_panes }
      else s

  unfoldable pub handle_unsub : Text → AgentState Peer Channel → AgentState Peer Channel
  handle_unsub pane s =
      if is_valid_pane_id pane
      then record s { subscribed_panes = without pane s.subscribed_panes }
      else s

  -- a resize that passes the tests
  unfoldable pub resize : Text → ℕ → ℕ → AgentState Peer Channel → AgentState Peer Channel
  unfolding write
  resize pane cols rows s =
      let cmd = resize_command (get pane s.pane_dimensions) pane cols rows in
      write (cmd ∷ []) (record s { pane_dimensions = insert pane (cols, rows) s.pane_dimensions })

  unfoldable pub handle_resize : Text → ℕ → ℕ → AgentState Peer Channel → AgentState Peer Channel
  unfolding resize
  handle_resize pane cols rows s =
      if is_valid_pane_id pane && ltb 0 cols && ltb 0 rows then resize pane cols rows s else s

  -- the state that a new offer starts from
  unfoldable pub reset_peer : AgentState Peer Channel → AgentState Peer Channel
  reset_peer s = record s {
    webrtc_pc = none;
    webrtc_dc = none;
    webrtc_remote_set = false;
    webrtc_pending_candidates = [];
    closed = close_old s.webrtc_pc s.closed;
  }

  abbrev answer : Result (Peer × Text) → AgentState Peer Channel → AgentState Peer Channel
  answer (ok (pc, sdp)) s = record s { webrtc_pc = some pc; sent = webrtc_answer sdp ∷ s.sent }
  answer (err e) s = record s { sent = webrtc_error e ∷ s.sent }

  unfoldable pub add_candidate : Text × Text → AgentState Peer Channel → AgentState Peer Channel
  add_candidate (text, mid) s =
      let c : Candidate = record { candidate = text; sdp_mid = mid } in
      if is_empty text
      then s
      else if s.webrtc_remote_set
      then record s { added = add_to s.webrtc_pc c s.added }
      else record s { webrtc_pending_candidates = s.webrtc_pending_candidates ++ c ∷ [] }

module _ {Peer Channel : Type 0} (create_webrtc_answer : Text → Result (Peer × Text)) where
  unfoldable pub handle_offer : Text → AgentState Peer Channel → AgentState Peer Channel
  unfolding reset_peer
  handle_offer sdp s = answer (create_webrtc_answer sdp) (reset_peer s)

  unfoldable pub handle_message : Value → AgentState Peer Channel → AgentState Peer Channel
  unfolding find_key get_str get_bytes get_u64 handle_sub handle_unsub handle_resize handle_offer
      ice_fields add_candidate write
  handle_message msg s =
      let t = get_str msg (codes "t") in
      let pane = get_str msg (codes "pane") in
      if text_eq t (codes "sub")
      then handle_sub pane s
      else if text_eq t (codes "unsub")
      then handle_unsub pane s
      else if text_eq t (codes "i")
      then write (send_tmux_input pane (get_bytes msg (codes "data"))) s
      else if text_eq t (codes "r")
      then handle_resize pane (get_u64 msg (codes "cols") % 2 ^ 16)
          (get_u64 msg (codes "rows") % 2 ^ 16) s
      else if text_eq t (codes "ping")
      then record s { sent = pong (get_u64 msg (codes "ts")) ∷ s.sent }
      else if text_eq t (codes "sess_list")
      then record s { sent = no_sessions ∷ s.sent }
      else if text_eq t (codes "webrtc_offer")
      then handle_offer (get_str msg (codes "sdp")) s
      else if text_eq t (codes "webrtc_ice")
      then add_candidate (ice_fields (find_key (codes "candidate") msg)) s
      else s

  unfoldable pub handle_messages : List Value → AgentState Peer Channel → AgentState Peer Channel
  unfolding handle_message
  handle_messages [] s = s
  handle_messages (msg ∷ msgs) s = handle_messages msgs (handle_message msg s)
