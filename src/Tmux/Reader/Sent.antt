-- ===== src/Tmux/Reader/Sent.antt =====
-- server/src/session/ssh_transport.rs: what is sent to a pane when an event is handled.
use oxmux.Prelude.{
  ℕ, ◌≡◌, refl, sym, ap, false, List, [], ◌∷◌, ◌++◌, append_assoc, append-nil, arith, if◌then◌else◌,
  unwrap_or, ◌==◌, Bool-cases, inl, inr,
}
use mathlib.Core.Path.{subst}
use oxmux.Prelude.Text.{Text, text_eq, text_eq_iff}
use oxmux.Prelude.Maps.{Map, get, get-insert}
use oxmux.Tmux.Control.{
  TmuxEvent, output, exit, command_response, session_changed, session_created, session_closed,
  window_add, window_close, window_renamed, layout_change, pane_mode_changed, idle, feed_lines,
}
use oxmux.Tmux.Reader.{
  Reader, Turn, continues, breaks, waits, cons_line, take_lines, send_output, handle_event,
}

-- the data of a pane's output
abbrev pub data_of : Text → TmuxEvent → List (List ℕ)
data_of pane_id (output id bytes) = if text_eq id pane_id then bytes ∷ [] else []
data_of pane_id _ = []

unfoldable pub outputs_of : Text → List TmuxEvent → List (List ℕ)
outputs_of pane_id [] = []
outputs_of pane_id (event ∷ events) = data_of pane_id event ++ outputs_of pane_id events

pub outputs-append :
    (pane_id : Text) (xs ys : List TmuxEvent)
    → outputs_of pane_id (xs ++ ys) ≡ outputs_of pane_id xs ++ outputs_of pane_id ys
unfolding outputs_of
outputs-append pane_id [] ys = refl
outputs-append pane_id (x ∷ xs) ys = rw (outputs-append pane_id xs ys) (rw append_assoc refl)

abbrev pub sent_to : Text → Reader → List (List ℕ)
sent_to pane_id r = unwrap_or (get pane_id r.outputs) []

cons_line-append :
    (c : ℕ) (ls : List Text) (rest b : Text)
    → (c == b'\n') ≡ false
    → cons_line c (ls ++ (take_lines (rest ++ b)).0, (take_lines (rest ++ b)).1) ≡ (
      (cons_line c (ls, rest)).0 ++ (take_lines ((cons_line c (ls, rest)).1 ++ b)).0,
      (take_lines ((cons_line c (ls, rest)).1 ++ b)).1,
    )
unfolding take_lines
cons_line-append c [] rest b h = rw h refl
cons_line-append c (l ∷ ls) rest b h = refl

-- The lines of a text that comes in two parts: what the first part leaves goes before the second.
pub lines-append :
    (a b : Text)
    → take_lines (a ++ b) ≡ (
      (take_lines a).0 ++ (take_lines ((take_lines a).1 ++ b)).0,
      (take_lines ((take_lines a).1 ++ b)).1,
    )
unfolding take_lines
lines-append [] b = refl
lines-append (c ∷ a) b = elim (Bool-cases (c == b'\n')) [
  | inl e ↦ rw e (rw (lines-append a b) refl)
  | inr e ↦ rw e (rw (lines-append a b) (cons_line-append c (take_lines a).0 (take_lines a).1 b e))
]

-- what the state has to do with the text so far
abbrev pub Keeps : Text → Text → Reader → Type 0
Keeps pane_id input r =
    (r.line_buf ≡ (take_lines input).1)
    × (r.parser ≡ (feed_lines idle (take_lines input).0).0)
    × (sent_to pane_id r ++ outputs_of pane_id r.queue
        ≡ outputs_of pane_id (feed_lines idle (take_lines input).0).1)

sent_to-send :
    (pane_id id : Text) (bytes : List ℕ) (m : Map (List (List ℕ)))
    → unwrap_or (get pane_id (send_output id bytes m)) []
      ≡ unwrap_or (get pane_id m) [] ++ data_of pane_id (output id bytes)
sent_to-send pane_id id bytes m = ground (
  arith,
  get-insert id pane_id (unwrap_or (get id m) [] ++ bytes ∷ []) m,
  text_eq_iff id pane_id,
  append-nil (unwrap_or (get pane_id m) []),
)

-- what an event changes
abbrev pub Handled : Text → TmuxEvent → Reader → Reader → Type 0
Handled pane_id e r r' =
    (r'.line_buf ≡ r.line_buf)
    × (r'.parser ≡ r.parser)
    × (r'.queue ≡ r.queue)
    × (sent_to pane_id r' ≡ sent_to pane_id r ++ data_of pane_id e)

pub continues-injective : {r r' : Reader} → continues r ≡ continues r' → r ≡ r'
continues-injective {r} h = ap reader h
  where
    reader : Turn → Reader
    reader (continues x) = x
    reader breaks = r
    reader waits = r

unchanged :
    (pane_id : Text) (r r' : Reader)
    → continues r ≡ continues r'
    → (r'.line_buf ≡ r.line_buf)
      × (r'.parser ≡ r.parser)
      × (r'.queue ≡ r.queue)
      × (sent_to pane_id r' ≡ sent_to pane_id r ++ [])
unchanged pane_id r r' h =
    subst
      (λ x.
        (x.line_buf ≡ r.line_buf)
        × (x.parser ≡ r.parser)
        × (x.queue ≡ r.queue)
        × (sent_to pane_id x ≡ sent_to pane_id r ++ []))
      (continues-injective h) (refl, refl, refl, sym (append-nil (sent_to pane_id r)))

pub handle_event-Handled :
    (pane_id : Text) (e : TmuxEvent) (r r' : Reader)
    → handle_event e r ≡ continues r'
    → Handled pane_id e r r'
handle_event-Handled pane_id (output id bytes) r r' h =
    subst (λ x. Handled pane_id (output id bytes) r x) (continues-injective h)
      (refl, refl, refl, sent_to-send pane_id id bytes r.outputs)
handle_event-Handled pane_id (exit reason) r r' h = absurd (cc)
handle_event-Handled pane_id (command_response t f ls) r r' h = unchanged pane_id r r' h
handle_event-Handled pane_id (session_changed a b) r r' h = unchanged pane_id r r' h
handle_event-Handled pane_id (session_created a b) r r' h = unchanged pane_id r r' h
handle_event-Handled pane_id (session_closed a) r r' h = unchanged pane_id r r' h
handle_event-Handled pane_id (window_add a) r r' h = unchanged pane_id r r' h
handle_event-Handled pane_id (window_close a) r r' h = unchanged pane_id r r' h
handle_event-Handled pane_id (window_renamed a b) r r' h = unchanged pane_id r r' h
handle_event-Handled pane_id (layout_change a b) r r' h = unchanged pane_id r r' h
handle_event-Handled pane_id (pane_mode_changed a) r r' h = unchanged pane_id r r' h
