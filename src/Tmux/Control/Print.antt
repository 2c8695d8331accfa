-- ===== src/Tmux/Control/Print.antt =====
-- server/src/tmux/control.rs, `feed_line`: each kind of notification that tmux documents, as a line
-- of its own, against the event that the parser sends for it.
use oxmux.Prelude.{◌≡◌, refl, ◌∙◌, ap, List, [], ◌∷◌, ◌++◌, none, some, arith}
use oxmux.Prelude.Text.{
  Text, codes, Lacks, strip_prefix, split_once, split_once-append, trim_end_matches-Lacks, text_eq,
}
use oxmux.Tmux.Decode.RoundTrip.{Piece, ArePieces, render, bytes_of, decode-render}
use oxmux.Tmux.Control.{TmuxEvent, idle, with_pair, feed_idle, feed_line}

-- A notification as tmux sends it; the data of `%output` is escaped.
pub data Notice : Type 0 where
  output : Text → List Piece → Notice
  session_changed session_created window_renamed layout_change : Text → Text → Notice
  session_closed window_add window_close pane_mode_changed : Text → Notice
  exit : Notice
  exit_because : Text → Notice

-- the line
unfoldable pub print : Notice → Text
print (output pane ps) = codes "%output " ++ (pane ++ b' ' ∷ render ps)
print (session_changed id name) = codes "%session-changed " ++ (id ++ b' ' ∷ name)
print (session_created id name) = codes "%session-created " ++ (id ++ b' ' ∷ name)
print (window_renamed id name) = codes "%window-renamed " ++ (id ++ b' ' ∷ name)
print (layout_change id layout) = codes "%layout-change " ++ (id ++ b' ' ∷ layout)
print (session_closed id) = codes "%session-closed " ++ id
print (window_add id) = codes "%window-add " ++ id
print (window_close id) = codes "%window-close " ++ id
print (pane_mode_changed id) = codes "%pane-mode-changed " ++ id
print exit = codes "%exit"
print (exit_because reason) = codes "%exit " ++ reason

-- the event that it stands for
unfoldable pub event_of : Notice → TmuxEvent
event_of (output pane ps) = TmuxEvent.output pane (bytes_of ps)
event_of (session_changed id name) = TmuxEvent.session_changed id name
event_of (session_created id name) = TmuxEvent.session_created id name
event_of (window_renamed id name) = TmuxEvent.window_renamed id name
event_of (layout_change id layout) = TmuxEvent.layout_change id layout
event_of (session_closed id) = TmuxEvent.session_closed id
event_of (window_add id) = TmuxEvent.window_add id
event_of (window_close id) = TmuxEvent.window_close id
event_of (pane_mode_changed id) = TmuxEvent.pane_mode_changed id
event_of exit = TmuxEvent.exit none
event_of (exit_because reason) = TmuxEvent.exit (some reason)

-- The first of two fields has no space, and the data of `%output` is escaped as tmux does.
abbrev pub IsNotice : Notice → Type 0
IsNotice (output pane ps) = Lacks b' ' pane × ArePieces ps
IsNotice (session_changed id name) = Lacks b' ' id
IsNotice (session_created id name) = Lacks b' ' id
IsNotice (window_renamed id name) = Lacks b' ' id
IsNotice (layout_change id layout) = Lacks b' ' id
IsNotice _ = Unit

with_pair-append :
    (f : Text → Text → TmuxEvent) (a b : Text)
    → Lacks b' ' a
    → with_pair f (a ++ b' ' ∷ b) ≡ f a b ∷ []
with_pair-append f a b h = ground (arith, split_once-append b' ' a b h)

created-append :
    (a b : Text)
    → Lacks b' ' a
    → elim (split_once b' ' (a ++ b' ' ∷ b)) [
      | none ↦ TmuxEvent.session_created (a ++ b' ' ∷ b) [] ∷ []
      | some (id, name) ↦ TmuxEvent.session_created id name ∷ []
    ]
      ≡ TmuxEvent.session_created a b ∷ []
created-append a b h = ground (arith, split_once-append b' ' a b h)

trimmed : (n : Notice) → IsNotice n → feed_idle (print n) ≡ (idle, event_of n ∷ [])
unfolding feed_idle print event_of strip_prefix text_eq
trimmed (output pane ps) h =
    ap (λ sent. (idle, sent)) (with_pair-append _ pane (render ps) h.0 ∙ rw (decode-render ps h.1))
trimmed (session_changed id name) h = ap (λ sent. (idle, sent)) (with_pair-append _ id name h)
trimmed (session_created id name) h = ap (λ sent. (idle, sent)) (created-append id name h)
trimmed (window_renamed id name) h = ap (λ sent. (idle, sent)) (with_pair-append _ id name h)
trimmed (layout_change id layout) h = ap (λ sent. (idle, sent)) (with_pair-append _ id layout h)
trimmed (session_closed id) h = refl
trimmed (window_add id) h = refl
trimmed (window_close id) h = refl
trimmed (pane_mode_changed id) h = refl
trimmed exit h = refl
trimmed (exit_because reason) h = refl

-- Outside a block, a line that holds a notification and no carriage return sends the one event that
-- the notification stands for, and leaves the parser outside a block.
pub feed_line-print :
    (n : Notice)
    → IsNotice n
    → Lacks b'\r' (print n)
    → feed_line idle (print n) ≡ (idle, event_of n ∷ [])
unfolding feed_line
feed_line-print n h cr = rw (trim_end_matches-Lacks b'\r' (print n) cr) (trimmed n h)
