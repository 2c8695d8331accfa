-- ===== src/Ws/Socket/Drain.antt =====
-- server/src/ws/session_handler.rs, `drain_pane_outputs`: a pane's loop, and its fuel.
use oxmux.Prelude.{
  ℕ, zero, suc, ◌+◌, ◌≤◌, ◌≡◌, refl, List, [], ◌∷◌, ◌++◌, Option, none, Bool, true, false, arith,
  length,
}
use oxmux.Prelude.Text.{Text}
use oxmux.Ws.Protocol.{ServerMsg}
use oxmux.Ws.Socket.{Receiver, try_recv, frame_of, drain_pane}

module _ {Payload Usd Frame : Type 0} (encode : ServerMsg Payload Usd → Option Frame)
    (pane_id : Text) where
  -- the frames of the messages that wait
  abbrev pub waiting_frames : List (List ℕ) → List Frame
  waiting_frames [] = []
  waiting_frames (bytes ∷ waiting) =
      frame_of encode (ServerMsg.output pane_id bytes none) ++ waiting_frames waiting

  drain-waiting :
      (f : ℕ) (waiting : List (List ℕ)) (closed : Bool)
      → length waiting + 1 ≤ f
      → drain_pane encode f pane_id (record { missed = 0; waiting = waiting; closed = closed })
        ≡ (waiting_frames waiting, record { missed = 0; waiting = []; closed = closed })
  unfolding drain_pane try_recv
  drain-waiting zero waiting closed h = absurd (omega arith)
  drain-waiting (suc f) [] true h = refl
  drain-waiting (suc f) [] false h = refl
  drain-waiting (suc f) (bytes ∷ waiting) closed h =
      rw (drain-waiting f waiting closed (omega arith)) refl

  -- All messages that wait are sent, in order, and none is left.
  pub drain_pane-all :
      (f : ℕ) (r : Receiver)
      → length r.waiting + 2 ≤ f
      → drain_pane encode f pane_id r
        ≡ (waiting_frames r.waiting, record { missed = 0; waiting = []; closed = r.closed })
  unfolding drain_pane try_recv
  drain_pane-all zero r h = absurd (omega arith)
  drain_pane-all (suc f) r h = missed_first r.missed
    where
      missed_first :
          (n : ℕ)
          → drain_pane encode (suc f) pane_id (record r { missed = n })
            ≡ (waiting_frames r.waiting, record { missed = 0; waiting = []; closed = r.closed })
      missed_first zero = drain-waiting (suc f) r.waiting r.closed (omega arith)
      missed_first (suc n) = rw (drain-waiting f r.waiting r.closed (omega arith)) refl
