-- ===== src/Tests/Listings.antt =====
-- agent/src/tmux_manager.rs at concrete listings and sockets.
use oxmux.Prelude.{map, ◌≡◌, refl, Bool, true, List, [], ◌∷◌, ◌++◌, Option, none, some, ◌⊎◌}
use oxmux.Prelude.Text.{Text, codes, text_eq, split}
use oxmux.Ws.Tree.{TmuxWindowInfo}
use oxmux.Tmux.Listing.{lines, split_fields, parse_row, parse_pane_listing}
use oxmux.Tmux.Listing.Panes.{window_panes, panes_at}
use oxmux.Agent.Tmux.{parse_panes, find_socket, sockets_in}
use oxmux.Agent.Tree.{build_window_tree}
use oxmux.Agent.Tree.Windows.{AreIncreasing}
use oxmux.Agent.Tree.SameTree.{AreOf, tree-same_panes}
use oxmux.Agent.Tmux.Socket.{IsChosen, find_socket-IsChosen}

-- the tenth window comes after the first in tmux, and before the second in the agent's tree
abbrev output : Text
output =
    codes "$0|||main|||@2|||sh|||0|||x|||%0|||0|||80|||24|||bash|||1\n"
    ++ codes "$0|||main|||@10|||sh|||1|||x|||%1|||0|||80|||24|||claude|||0\n"

of_one : AreOf (codes "$0") (lines output)
unfolding lines parse_row split_fields split
of_one = (refl, (refl, tt))

tree-same_panes_example :
    (windows : List TmuxWindowInfo) × (build_window_tree (parse_panes (lines output))
      ≡ some windows)
    × AreIncreasing windows
    × ((wid : Text)
        → window_panes wid windows ≡ panes_at (codes "$0") wid (parse_pane_listing output))
tree-same_panes_example = tree-same_panes (codes "$0") output of_one

abbrev ids : Option (List TmuxWindowInfo) → List Text
ids none = []
ids (some windows) = map (λ w. w.id) windows

text_order : ids (build_window_tree (parse_panes (lines output))) ≡ codes "@10" ∷ codes "@2" ∷ []
unfolding build_window_tree parse_panes lines split text_eq
text_order = refl

abbrev there : Text → Bool
there path = true

abbrev names : List Text
names = codes "tmux-0" ∷ codes "x" ∷ codes "tmux-1000" ∷ codes "tmux-501" ∷ []

find_socket-IsChosen_example :
    ((find_socket there names ≡ none) × (sockets_in there names ≡ []))
    ⊎ ((sock : Text) × (find_socket there names ≡ some sock) × IsChosen there names sock)
find_socket-IsChosen_example = find_socket-IsChosen there names

lowest : find_socket there names ≡ some (codes "/tmp/tmux-501/default")
unfolding find_socket
lowest = refl
