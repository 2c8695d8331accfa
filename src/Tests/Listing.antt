-- ===== src/Tests/Listing.antt =====
-- server/src/session at concrete listings.
use oxmux.Prelude.{◌≡◌, ◌++◌}
use oxmux.Prelude.Text.{Text, codes}
use oxmux.Tmux.Listing.{lines, parse_pane_listing}
use oxmux.Tmux.Listing.Panes.{panes_at, listed_panes, panes-parse_pane_listing}

-- two panes of one window
abbrev output : Text
output =
    codes "$0|||main|||@0|||sh|||0|||x|||%0|||0|||80|||24|||bash|||1\n"
    ++ codes "$0|||main|||@0|||sh|||0|||x|||%1|||1|||80|||24|||claude|||0\n"

panes-parse_pane_listing_example :
    panes_at (codes "$0") (codes "@0") (parse_pane_listing output)
    ≡ listed_panes (codes "$0") (codes "@0") (lines output)
panes-parse_pane_listing_example = panes-parse_pane_listing (codes "$0") (codes "@0") output
