-- ===== src/Agent/Tmux/Socket.antt =====
-- agent/src/tmux_manager.rs, `find_socket`, and `find_tmux_socket` of agent/src/quic/server.rs, the same code:
-- which of the sockets of tmux is chosen.
use oxmux.Prelude.{
  ℕ, ◌-◌, ◌^◌, ◌<◌, ◌≤◌, ◌≡◌, refl, Bool, true, List, [], ◌∷◌, none, some, leb, arith, Bool-cases,
  Option-cases, ◌⊎◌, inl, inr, All,
}
use oxmux.Prelude.Text.{Text}
use oxmux.Agent.Tmux.{
  FoundSocket, rank, socket_at, sockets_in, insert_by_rank, sort_by_rank, first_socket, find_socket,
}

-- a socket is among these
abbrev pub IsAmong : FoundSocket → List FoundSocket → Type 0
IsAmong s [] = ⊥
IsAmong s (r ∷ rs) = (r ≡ s) ⊎ IsAmong s rs

-- no socket of these ranks before it
abbrev pub IsBest : FoundSocket → List FoundSocket → Type 0
IsBest s rs = IsAmong s rs × All (λ r. rank s ≤ rank r) rs

-- how the sorted list begins
abbrev BeginsBest : List FoundSocket → List FoundSocket → Type 0
BeginsBest [] rs = rs ≡ []
BeginsBest (s ∷ ss) rs = IsBest s rs

All-lower :
    (a b : ℕ) (rs : List FoundSocket) → a ≤ b → All (λ r. b ≤ rank r) rs → All (λ r. a ≤ rank r) rs
All-lower a b [] h k = tt
All-lower a b (r ∷ rs) h k = (omega (arith, k.0), All-lower a b rs h k.1)

insert-best :
    (s : FoundSocket) (sorted rs : List FoundSocket)
    → BeginsBest sorted rs
    → BeginsBest (insert_by_rank s sorted) (s ∷ rs)
unfolding insert_by_rank
insert-best s [] rs h = rw h (inl refl, (omega arith, tt))
insert-best s (r ∷ sorted) rs h = elim (Bool-cases (leb (rank s) (rank r))) [
  | inl first ↦
      rw first (inl refl, (omega arith, All-lower (rank s) (rank r) rs (ground arith) h.1))
  | inr later ↦ rw later (inr h.0, (ground arith, h.1))
]

sort-best : (rs : List FoundSocket) → BeginsBest (sort_by_rank rs) rs
unfolding sort_by_rank
sort-best [] = refl
sort-best (r ∷ rs) = insert-best r (sort_by_rank rs) rs (sort-best rs)

socket_at-exists :
    (exists : Text → Bool) (name : Text) (s : FoundSocket)
    → socket_at exists name ≡ some s
    → exists s.1 ≡ true
unfolding socket_at
socket_at-exists exists name s h = ground arith

among-exists :
    (exists : Text → Bool) (names : List Text) (s : FoundSocket)
    → IsAmong s (sockets_in exists names)
    → exists s.1 ≡ true
unfolding sockets_in
among-exists exists [] s h = absurd h
among-exists exists (name ∷ names) s h = elim (Option-cases (socket_at exists name)) [
  | inl e ↦ among-exists exists names s (rw (e, sockets_in) at h)
  | inr (r, e) ↦
      let here_or_later : (r ≡ s) ⊎ IsAmong s (sockets_in exists names) = rw (e, sockets_in) at h in
      elim here_or_later [
        | inl same ↦ socket_at-exists exists name s (rw (← same) e)
        | inr later ↦ among-exists exists names s later
      ]
]

among-rank :
    (s r : FoundSocket) (rs : List FoundSocket)
    → All (λ q. rank s ≤ rank q) rs
    → IsAmong r rs
    → rank s ≤ rank r
among-rank s r [] h m = absurd m
among-rank s r (q ∷ rs) h (inl same) = rw (← same) h.0
among-rank s r (q ∷ rs) h (inr later) = among-rank s r rs h.1 later

pub record IsChosen (exists : Text → Bool) (names : List Text) (sock : Text) : Type 0 where
  pub uid : ℕ
  pub found : IsAmong (uid, sock) (sockets_in exists names)
  pub present : exists sock ≡ true
  pub least :
      (r : FoundSocket)
      → IsAmong r (sockets_in exists names)
      → 0 < r.0
      → r.0 < 2 ^ 32 - 1
      → (0 < uid) × (uid ≤ r.0)

rank-least :
    (uid other : ℕ) (sock sock' : Text)
    → rank (uid, sock) ≤ rank (other, sock')
    → 0 < other
    → other < 2 ^ 32 - 1
    → (0 < uid) × (uid ≤ other)
rank-least uid other sock sock' h p q = ground arith

module _ (exists : Text → Bool) (names : List Text) where
  -- `find_socket` gives nothing only when no socket is found. What it gives is one of those found, which
  -- exists; and if one of them is of a user id other than 0 and below 2^32 - 1, the chosen one is not of
  -- user 0, and its id is not greater.
  pub find_socket-IsChosen :
      ((find_socket exists names ≡ none) × (sockets_in exists names ≡ []))
      ⊎ ((sock : Text) × (find_socket exists names ≡ some sock) × IsChosen exists names sock)
  unfolding find_socket
  find_socket-IsChosen =
      of_first (sort_by_rank (sockets_in exists names)) (sort-best (sockets_in exists names))
    where
      of_first :
          (sorted : List FoundSocket)
          → BeginsBest sorted (sockets_in exists names)
          → ((first_socket sorted ≡ none) × (sockets_in exists names ≡ []))
            ⊎ ((sock : Text) × (first_socket sorted ≡ some sock) × IsChosen exists names sock)
      of_first [] h = inl (refl, h)
      of_first ((uid, sock) ∷ ss) h = inr (
        sock,
        refl,
        record {
          uid = uid;
          found = h.0;
          present = among-exists exists names (uid, sock) h.0;
          least = λ r m p q. rank-least uid r.0 sock r.1 (among-rank (uid, sock) r _ h.1 m) p q;
        },
      )
