-- ===== src/Agent/Commands/WireFormat.antt =====
-- The commands of the agent and of the server, agent/src/quic/server.rs and
-- server/src/session/ssh_transport.rs, on the wire.
use oxmux.Prelude.{
  ℕ, ◌/◌, ◌%◌, ◌<◌, ◌≡◌, refl, sym, ap, ◌∙◌, Bool, true, false, ◌&&◌, List, [], ◌∷◌, ◌++◌, arith,
  leb, ◌||◌, ◌==◌, if◌then◌else◌, all, append_assoc, Bool-cases, inl, inr, All,
}
use oxmux.Prelude.Text.{
  Text, codes, Lacks, Lacks-append, is_digit, is_whitespace, trim, trim_start, trim_end,
}
use oxmux.Agent.Commands.{
  is_valid_pane_id, hex_digit, hex, spaced_hex, hex_spaced, input_command, ends_with_newline,
  write_control_command, ssh_send_input, send_tmux_input,
}

abbrev pub AreBytes : List ℕ → Type 0
AreBytes [] = Unit
AreBytes (b ∷ bytes) = (b < 256) × AreBytes bytes

-- a digit or a letter from `a` to `f`
abbrev is_hex : ℕ → Bool
is_hex c = is_digit c || leb b'a' c && leb c b'f'

hex_digit-is_hex : (n : ℕ) → n < 16 → is_hex (hex_digit n) ≡ true
hex_digit-is_hex n h = ground arith

is_hex-plain : (c : ℕ) → is_hex c ≡ true → (is_whitespace c ≡ false) × ((b'\n' == c) ≡ false)
is_hex-plain c h = ground arith

-- a digit of a byte is no whitespace
high-plain : (b : ℕ) → b < 256 → is_whitespace (hex_digit (b / 16)) ≡ false
high-plain b h = (is_hex-plain (hex_digit (b / 16)) (hex_digit-is_hex (b / 16) (omega arith))).0

low-plain : (b : ℕ) → b < 256 → is_whitespace (hex_digit (b % 16)) ≡ false
low-plain b h = (is_hex-plain (hex_digit (b % 16)) (hex_digit-is_hex (b % 16) (omega arith))).0

plain-step :
    (c : ℕ) (t : Text)
    → is_whitespace c ≡ false
    → elim t [ [] ↦ if is_whitespace c then [] else c ∷ [] | e ∷ u ↦ c ∷ e ∷ u ] ≡ c ∷ t
plain-step c [] h = rw h
plain-step c (e ∷ t) h = refl

trim_end-plain : (c : ℕ) (s : Text) → is_whitespace c ≡ false → trim_end (c ∷ s) ≡ c ∷ trim_end s
unfolding trim_end
trim_end-plain c s h = plain-step c (trim_end s) h

trim_end-space : (c d : ℕ) (s t : Text) → trim_end s ≡ d ∷ t → trim_end (c ∷ s) ≡ c ∷ d ∷ t
unfolding trim_end
trim_end-space c d s t e = rw e

trim_end-hex :
    (b : ℕ) (bytes : List ℕ)
    → AreBytes (b ∷ bytes)
    → trim_end (hex_spaced (b ∷ bytes)) ≡ hex b ++ spaced_hex bytes
unfolding hex_spaced spaced_hex
trim_end-hex b [] h =
    trim_end-plain (hex_digit (b / 16)) (hex_digit (b % 16) ∷ b' ' ∷ []) (high-plain b h.0)
    ∙ ap (λ t. hex_digit (b / 16) ∷ t)
        (trim_end-plain (hex_digit (b % 16)) (b' ' ∷ []) (low-plain b h.0)
          ∙ unfold trim_end in refl)
trim_end-hex b (c ∷ bytes) h =
    trim_end-plain (hex_digit (b / 16)) (hex_digit (b % 16) ∷ b' ' ∷ hex_spaced (c ∷ bytes))
      (high-plain b h.0)
    ∙ ap (λ t. hex_digit (b / 16) ∷ t)
        (trim_end-plain (hex_digit (b % 16)) (b' ' ∷ hex_spaced (c ∷ bytes)) (low-plain b h.0)
          ∙ ap (λ t. hex_digit (b % 16) ∷ t)
              (trim_end-space b' ' (hex_digit (c / 16)) (hex_spaced (c ∷ bytes))
                (hex_digit (c % 16) ∷ spaced_hex bytes) (trim_end-hex c bytes h.1)))

trim_start-plain : (c : ℕ) (s : Text) → is_whitespace c ≡ false → trim_start (c ∷ s) ≡ c ∷ s
unfolding trim_start
trim_start-plain c s h = rw (h, trim_start)

trim_start-hex :
    (b : ℕ) (bytes : List ℕ)
    → AreBytes (b ∷ bytes)
    → trim_start (hex_spaced (b ∷ bytes)) ≡ hex_spaced (b ∷ bytes)
unfolding hex_spaced
trim_start-hex b bytes h =
    trim_start-plain (hex_digit (b / 16)) (hex_digit (b % 16) ∷ b' ' ∷ hex_spaced bytes)
      (high-plain b h.0)

trim-hex_spaced :
    (b : ℕ) (bytes : List ℕ)
    → AreBytes (b ∷ bytes)
    → trim (hex_spaced (b ∷ bytes)) ≡ hex b ++ spaced_hex bytes
unfolding trim
trim-hex_spaced b bytes h = ap trim_end (trim_start-hex b bytes h) ∙ trim_end-hex b bytes h

-- A character that is no newline, and then a text, ends with a newline only if the text does.
ends_with-append : (a b : Text) (c : ℕ) → ends_with_newline (a ++ c ∷ b) ≡ ends_with_newline (c ∷ b)
unfolding ends_with_newline
ends_with-append [] b c = refl
ends_with-append (d ∷ []) b c = refl
ends_with-append (d ∷ e ∷ a) b c = ends_with-append (e ∷ a) b c

Lacks-ends : (s : Text) → Lacks b'\n' s → ends_with_newline s ≡ false
unfolding ends_with_newline
Lacks-ends [] h = refl
Lacks-ends (c ∷ []) h = ground arith
Lacks-ends (c ∷ d ∷ s) h = Lacks-ends (d ∷ s) h.1

all_digit-Lacks : (s : Text) → all is_digit s ≡ true → Lacks b'\n' s
all_digit-Lacks [] h = tt
all_digit-Lacks (c ∷ s) h = (ground arith, all_digit-Lacks s (ground arith))

-- A valid pane id holds no newline.
pane-Lacks : (pane : Text) → is_valid_pane_id pane ≡ true → Lacks b'\n' pane
unfolding is_valid_pane_id
pane-Lacks [] h = tt
pane-Lacks (c ∷ []) h = absurd (ground arith)
pane-Lacks (c ∷ d ∷ s) h = (ground arith, all_digit-Lacks (d ∷ s) (ground arith))

spaced-Lacks : (bytes : List ℕ) → AreBytes bytes → Lacks b'\n' (spaced_hex bytes)
unfolding spaced_hex
spaced-Lacks [] h = tt
spaced-Lacks (b ∷ bytes) h = (
  refl,
  (
    (is_hex-plain (hex_digit (b / 16)) (hex_digit-is_hex (b / 16) (omega arith))).1,
    (
      (is_hex-plain (hex_digit (b % 16)) (hex_digit-is_hex (b % 16) (omega arith))).1,
      spaced-Lacks bytes h.1,
    ),
  ),
)

body : Text → List ℕ → Text
body pane bytes = codes "send-keys -t " ++ (pane ++ (codes " -H" ++ spaced_hex bytes))

prefix-Lacks : Lacks b'\n' (codes "send-keys -t ")
prefix-Lacks = (
  refl,
  (
    refl,
    (refl, (refl, (refl, (refl, (refl, (refl, (refl, (refl, (refl, (refl, (refl, tt))))))))))),
  ),
)

body-Lacks :
    (pane : Text) (bytes : List ℕ)
    → is_valid_pane_id pane ≡ true
    → AreBytes bytes
    → Lacks b'\n' (body pane bytes)
unfolding body
body-Lacks pane bytes hp hb =
    Lacks-append b'\n' (codes "send-keys -t ") (pane ++ (codes " -H" ++ spaced_hex bytes))
      prefix-Lacks
      (Lacks-append b'\n' pane (codes " -H" ++ spaced_hex bytes) (pane-Lacks pane hp)
        (refl, (refl, (refl, spaced-Lacks bytes hb))))

input_command-body :
    (pane : Text) (bytes : List ℕ) → input_command pane bytes ≡ body pane bytes ++ b'\n' ∷ []
unfolding body input_command
input_command-body pane bytes =
    ap (λ t. codes "send-keys -t " ++ t)
      (ap (λ t. pane ++ t) (sym (append_assoc (codes " -H") (spaced_hex bytes) (b'\n' ∷ [])))
        ∙ sym (append_assoc pane (codes " -H" ++ spaced_hex bytes) (b'\n' ∷ [])))

ssh-body :
    (pane : Text) (b : ℕ) (bytes : List ℕ)
    → AreBytes (b ∷ bytes)
    → ssh_send_input pane (b ∷ bytes) ≡ write_control_command (body pane (b ∷ bytes))
unfolding body ssh_send_input spaced_hex
ssh-body pane b bytes h =
    ap (λ t. write_control_command (codes "send-keys -t " ++ (pane ++ (codes " -H " ++ t))))
      (trim-hex_spaced b bytes h)

-- For a valid pane and bytes, one at least, the agent and the server write the same text for the
-- same input, though they format it differently.
pub input-same_text :
    (pane : Text) (b : ℕ) (bytes : List ℕ)
    → is_valid_pane_id pane ≡ true
    → AreBytes (b ∷ bytes)
    → send_tmux_input pane (b ∷ bytes) ≡ ssh_send_input pane (b ∷ bytes) ∷ []
unfolding send_tmux_input write_control_command
input-same_text pane b bytes hp hb = rw hp (
    ap (λ t. t ∷ [])
      (input_command-body pane (b ∷ bytes)
        ∙ sym (
            ssh-body pane b bytes hb
            ∙ (unfold write_control_command in
                rw (Lacks-ends (body pane (b ∷ bytes)) (body-Lacks pane (b ∷ bytes) hp hb)) refl))))

-- a letter, a digit, a space, a hyphen or a percent sign: nothing that ends a command of tmux, quotes
-- or expands
abbrev pub is_word : ℕ → Bool
is_word c =
    is_digit c
    || leb b'a' c && leb c b'z'
    || leb b'A' c && leb c b'Z'
    || c == b' '
    || c == b'-'
    || c == b'%'

all_digit-word : (s : Text) → all is_digit s ≡ true → all is_word s ≡ true
all_digit-word [] h = refl
all_digit-word (c ∷ s) h = ground (arith, all_digit-word s)

pane-word : (pane : Text) → is_valid_pane_id pane ≡ true → all is_word pane ≡ true
unfolding is_valid_pane_id
pane-word [] h = refl
pane-word (c ∷ []) h = absurd (ground arith)
pane-word (c ∷ d ∷ s) h = ground (arith, all_digit-word (d ∷ s))

hex-word : (n : ℕ) → n < 16 → is_word (hex_digit n) ≡ true
hex-word n h = ground arith

spaced-word : (bytes : List ℕ) → AreBytes bytes → all is_word (spaced_hex bytes) ≡ true
unfolding spaced_hex
spaced-word [] h = refl
spaced-word (b ∷ bytes) h =
    rw (hex-word (b / 16) (omega arith))
      (rw (hex-word (b % 16) (omega arith)) (rw (spaced-word bytes h.1) refl))

all_word-append :
    (a b : Text) → all is_word a ≡ true → all is_word b ≡ true → all is_word (a ++ b) ≡ true
all_word-append [] b ha hb = hb
all_word-append (c ∷ a) b ha hb = ground (arith, all_word-append a b)

body-word :
    (pane : Text) (bytes : List ℕ)
    → is_valid_pane_id pane ≡ true
    → AreBytes bytes
    → all is_word (body pane bytes) ≡ true
unfolding body
body-word pane bytes hp hb =
    all_word-append (codes "send-keys -t ") (pane ++ (codes " -H" ++ spaced_hex bytes)) refl (
      all_word-append pane (codes " -H" ++ spaced_hex bytes) (pane-word pane hp)
        (all_word-append (codes " -H") (spaced_hex bytes) refl (spaced-word bytes hb)))

-- one command on one line: a newline stands at the end, and before it are words, with nothing between
-- commands
abbrev pub IsLine : Text → Type 0
IsLine cmd = (s : Text) × (cmd ≡ s ++ b'\n' ∷ []) × Lacks b'\n' s × (all is_word s ≡ true)

-- Whatever pane name and bytes a client sends, the agent writes nothing or one line, that ends with
-- its only newline and has before it letters, digits, spaces, hyphens and percent signs alone: no
-- semicolon, quote or other character with which tmux begins a second command.
pub input-IsLine :
    (pane : Text) (bytes : List ℕ) → AreBytes bytes → All IsLine (send_tmux_input pane bytes)
unfolding send_tmux_input
input-IsLine pane [] h = tt
input-IsLine pane (b ∷ bytes) h = elim (Bool-cases (is_valid_pane_id pane)) [
  | inl valid ↦ rw valid (
    (
      body pane (b ∷ bytes),
      input_command-body pane (b ∷ bytes),
      body-Lacks pane (b ∷ bytes) valid h,
      body-word pane (b ∷ bytes) valid h,
    ),
    tt,
  )
  | inr other ↦ rw other tt
]
