-- ===== src/Tmux/Control/Blocks.antt =====
-- server/src/tmux/control.rs, `feed_line` over the lines of a %begin/%end block.
use oxmux.Prelude.{
  ℕ, ◌^◌, ◌<◌, ◌≡◌, refl, ◌∙◌, ap, false, List, [], ◌∷◌, ◌++◌, some, append-nil, append_assoc, map,
}
use oxmux.Prelude.Text.{
  Text, codes, Lacks, strip_prefix, starts_with, splitn, splitn-append, Lacks-append,
  trim_end_matches-append, trim_end_matches, trim_end_matches-Lacks,
}
use oxmux.Prelude.Decimal.{show, show-IsNumeral, IsNumeral-Lacks, parse_uint-show}
use oxmux.Tmux.Control.{
  command_response, BlockAccumulator, ControlModeParser, idle, feed_block, begin_block, feed_idle,
  feed_line, feed_lines,
}

-- a line as the parser sees it
abbrev pub trimmed : Text → Text
trimmed line = trim_end_matches b'\r' line

-- A line inside a block that does not close it.
abbrev pub IsBody : Text → Type 0
IsBody line =
    (starts_with (codes "%end ") (trimmed line) ≡ false)
    × (starts_with (codes "%error ") (trimmed line) ≡ false)

abbrev pub AreBody : List Text → Type 0
AreBody [] = Unit
AreBody (line ∷ body) = IsBody line × AreBody body

pub feed_lines-append :
    (p : ControlModeParser) (xs ys : List Text)
    → feed_lines p (xs ++ ys) ≡ (
      (feed_lines (feed_lines p xs).0 ys).0,
      (feed_lines p xs).1 ++ (feed_lines (feed_lines p xs).0 ys).1,
    )
unfolding feed_lines
feed_lines-append p [] ys = refl
feed_lines-append p (x ∷ xs) ys =
    rw (feed_lines-append (feed_line p x).0 xs ys)
      (ap (λ sent. ((feed_lines (feed_lines (feed_line p x).0 xs).0 ys).0, sent)) (rw append_assoc))

feed-body :
    (block : BlockAccumulator) (body : List Text)
    → AreBody body
    → feed_lines (some block) body
      ≡ (some (record block { lines = block.lines ++ map trimmed body }), [])
unfolding feed_lines feed_line feed_block
feed-body block [] h = rw append-nil
feed-body block (line ∷ body) h =
    rw (h.0.0, h.0.1)
      (rw (feed-body (record block { lines = block.lines ++ trimmed line ∷ [] }) body h.1)
        (rw append_assoc))

-- `%begin <timestamp> <number> <flags>`
abbrev pub begin_line : ℕ → ℕ → ℕ → Text
begin_line timestamp number flags =
    codes "%begin " ++ (show timestamp ++ b' ' ∷ (show number ++ b' ' ∷ show flags))

abbrev pub end_line : Text → Text
end_line rest = codes "%end " ++ rest

abbrev pub error_line : Text → Text
error_line rest = codes "%error " ++ rest

show-Lacks_space : (n : ℕ) → Lacks b' ' (show n)
show-Lacks_space n = IsNumeral-Lacks b' ' refl (show-IsNumeral n)

begin_parts :
    (a b c : Text)
    → Lacks b' ' a
    → Lacks b' ' b
    → splitn 3 b' ' (a ++ b' ' ∷ (b ++ b' ' ∷ c)) ≡ a ∷ b ∷ c ∷ []
begin_parts a b c ha hb =
    splitn-append 1 b' ' a (b ++ b' ' ∷ c) ha
    ∙ ap (λ t. a ∷ t) (splitn-append 0 b' ' b c hb ∙ unfold splitn in refl)

begin_fields :
    (timestamp number flags : ℕ)
    → timestamp < 2 ^ 64
    → flags < 2 ^ 32
    → begin_block (show timestamp ++ b' ' ∷ (show number ++ b' ' ∷ show flags))
      ≡ (some (record { timestamp = timestamp; flags = flags; lines = [] }), [])
unfolding begin_block
begin_fields timestamp number flags ht hf =
    rw
      (begin_parts (show timestamp) (show number) (show flags) (show-Lacks_space timestamp)
        (show-Lacks_space number))
      (rw (parse_uint-show (2 ^ 64) timestamp ht, parse_uint-show (2 ^ 32) flags hf))

show-Lacks_cr : (n : ℕ) → Lacks b'\r' (show n)
show-Lacks_cr n = IsNumeral-Lacks b'\r' refl (show-IsNumeral n)

begin_line-Lacks_cr : (t n f : ℕ) → Lacks b'\r' (begin_line t n f)
begin_line-Lacks_cr t n f =
    Lacks-append b'\r' (codes "%begin ") (show t ++ b' ' ∷ (show n ++ b' ' ∷ show f)) literal (
      Lacks-append b'\r' (show t) (b' ' ∷ (show n ++ b' ' ∷ show f)) (show-Lacks_cr t) (
        refl,
        Lacks-append b'\r' (show n) (b' ' ∷ show f) (show-Lacks_cr n) (refl, show-Lacks_cr f),
      ))
  where
    literal : Lacks b'\r' (codes "%begin ")
    literal = (refl, (refl, (refl, (refl, (refl, (refl, (refl, tt)))))))

feed-begin :
    (timestamp number flags : ℕ)
    → timestamp < 2 ^ 64
    → flags < 2 ^ 32
    → feed_line idle (begin_line timestamp number flags)
      ≡ (some (record { timestamp = timestamp; flags = flags; lines = [] }), [])
unfolding feed_line feed_idle strip_prefix
feed-begin timestamp number flags ht hf =
    rw
      (trim_end_matches-Lacks b'\r' (begin_line timestamp number flags)
        (begin_line-Lacks_cr timestamp number flags))
      (begin_fields timestamp number flags ht hf)

feed-end :
    (block : BlockAccumulator) (rest : Text)
    → feed_line (some block) (end_line rest)
      ≡ (idle, command_response block.timestamp block.flags block.lines ∷ [])
unfolding feed_line feed_block strip_prefix
feed-end block rest = rw (trim_end_matches-append b'\r' (codes "%end ") rest literal)
  where
    literal : Lacks b'\r' (codes "%end ")
    literal = (refl, (refl, (refl, (refl, (refl, tt)))))

feed-error :
    (block : BlockAccumulator) (rest : Text) → feed_line (some block) (error_line rest) ≡ (idle, [])
unfolding feed_line feed_block strip_prefix
feed-error block rest = rw (trim_end_matches-append b'\r' (codes "%error ") rest literal)
  where
    literal : Lacks b'\r' (codes "%error ")
    literal = (refl, (refl, (refl, (refl, (refl, (refl, (refl, tt)))))))

-- From outside a block: a %begin line, lines that do not close the block, and a closing line lead
-- outside again. A %end line sends one response, with the timestamp and the flags of the %begin line
-- and every line in between without its carriage returns, notifications included; a %error line
-- sends nothing.
pub feed_lines-block :
    (timestamp number flags : ℕ) (body : List Text) (rest : Text)
    → timestamp < 2 ^ 64
    → flags < 2 ^ 32
    → AreBody body
    → (feed_lines idle (begin_line timestamp number flags ∷ (body ++ end_line rest ∷ []))
        ≡ (idle, command_response timestamp flags (map trimmed body) ∷ []))
      × (feed_lines idle (begin_line timestamp number flags ∷ (body ++ error_line rest ∷ []))
          ≡ (idle, []))
unfolding feed_lines
feed_lines-block timestamp number flags body rest ht hf h =
    let opened : BlockAccumulator = record { timestamp = timestamp; flags = flags; lines = [] } in
    (
      rw (feed-begin timestamp number flags ht hf) (
          rw (feed_lines-append (some opened) body (end_line rest ∷ [])) (
            rw (feed-body opened body h)
              (rw (feed-end (record opened { lines = map trimmed body }) rest)))),
      rw (feed-begin timestamp number flags ht hf) (
          rw (feed_lines-append (some opened) body (error_line rest ∷ [])) (
            rw (feed-body opened body h)
              (rw (feed-error (record opened { lines = map trimmed body }) rest)))),
    )
