-- ===== src/Agent/Frames/Stream.antt =====
-- agent/src/quic/server.rs: `send_raw` and the buffer of `handle_session` over a stream that is cut
-- into chunks.
use oxmux.Prelude.{
  take_all, drop_all, ℕ, zero, suc, ◌/◌, ◌%◌, ◌^◌, ◌<◌, ◌≤◌, ◌≡◌, refl, sym, ap, ◌∙◌, false, List,
  [], ◌∷◌, ◌++◌, arith, ltb, length, take, drop, length-append, length-drop, append_assoc,
  append-nil, Bool-cases, inl, inr,
}
use oxmux.Agent.Frames.{
  from_be_bytes, send_raw, Drained, with_message, drain, drain_buffer, read_chunks,
}

-- fuel does not matter from the length of the buffer on
drain-fuel : (f g : ℕ) (buf : List ℕ) → length buf ≤ f → length buf ≤ g → drain f buf ≡ drain g buf
unfolding drain
drain-fuel zero zero buf hf hg = refl
drain-fuel zero (suc g) [] hf hg = refl
drain-fuel zero (suc g) (a ∷ s) hf hg = absurd (omega arith)
drain-fuel (suc f) zero [] hf hg = refl
drain-fuel (suc f) zero (a ∷ s) hf hg = absurd (omega arith)
drain-fuel (suc f) (suc g) [] hf hg = refl
drain-fuel (suc f) (suc g) (a ∷ []) hf hg = refl
drain-fuel (suc f) (suc g) (a ∷ b ∷ []) hf hg = refl
drain-fuel (suc f) (suc g) (a ∷ b ∷ c ∷ []) hf hg = refl
drain-fuel (suc f) (suc g) (a ∷ b ∷ c ∷ d ∷ s) hf hg =
    let len = from_be_bytes a b c d in
    let shorter : length (drop len s) ≤ length s = omega (arith, length-drop len s) in
    rw (drain-fuel f g (drop len s) (omega arith) (omega arith))

drop-append : (n : ℕ) (s t : List ℕ) → n ≤ length s → drop n (s ++ t) ≡ drop n s ++ t
drop-append zero s t h = refl
drop-append (suc n) [] t h = absurd (omega arith)
drop-append (suc n) (x ∷ s) t h = drop-append n s t (omega arith)

take-append : (n : ℕ) (s t : List ℕ) → n ≤ length s → take n (s ++ t) ≡ take n s
take-append zero s t h = refl
take-append (suc n) [] t h = absurd (omega arith)
take-append (suc n) (x ∷ s) t h = ap (λ r. x ∷ r) (take-append n s t (omega arith))

abbrev after : Drained → Drained → Drained
after (ms, rest) (later, left) = (ms ++ later, left)

drain-step :
    (a b c d : ℕ) (s : List ℕ)
    → ltb (length s) (from_be_bytes a b c d) ≡ false
    → drain_buffer (a ∷ b ∷ c ∷ d ∷ s)
      ≡ with_message
          (take (from_be_bytes a b c d) s)
          (drain_buffer (drop (from_be_bytes a b c d) s))
unfolding drain_buffer drain
drain-step a b c d s h =
    let len = from_be_bytes a b c d in
    let rest = drop len s in
    let shorter : length rest ≤ length s = omega (arith, length-drop len s) in
    rw h (
      ap (with_message (take len s))
        (drain-fuel (suc (suc (suc (length s)))) (length rest) rest (omega arith) (omega arith)))

-- Draining a longer buffer is draining the shorter one and then what is left with the rest.
drain-append :
    (f : ℕ) (buf more : List ℕ)
    → length buf ≤ f
    → drain_buffer (buf ++ more) ≡ after (drain f buf) (drain_buffer ((drain f buf).1 ++ more))
unfolding drain
drain-append zero [] more h = refl
drain-append zero (a ∷ buf) more h = absurd (omega arith)
drain-append (suc f) [] more h = refl
drain-append (suc f) (a ∷ []) more h = refl
drain-append (suc f) (a ∷ b ∷ []) more h = refl
drain-append (suc f) (a ∷ b ∷ c ∷ []) more h = refl
drain-append (suc f) (a ∷ b ∷ c ∷ d ∷ s) more h =
    elim (Bool-cases (ltb (length s) (from_be_bytes a b c d))) [
      | inl short ↦ rw (short, drain)
      | inr enough ↦
          let len = from_be_bytes a b c d in
          let fits : len ≤ length s = ground arith in
          let shorter : length (drop len s) ≤ length s = omega (arith, length-drop len s) in
          let more_enough : ltb (length (s ++ more)) len ≡ false =
            rw (length-append s more) (ground arith) in
          drain-step a b c d (s ++ more) more_enough
          ∙ (rw (take-append len s more fits, drop-append len s more fits)
              (rw (drain-append f (drop len s) more (omega arith)) (rw (enough, drain))))
    ]

drain_buffer-append :
    (buf more : List ℕ)
    → drain_buffer (buf ++ more)
      ≡ after (drain_buffer buf) (drain_buffer ((drain_buffer buf).1 ++ more))
unfolding drain_buffer
drain_buffer-append buf more = drain-append (length buf) buf more (omega arith)

abbrev pub join : List (List ℕ) → List ℕ
join [] = []
join (chunk ∷ chunks) = chunk ++ join chunks

-- a buffer from which nothing can be taken
abbrev pub IsDrained : List ℕ → Type 0
IsDrained buf = drain_buffer buf ≡ ([], buf)

drain-IsDrained : (f : ℕ) (buf : List ℕ) → length buf ≤ f → IsDrained (drain f buf).1
unfolding drain drain_buffer
drain-IsDrained zero [] h = refl
drain-IsDrained zero (a ∷ buf) h = absurd (omega arith)
drain-IsDrained (suc f) [] h = refl
drain-IsDrained (suc f) (a ∷ []) h = refl
drain-IsDrained (suc f) (a ∷ b ∷ []) h = refl
drain-IsDrained (suc f) (a ∷ b ∷ c ∷ []) h = refl
drain-IsDrained (suc f) (a ∷ b ∷ c ∷ d ∷ s) h =
    elim (Bool-cases (ltb (length s) (from_be_bytes a b c d))) [
      | inl short ↦ rw (short, drain) (rw (short, drain))
      | inr enough ↦
          let len = from_be_bytes a b c d in
          let shorter : length (drop len s) ≤ length s = omega (arith, length-drop len s) in
          rw (enough, drain) (drain-IsDrained f (drop len s) (omega arith))
    ]

drain_buffer-IsDrained : (buf : List ℕ) → IsDrained (drain_buffer buf).1
unfolding drain_buffer
drain_buffer-IsDrained buf = drain-IsDrained (length buf) buf (omega arith)

read-join :
    (buf : List ℕ) (chunks : List (List ℕ))
    → IsDrained buf
    → read_chunks buf chunks ≡ drain_buffer (buf ++ join chunks)
unfolding read_chunks
read-join buf [] h = rw append-nil (sym h)
read-join buf (chunk ∷ chunks) h =
    ap (after (drain_buffer (buf ++ chunk)))
      (read-join (drain_buffer (buf ++ chunk)).1 chunks (drain_buffer-IsDrained (buf ++ chunk)))
    ∙ (sym (drain_buffer-append (buf ++ chunk) (join chunks))
        ∙ ap drain_buffer (append_assoc buf chunk (join chunks)))

-- the stream that a sender writes
abbrev pub send_all : List (List ℕ) → List ℕ
send_all [] = []
send_all (m ∷ ms) = send_raw m ++ send_all ms

abbrev pub AreSendable : List (List ℕ) → Type 0
AreSendable [] = Unit
AreSendable (m ∷ ms) = (length m < 2 ^ 32) × AreSendable ms

length_bytes :
    (n : ℕ)
    → n < 2 ^ 32
    → from_be_bytes (n / 16777216 % 256) (n / 65536 % 256) (n / 256 % 256) (n % 256) ≡ n
unfolding from_be_bytes
length_bytes n h = omega arith

drain-frame :
    (a b c d : ℕ) (m s : List ℕ)
    → from_be_bytes a b c d ≡ length m
    → drain_buffer (a ∷ b ∷ c ∷ d ∷ (m ++ s)) ≡ with_message m (drain_buffer s)
drain-frame a b c d m s len =
    let fits : ltb (length (m ++ s)) (from_be_bytes a b c d) ≡ false =
      rw (len, length-append m s) (ground arith) in
    drain-step a b c d (m ++ s) fits ∙ rw len (rw (take_all m s, drop_all m s))

drain-send_raw :
    (m s : List ℕ)
    → length m < 2 ^ 32
    → drain_buffer (send_raw m ++ s) ≡ with_message m (drain_buffer s)
unfolding send_raw
drain-send_raw m s h =
    let n = length m % 2 ^ 32 in
    let same : n ≡ length m = omega arith in
    let len : from_be_bytes (n / 16777216 % 256) (n / 65536 % 256) (n / 256 % 256) (n % 256)
        ≡ length m =
      length_bytes n (omega arith) ∙ same in
    drain-frame _ _ _ _ m s len

drain-send_all :
    (ms : List (List ℕ)) (tail : List ℕ)
    → AreSendable ms
    → IsDrained tail
    → drain_buffer (send_all ms ++ tail) ≡ (ms, tail)
drain-send_all [] tail hm ht = ht
drain-send_all (m ∷ ms) tail hm ht = rw (append_assoc (send_raw m) (send_all ms) tail) (
    drain-send_raw m (send_all ms ++ tail) hm.0
    ∙ ap (with_message m) (drain-send_all ms tail hm.1 ht))

-- A stream that holds messages, each shorter than 2^32 bytes and each as `send_raw` writes it, and
-- then the beginning of a message or nothing: however it is cut into chunks, the reader takes exactly
-- these messages off, in order, and keeps what follows them in its buffer.
pub read_chunks-send_all :
    (ms : List (List ℕ)) (tail : List ℕ) (chunks : List (List ℕ))
    → AreSendable ms
    → IsDrained tail
    → join chunks ≡ send_all ms ++ tail
    → read_chunks [] chunks ≡ (ms, tail)
read_chunks-send_all ms tail chunks hm ht e =
    read-join [] chunks (unfold drain_buffer drain in refl)
    ∙ (ap drain_buffer e ∙ drain-send_all ms tail hm ht)

-- The fuel that the model hands out is enough: any more of it gives the same messages.
pub drain-enough : (f : ℕ) (buf : List ℕ) → length buf ≤ f → drain f buf ≡ drain_buffer buf
unfolding drain_buffer
drain-enough f buf h = drain-fuel f (length buf) buf h (omega arith)
