-- ===== src/Envelope/Header/Pieces.antt =====
-- However a header is cut into pieces, it is read as if it had come at once.
use rmake.Base.{
  ℕ, append-nil, append_assoc, ◌+◌, ◌≤◌, ◌<◌, ◌≡◌, refl, sym, ap, ◌∙◌, inl, inr, Bool, true, false,
  Option, none, some, List, [], ◌∷◌, ◌++◌, length, length-append, is_empty, ◌==◌, ◌>>=◌, Bool-cases,
  Option-cases, arith, if◌then◌else◌,
}
use mathlib.Core.Path.{fun_ext}
use rmake.Base.Pred.{All}
use rmake.Envelope.Writer.{Bytes}
use rmake.Envelope.Writer.Remaining.{}
use rmake.Envelope.Header.{
  Headers, Header, read_line, cut_lines, read_lines, left_over, read_piece, end_piece, start_read,
  kept_of, thaw_from_stream,
}

-- The same, byte by byte.
scan : Bytes → Bytes → Headers → Option (Headers × Bytes)
scan kept [] hs = some (hs, kept)
scan kept (c ∷ cs) hs =
    let rest = scan (kept ++ c ∷ []) cs hs in
    let line = read_line kept hs >>= λ hs'. scan [] cs hs' in if c == 10 then line else rest

scan-append :
    (kept a b : Bytes) (hs : Headers)
    → scan kept (a ++ b) hs ≡ (scan kept a hs >>= λ r. scan r.1 b r.0)
unfolding scan
scan-append kept [] b hs = refl
scan-append kept (c ∷ a) b hs = elim (Bool-cases (c == 10)) [
  | inr other ↦ rw other (scan-append (kept ++ c ∷ []) a b hs)
  | inl newline ↦ elim (Option-cases (read_line kept hs)) [
    | inl bad ↦ rw (newline, bad) refl
    | inr (hs', good) ↦ rw (newline, good) (scan-append [] a b hs')
  ]
]

-- What the lines of a piece do.
lines_of : Bytes → List Bytes × Bytes → Headers → Option (Headers × Bytes)
lines_of kept cut hs = read_lines kept cut.0 hs >>= λ hs'. some (hs', left_over kept cut.0 cut.1)

left_over-nil : (ls : List Bytes) (r : Bytes) → left_over [] ls r ≡ r
unfolding left_over
left_over-nil [] r = refl
left_over-nil (l ∷ ls) r = refl

abbrev with_byte : ℕ → List Bytes × Bytes → List Bytes × Bytes
with_byte c cut = elim (cut.0) [ [] ↦ ([], c ∷ cut.1) | l ∷ ls ↦ ((c ∷ l) ∷ ls, cut.1) ]

lines_of-with_byte :
    (kept : Bytes) (c : ℕ) (ls : List Bytes) (r : Bytes) (hs : Headers)
    → lines_of kept (with_byte c (ls, r)) hs ≡ lines_of (kept ++ c ∷ []) (ls, r) hs
unfolding lines_of read_lines left_over
lines_of-with_byte kept c [] r hs = ap (λ b. some (hs, b)) (sym (append_assoc kept (c ∷ []) r))
lines_of-with_byte kept c (l ∷ ls) r hs =
    ap (λ b. (read_line b hs >>= λ hs'. read_lines [] ls hs') >>= λ hs'. some (hs', r))
      (sym (append_assoc kept (c ∷ []) l))

lines_of-newline :
    (kept : Bytes) (ls : List Bytes) (r : Bytes) (hs : Headers)
    → lines_of kept ([] ∷ ls, r) hs ≡ (read_line kept hs >>= λ hs'. lines_of [] (ls, r) hs')
unfolding lines_of read_lines left_over
lines_of-newline kept ls r hs = elim (Option-cases (read_line kept hs)) [
  | inl bad ↦ rw (append-nil kept, bad) refl
  | inr (hs', good) ↦ rw (append-nil kept, good) (rw (left_over-nil ls r) refl)
]

lines_of-scan :
    (kept piece : Bytes) (hs : Headers) → lines_of kept (cut_lines piece) hs ≡ scan kept piece hs
unfolding cut_lines scan
lines_of-scan kept [] hs = unfold lines_of read_lines left_over in ground (arith, append-nil kept)
lines_of-scan kept (c ∷ cs) hs = elim (Bool-cases (c == 10)) [
  | inl newline ↦ rw newline (
      lines_of-newline kept (cut_lines cs).0 (cut_lines cs).1 hs
      ∙ elim (Option-cases (read_line kept hs)) [
        | inl bad ↦ rw bad refl
        | inr (hs', good) ↦ rw good (lines_of-scan [] cs hs')
      ])
  | inr other ↦ rw other (
      lines_of-with_byte kept c (cut_lines cs).0 (cut_lines cs).1 hs
      ∙ lines_of-scan (kept ++ c ∷ []) cs hs)
]

read_piece-scan :
    (kept piece : Bytes) (hs : Headers) → read_piece kept piece hs ≡ scan kept piece hs
unfolding read_piece lines_of
read_piece-scan kept piece hs = lines_of-scan kept piece hs

-- Two pieces are read as one.
read_piece-append :
    (kept a b : Bytes) (hs : Headers)
    → read_piece kept (a ++ b) hs ≡ (read_piece kept a hs >>= λ r. read_piece r.1 b r.0)
read_piece-append kept a b hs =
    read_piece-scan kept (a ++ b) hs
    ∙ (scan-append kept a b hs
        ∙ (ap (λ o. o >>= λ r. scan r.1 b r.0) (sym (read_piece-scan kept a hs))
            ∙ ap (λ f. read_piece kept a hs >>= f)
                (fun_ext (λ r. sym (read_piece-scan r.1 b r.0)))))

-- A piece that does not complete the header.
record Short (piece : Bytes) (h : Header) (r : Bool × Header) : Type 0 where
  going : r.0 ≡ false
  size : (r.1).frozen_size ≡ h.frozen_size
  read : (start_read r.1).bytes_read ≡ (start_read h).bytes_read + length piece

module _ (h : Header) (some_size : (h.frozen_size == 0) ≡ false) where
  start_size : (start_read h).frozen_size ≡ h.frozen_size
  unfolding start_read
  start_size = ground arith

  thaw_stops :
      (p : Bytes) (r : Bool × Header)
      → (start_read h).bytes_read + length p < h.frozen_size
      → thaw_from_stream p h ≡ some r
      → Short p h r
  unfolding thaw_from_stream end_piece start_read
  thaw_stops p r lt e = ground (arith, e, some_size)

  thaw-append :
      (p q : Bytes)
      → (start_read h).bytes_read + length p < h.frozen_size
      → thaw_from_stream (p ++ q) h ≡ (thaw_from_stream p h >>= λ r. thaw_from_stream q r.1)
  unfolding thaw_from_stream end_piece start_read kept_of
  thaw-append p q lt =
      let h' = start_read h in
      let kept = kept_of h'.buf in
      elim (Option-cases (read_piece kept p h'.headers)) [
        | inl bad ↦ ground (arith, some_size, bad, read_piece-append kept p q h'.headers)
        | inr (x, good) ↦
            ground
              (arith, some_size, good, read_piece-append kept p q h'.headers, length-append p q)
      ]

-- The pieces come one after the other, until the header is complete.
abbrev pub feed : List Bytes → Header → Option (Bool × Header)
feed [] h = some (false, h)
feed (p ∷ ps) h =
    thaw_from_stream p h >>= λ r. elim (r.0) [ true ↦ some (true, r.1) | false ↦ feed ps r.1 ]

abbrev pub join : List Bytes → Bytes
join [] = []
join (p ∷ ps) = p ++ join ps

abbrev pub NoneEmpty : List Bytes → Type 0
NoneEmpty ps = All (λ p. is_empty p ≡ false) ps

length_pos : (p : Bytes) → is_empty p ≡ false → 1 ≤ length p
length_pos [] h = cc
length_pos (x ∷ p) h = omega arith

-- The last piece: whatever it gives is passed on.
feed_last : (p : Bytes) (h : Header) → feed (p ∷ []) h ≡ thaw_from_stream p h
feed_last p h = elim (Option-cases (thaw_from_stream p h)) [
  | inl bad ↦ rw bad refl
  | inr ((d, u), good) ↦ rw good (passed d u)
]
  where
    passed :
        (d : Bool) (u : Header)
        → elim d as (λ x. Option (Bool × Header)) [
          | true ↦ some (true, u)
          | false ↦ some (false, u)
        ]
          ≡ some (d, u)
    passed true u = refl
    passed false u = refl

feed-join :
    (p : Bytes) (ps : List Bytes) (h : Header)
    → NoneEmpty (p ∷ ps)
    → (start_read h).bytes_read + length (join (p ∷ ps)) ≡ h.frozen_size
    → feed (p ∷ ps) h ≡ thaw_from_stream (join (p ∷ ps)) h
feed-join p [] h ne e = feed_last p h ∙ ap (λ b. thaw_from_stream b h) (sym (append-nil p))
feed-join p (q ∷ qs) h ne e =
    let rest = join (q ∷ qs) in
    let n = length_pos p ne.0 in
    let n' = length_pos q ne.1.0 in
    let l = length-append p rest in
    let l' = length-append q (join qs) in
    let some_size : (h.frozen_size == 0) ≡ false = ground arith in
    let lt : (start_read h).bytes_read + length p < h.frozen_size = omega arith in
    elim (Option-cases (thaw_from_stream p h)) [
      | inl bad ↦ rw bad (sym (rw (thaw-append h some_size p rest lt, bad) refl))
      | inr ((d, u), good) ↦
          let s = thaw_stops h some_size p (d, u) lt good in
          let ih = feed-join q qs u ne.1 (omega (arith, s.size, s.read)) in
          rw (good, s.going) (ih ∙ sym (thaw-append h some_size p rest lt ∙ rw good refl))
    ]

-- A header of some size is read from a stream that gives it in any number of pieces, none of them
-- empty. What comes of it is what comes of reading it at once: the same headers, all of it read, or
-- the same refusal, where a line is no header or the last line is not complete.
pub feed-eq :
    (p : Bytes) (ps : List Bytes) (h : Header)
    → h.buf ≡ none
    → NoneEmpty (p ∷ ps)
    → length (join (p ∷ ps)) ≡ h.frozen_size
    → feed (p ∷ ps) h ≡ thaw_from_stream (join (p ∷ ps)) h
feed-eq p ps h b ne e =
    let zero_read : (start_read h).bytes_read ≡ 0 = unfold start_read in ground (arith, b) in
    feed-join p ps h ne (omega (arith, zero_read))
