-- ===== src/Envelope/Writer/Remaining.antt =====
-- The part of a call that writes the payload.
use rmake.Base.{
  ℕ, append-nil, zero, suc, ◌+◌, ◌-◌, ◌≤◌, ◌<◌, min, ◌≡◌, refl, sym, ap, subst, ◌∙◌, inl, inr, true,
  false, Option, none, some, [], ◌∷◌, ◌++◌, length, take, drop, take-drop, length-take, length-drop,
  drop-drop, take_all, is_empty, ltb, ◌==◌, Bool-cases, arith, if◌then◌else◌,
}
use rmake.Envelope.Writer.{
  Bytes, Writer, Written, taken, write_buf, refill, write_from, write_payload,
}

-- A write takes something of what is offered.
abbrev pub Moves : Option ℕ → Type 0
Moves none = Unit
Moves (some n) = 1 ≤ n

abbrev pub payload_left : Option Bytes → ℕ → Bytes
payload_left none n = []
payload_left (some c) n = drop n c

-- The payload's stream, buffer, count of bytes written, and size.
abbrev pub IsReady : Option Bytes → Option Bytes → ℕ → ℕ → Type 0
IsReady none buf n size = Unit
IsReady (some c) none n size = (length c ≡ size) × (n ≡ 0)
IsReady (some c) (some b) n size = (length c ≡ size) × (b ≡ drop n c) × (n < size)

abbrev pub IsWriter : Writer → Type 0
IsWriter s = IsReady s.content s.buf s.bytes_written s.payload_size

-- What is left to be written.
abbrev pub left_of : Writer → Bytes
left_of s =
    (if s.lead_written then [] else s.lead)
    ++ ((if s.header_written then [] else s.header) ++ payload_left s.content s.bytes_written)

abbrev pub left_after : Written → Bytes
left_after w = if w.finished then [] else left_of w.after

pub record PayloadStep (rc : Option ℕ) (s : Writer) (w : Written) : Type 0 where
  pub lead : w.after.lead_written ≡ s.lead_written
  pub header : w.after.header_written ≡ s.header_written
  pub whole :
      w.out ++ (if w.finished then [] else payload_left w.after.content w.after.bytes_written)
      ≡ payload_left s.content s.bytes_written
  pub valid : w.finished ≡ false → IsWriter w.after
  pub moves : Moves rc → w.finished ≡ false → 1 ≤ length w.out

pub length-take-taken :
    (rc : Option ℕ) (b : Bytes) → Moves rc → is_empty b ≡ false → 1 ≤ length (take (taken rc b) b)
length-take-taken rc [] m h = cc
length-take-taken none (x ∷ b) m h = ground arith
length-take-taken (some n) (x ∷ b) m h = omega (arith, length-take (min n (length (x ∷ b))) (x ∷ b))

empty-drop : (b : Bytes) (n : ℕ) → n < length b → is_empty (drop n b) ≡ false
empty-drop [] n h = absurd (omega arith)
empty-drop (x ∷ b) zero h = refl
empty-drop (x ∷ b) (suc n) h = empty-drop b n (omega arith)

write_buf-PayloadStep :
    (rc : Option ℕ) (c b : Bytes) (s : Writer)
    → s.content ≡ some c
    → length c ≡ s.payload_size
    → b ≡ drop s.bytes_written c
    → s.bytes_written < s.payload_size
    → PayloadStep rc s (write_buf rc b s)
unfolding write_buf
write_buf-PayloadStep rc c b s e l d lt =
    let n = taken rc b in
    let room : n ≤ length b = ground arith in
    let size : length b ≡ length c - s.bytes_written =
      ap length d ∙ length-drop s.bytes_written c in
    elim (Bool-cases (s.bytes_written + n == s.payload_size)) [
      | inl done ↦ record {
        lead = refl;
        header = refl;
        whole = ground (
          arith,
          e,
          done,
          append-nil (take n b),
          take_all n b (ground (arith, size, done, l)),
          d,
        );
        valid = λ h. absurd (ground (arith, h, done));
        moves = λ m h. absurd (ground (arith, h, done));
      }
      | inr more ↦ record {
        lead = refl;
        header = refl;
        whole = ground (arith, e, more, take-drop n b, d, drop-drop s.bytes_written n c);
        valid = λ h. ground (arith, e, l, more, d, drop-drop s.bytes_written n c, size, room);
        moves =
            λ m h. length-take-taken rc b m (ground (arith, d, empty-drop c s.bytes_written, l));
      }
    ]

first_write-PayloadStep :
    (rc : Option ℕ) (c : Bytes) (s : Writer)
    → s.content ≡ some c
    → length c ≡ s.payload_size
    → s.bytes_read ≡ 0
    → s.bytes_written ≡ 0
    → PayloadStep rc s (write_from rc c [] s)
unfolding write_from refill
first_write-PayloadStep rc [] s e l r n = record {
  lead = ground (arith, e, l, r, n);
  header = ground (arith, e, l, r, n);
  whole = ground (arith, e, l, r, n);
  valid = λ h. absurd (ground (arith, h, l, n));
  moves = λ m h. absurd (ground (arith, h, l, n));
}
first_write-PayloadStep rc (x ∷ c) s e l r n =
    let b = take (s.payload_size - s.bytes_read) (drop s.bytes_read (x ∷ c)) in
    let all : b ≡ x ∷ c = rw r (take_all (s.payload_size - 0) (x ∷ c) (omega arith)) in
    let s' = record s { bytes_read = s.bytes_read + length b; buf = some b } in
    let p =
      write_buf-PayloadStep rc (x ∷ c) b s' e l (all ∙ ap (λ k. drop k (x ∷ c)) (sym n))
        (omega arith) in
    let open_lem : ltb s.bytes_written s.payload_size ≡ true = ground arith in
    let full : is_empty b ≡ false = ap is_empty all in
    let now : write_from rc (x ∷ c) [] s ≡ write_buf rc b s' = rw (open_lem, full) refl in
    subst (λ w. PayloadStep rc s w) (sym now)
      (record {
        lead = p.lead;
        header = p.header;
        whole = p.whole;
        valid = p.valid;
        moves = p.moves;
      })

continue_eq :
    (rc : Option ℕ) (c b : Bytes) (s : Writer)
    → b ≡ drop s.bytes_written c
    → s.bytes_written < s.payload_size
    → length c ≡ s.payload_size
    → write_from rc c b s ≡ write_buf rc b s
unfolding write_from
continue_eq rc c b s d lt l = ground (arith, empty-drop c s.bytes_written, d, lt, l)

pub write_payload-PayloadStep :
    (rc : Option ℕ) (s : Writer)
    → IsWriter s
    → PayloadStep rc s (write_payload rc s.content s.buf s)
unfolding write_payload
write_payload-PayloadStep rc s v = by_stream s.content s.buf refl refl v
  where
    by_stream :
        (content buf : Option Bytes)
        → s.content ≡ content
        → s.buf ≡ buf
        → IsReady content buf s.bytes_written s.payload_size
        → PayloadStep rc s (write_payload rc content buf s)
    by_stream none buf e f v = record {
      lead = refl;
      header = refl;
      whole = ground (arith, e);
      valid = λ h. cc;
      moves = λ m h. cc;
    }
    by_stream (some c) none e f v =
        let p =
          first_write-PayloadStep rc c
            (record s { bytes_read = 0; bytes_written = 0; buf = some [] }) e v.0 refl refl in
        record {
          lead = p.lead;
          header = p.header;
          whole = ground (arith, p.whole, e, v.1);
          valid = p.valid;
          moves = p.moves;
        }
    by_stream (some c) (some b) e f v =
        subst (λ w. PayloadStep rc s w) (sym (continue_eq rc c b s v.1 v.2 v.0))
          (write_buf-PayloadStep rc c b s e v.0 v.1 v.2)
