-- ===== src/Envelope/Writer/Calls.antt =====
-- However the socket takes the bytes, what a call writes is the start of what was left.
use rmake.Base.{
  ℕ, append_assoc, ◌≤◌, ◌≡◌, refl, sym, ap, subst, ◌∙◌, inl, inr, Bool, true, false, Option, [],
  ◌∷◌, ◌++◌, length, take, drop, take-drop, length-append, is_empty, Bool-cases, arith,
  if◌then◌else◌,
}
use rmake.Envelope.Writer.{
  Bytes, Writer, Written, taken, prefixed, write_payload, write_header, write_call,
}
use rmake.Envelope.Writer.Remaining.{
  Moves, payload_left, IsWriter, left_of, left_after, length-take-taken, write_payload-PayloadStep,
}

-- One call: what it writes and what is left make up what was left before. The last field is about a
-- call whose writes satisfy a condition.
pub record Step (M : Type 0) (s : Writer) (w : Written) : Type 0 where
  pub whole : w.out ++ left_after w ≡ left_of s
  pub valid : w.finished ≡ false → IsWriter w.after
  pub moves : M → w.finished ≡ false → 1 ≤ length w.out

-- A step that a test leaves aside, or comes to.
when :
    {M : Type 0} (s : Writer) (b : Bool) (x y : Written)
    → b ≡ true
    → Step M s x
    → Step M s (if b then x else y)
when {M = M} s b x y h a = subst (λ c. Step M s (if c then x else y)) (sym h) a

unless :
    {M : Type 0} (s : Writer) (b : Bool) (x y : Written)
    → b ≡ false
    → Step M s y
    → Step M s (if b then x else y)
unless {M = M} s b x y h a = subst (λ c. Step M s (if c then x else y)) (sym h) a

-- A part is written in full, and then what comes after it.
prefixed-Step :
    {M : Type 0} (s s' : Writer) (out : Bytes) (w : Written)
    → out ++ left_of s' ≡ left_of s
    → Step M s' w
    → Step M s (prefixed out w)
prefixed-Step {M = M} s s' out w e p = record {
  whole = append_assoc out w.out (left_after w) ∙ (ap (λ l. out ++ l) p.whole ∙ e);
  valid = p.valid;
  moves = λ m h. omega (arith, p.moves m h, length-append out w.out);
}

-- A part is written to some point.
partly-Step :
    {M : Type 0} (s s' : Writer) (out : Bytes)
    → out ++ left_of s' ≡ left_of s
    → IsWriter s'
    → (M → 1 ≤ length out)
    → Step M s (record { out = out; after = s'; finished = false })
partly-Step {M = M} s s' out e v n = record { whole = e; valid = λ h. v; moves = λ m h. n m }

Payload-Step :
    {M : Type 0} (rc : Option ℕ) (s : Writer)
    → IsWriter s
    → (M → Moves rc)
    → s.lead_written ≡ true
    → s.header_written ≡ true
    → Step M s (write_payload rc s.content s.buf s)
Payload-Step {M = M} rc s v m a b =
    let p = write_payload-PayloadStep rc s v in
    record {
      whole = ground (arith, p.whole, p.lead, p.header, a, b);
      valid = p.valid;
      moves = λ c. p.moves (m c);
    }

some_taken :
    (rc : Option ℕ) (b : Bytes)
    → Moves rc
    → is_empty (drop (taken rc b) b) ≡ false
    → 1 ≤ length (take (taken rc b) b)
some_taken rc [] m h = absurd (ground (arith, h))
some_taken rc (x ∷ b) m h = length-take-taken rc (x ∷ b) m refl

empty→nil : (b : Bytes) → (if is_empty b then [] else b) ≡ b
empty→nil [] = refl
empty→nil (x ∷ b) = refl

header_part :
    (s : Writer) (n : ℕ)
    → s.lead_written ≡ true
    → s.header_written ≡ false
    → take n s.header
        ++ left_of
            (record s { header = drop n s.header; header_written = is_empty (drop n s.header) })
      ≡ left_of s
header_part s n a b =
    let rest = payload_left s.content s.bytes_written in
    let left = drop n s.header in
    let split : take n s.header ++ ((if is_empty left then [] else left) ++ rest)
        ≡ s.header ++ rest =
      ap (λ l. take n s.header ++ (l ++ rest)) (empty→nil left)
      ∙ (sym (append_assoc (take n s.header) left rest)
          ∙ ap (λ l. l ++ rest) (take-drop n s.header)) in
    ground (arith, split, a, b)

lead_part :
    (s : Writer) (n : ℕ)
    → s.lead_written ≡ false
    → take n s.lead
        ++ left_of (record s { lead = drop n s.lead; lead_written = is_empty (drop n s.lead) })
      ≡ left_of s
lead_part s n a =
    let rest =
      (if s.header_written then [] else s.header) ++ payload_left s.content s.bytes_written in
    let left = drop n s.lead in
    let split : take n s.lead ++ ((if is_empty left then [] else left) ++ rest) ≡ s.lead ++ rest =
      ap (λ l. take n s.lead ++ (l ++ rest)) (empty→nil left)
      ∙ (sym (append_assoc (take n s.lead) left rest) ∙ ap (λ l. l ++ rest) (take-drop n s.lead)) in
    ground (arith, split, a)

write_header-Step :
    {M : Type 0} (rc rc' : Option ℕ) (s : Writer)
    → IsWriter s
    → (M → Moves rc)
    → (M → Moves rc')
    → s.lead_written ≡ true
    → Step M s (write_header rc rc' s)
unfolding write_header
write_header-Step {M = M} rc rc' s v m m' led =
    let n = taken rc s.header in
    let left = drop n s.header in
    let s' = record s { header = left; header_written = is_empty left } in
    elim (Bool-cases s.header_written) [
      | inl past ↦ when s s.header_written _ _ past (Payload-Step rc' s v m' led past)
      | inr ahead ↦ unless s s.header_written _ _ ahead (elim (Bool-cases (is_empty left)) [
        | inl all ↦ when s (is_empty left) _ _ all (
            prefixed-Step s s' (take n s.header) _ (header_part s n led ahead)
              (Payload-Step rc' s' v m' led all))
        | inr more ↦ unless s (is_empty left) _ _ more (
            partly-Step s s' (take n s.header) (header_part s n led ahead) v
              (λ c. some_taken rc s.header (m c) more))
      ])
    ]

pub write_call-Step :
    {M : Type 0} (rc rc' rc'' : Option ℕ) (s : Writer)
    → IsWriter s
    → (M → Moves rc)
    → (M → Moves rc')
    → (M → Moves rc'')
    → Step M s (write_call rc rc' rc'' s)
unfolding write_call
write_call-Step {M = M} rc rc' rc'' s v m m' m'' =
    let n = taken rc s.lead in
    let left = drop n s.lead in
    let s' = record s { lead = left; lead_written = is_empty left } in
    elim (Bool-cases s.lead_written) [
      | inl past ↦ when s s.lead_written _ _ past (write_header-Step rc' rc'' s v m' m'' past)
      | inr ahead ↦ unless s s.lead_written _ _ ahead (elim (Bool-cases (is_empty left)) [
        | inl all ↦ when s (is_empty left) _ _ all (
            prefixed-Step s s' (take n s.lead) _ (lead_part s n ahead)
              (write_header-Step rc' rc'' s' v m' m'' all))
        | inr more ↦ unless s (is_empty left) _ _ more (
            partly-Step s s' (take n s.lead) (lead_part s n ahead) v
              (λ c. some_taken rc s.lead (m c) more))
      ])
    ]
