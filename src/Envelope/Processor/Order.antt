-- ===== src/Envelope/Processor/Order.antt =====
-- A processor is a queue of bytes: messages go in whole at the end, and the socket takes bytes from
-- the front.
use rmake.Base.{
  ℕ, append-nil, append_assoc, zero, suc, ◌+◌, ◌≤◌, ◌<◌, ◌≡◌, refl, sym, ap, ◌∙◌, inl, inr, Bool,
  true, false, Option, none, some, List, [], ◌∷◌, ◌++◌, length, length-append, Bool-cases, arith,
  if◌then◌else◌,
}
use rmake.Base.Pred.{All}
use rmake.Envelope.Writer.{Bytes, Writer, Written, get_writer, write_call}
use rmake.Envelope.Writer.Remaining.{Moves, IsReady, IsWriter, left_of}
use rmake.Envelope.Writer.Calls.{Step, write_call-Step}
use rmake.Envelope.Processor.{
  Envelope, Processor, send_message, has_data, Counts, Sent, writer_of, keep_partial, send_with,
  send_next, send_from, send_data,
}

-- The payload of an envelope has the size that its lead states.
abbrev pub SizedAs : Option Bytes → ℕ → Type 0
SizedAs none size = Unit
SizedAs (some c) size = length c ≡ size

abbrev pub IsSized : Envelope → Type 0
IsSized e = SizedAs e.content e.payload_size

fresh_stream :
    (content : Option Bytes) (size : ℕ) → SizedAs content size → IsReady content none 0 size
fresh_stream none size h = tt
fresh_stream (some c) size h = (h, refl)

abbrev pub AllMove : Counts → Type 0
AllMove c = Moves c.of_lead × Moves c.of_header × Moves c.of_payload

module _ (freeze_lead : ℕ → ℕ → Bytes) where
  -- An envelope on the wire.
  abbrev pub message : Envelope → Bytes
  message e =
      freeze_lead (length e.header) e.payload_size
      ++ (e.header ++ elim (e.content) [ none ↦ [] | some c ↦ c ])

  abbrev pub messages : List Envelope → Bytes
  messages [] = []
  messages (e ∷ es) = message e ++ messages es

  abbrev pub left_in : Option Writer → Bytes
  left_in none = []
  left_in (some s) = left_of s

  -- What is still to be sent.
  abbrev pub pending : Processor → Bytes
  pending p = left_in p.partial_write ++ messages p.message_queue

  abbrev IsPartial : Option Writer → Type 0
  IsPartial none = Unit
  IsPartial (some s) = IsWriter s

  pub record IsQueue (p : Processor) : Type 0 where
    pub partial : IsPartial p.partial_write
    pub sized : All IsSized p.message_queue

  abbrev count : Option Writer → ℕ
  count none = 0
  count (some s) = 1

  -- The bytes and the messages that are left.
  abbrev pub work : Processor → ℕ
  work p = length (pending p) + (length p.message_queue + count p.partial_write)

  -- Some bytes were sent, and the rest is what is left. Less is left where the socket takes
  -- something of each write.
  pub record Sends (c : Counts) (p : Processor) (r : Sent) : Type 0 where
    pub whole : r.0 ++ pending r.1 ≡ pending p
    pub valid : IsQueue r.1
    pub goes_on : AllMove c → has_data p ≡ true → work r.1 < work p

  by_outcome :
      (c : Counts) (s : Writer) (p : Processor) (w : Written) (fin : Bool)
      → w.finished ≡ fin
      → Step (AllMove c) s w
      → All IsSized p.message_queue
      → Sends c (record p { partial_write = some s }) (keep_partial freeze_lead w p)
  unfolding keep_partial
  by_outcome c s p w true f t a =
      let q = messages p.message_queue in
      let e : w.out ≡ left_of s = ground (arith, t.whole, f, append-nil w.out) in
      record {
        whole = ground (arith, f, ap (λ l. l ++ q) e);
        valid = ground (arith, f, a);
        goes_on = λ m h. ground (arith, f, length-append (left_of s) q);
      }
  by_outcome c s p w false f t a =
      let q = messages p.message_queue in
      let e : w.out ++ left_of w.after ≡ left_of s = ground (arith, t.whole, f) in
      record {
        whole = ground (arith, f, append_assoc w.out (left_of w.after) q, ap (λ l. l ++ q) e);
        valid = ground (arith, f, a, t.valid f);
        goes_on = λ m h. ground (
          arith,
          f,
          length-append (left_of s) q,
          length-append (left_of w.after) q,
          length-append w.out (left_of w.after),
          ap length e,
          t.moves m f,
        );
      }

  writer_of-IsWriter : (e : Envelope) → IsSized e → IsWriter (writer_of freeze_lead e)
  unfolding writer_of get_writer
  writer_of-IsWriter e z = fresh_stream e.content e.payload_size z

  start_eq :
      (e : Envelope) (es : List Envelope)
      → left_of (writer_of freeze_lead e) ++ messages es ≡ messages (e ∷ es)
  unfolding writer_of get_writer
  start_eq e es = ground arith

  messages-snoc :
      (es : List Envelope) (e : Envelope) → messages (es ++ e ∷ []) ≡ messages es ++ message e
  messages-snoc [] e = append-nil (message e)
  messages-snoc (x ∷ es) e =
      ap (λ l. message x ++ l) (messages-snoc es e)
      ∙ sym (append_assoc (message x) (messages es) (message e))

  nothing_left : (p : Processor) → has_data p ≡ false → pending p ≡ []
  unfolding has_data
  nothing_left p h = ground (arith, h)

  idle : (p : Processor) → work p ≤ 0 → ([] ≡ pending p) × (has_data p ≡ false)
  unfolding has_data
  idle p h = ground (arith, h)

  by_parts :
      (c : Counts) (mq : List Envelope) (pw : Option Writer)
      → IsPartial pw
      → All IsSized mq
      → Sends c
          (record { message_queue = mq; partial_write = pw })
          (send_data freeze_lead c (record { message_queue = mq; partial_write = pw }))
  unfolding send_data send_from send_next send_with writer_of get_writer has_data
  by_parts c [] none v a = record {
    whole = refl;
    valid = record { partial = tt; sized = tt };
    goes_on = λ m h. cc;
  }
  by_parts c (e ∷ es) none v a =
      let s = get_writer freeze_lead e.header e.content e.payload_size in
      let p : Processor = record { message_queue = es; partial_write = none } in
      let w = write_call c.of_lead c.of_header c.of_payload s in
      let t =
        write_call-Step c.of_lead c.of_header c.of_payload s (writer_of-IsWriter e a.0) (λ m. m.0)
          (λ m. m.1) (λ m. m.2) in
      let r = by_outcome c s p w w.finished refl t a.1 in
      record {
        whole = r.whole ∙ start_eq e es;
        valid = r.valid;
        goes_on = λ m h. omega (arith, r.goes_on m (ground arith), ap length (start_eq e es));
      }
  by_parts c mq (some s) v a =
      by_outcome c s (record { message_queue = mq; partial_write = some s })
        (write_call c.of_lead c.of_header c.of_payload s) _ refl
        (write_call-Step c.of_lead c.of_header c.of_payload s v (λ m. m.0) (λ m. m.1) (λ m. m.2)) a

  -- A processor whose messages have the sizes that they state sends, by each `sendData`, the next
  -- bytes of the messages in their order, and the bytes that are left are those that were left
  -- before but for the ones sent, whatever part of them the socket takes, none included. Where there is something
  -- to send and the socket takes at least one byte of each write, there is less to do afterwards.
  pub send_data-Sends :
      (c : Counts) (p : Processor) → IsQueue p → Sends c p (send_data freeze_lead c p)
  send_data-Sends c p v = by_parts c p.message_queue p.partial_write v.partial v.sized

  pub pending-send_message :
      (e : Envelope) (p : Processor) → pending (send_message e p) ≡ pending p ++ message e
  unfolding send_message
  pending-send_message e p =
      ap (λ l. left_in p.partial_write ++ l) (messages-snoc p.message_queue e)
      ∙ sym (append_assoc (left_in p.partial_write) (messages p.message_queue) (message e))

  -- The socket is ready again and again, as long as there is something to send.
  abbrev pub drain : ℕ → (ℕ → Counts) → Processor → Sent
  drain zero socket p = ([], p)
  drain (suc f) socket p =
      let r = send_data freeze_lead (socket f) p in
      let rest = drain f socket r.1 in if has_data p then (r.0 ++ rest.0, rest.1) else ([], p)

  -- All messages are sent in the end: where the socket takes at least one byte of each write, and
  -- is ready as many times as there are bytes and messages to send, what is sent is all of them in
  -- their order, byte for byte, and nothing is left to send.
  pub drain_total :
      (fuel : ℕ) (socket : ℕ → Counts) (p : Processor)
      → ((i : ℕ) → AllMove (socket i))
      → IsQueue p
      → work p ≤ fuel
      → ((drain fuel socket p).0 ≡ pending p) × (has_data (drain fuel socket p).1 ≡ false)
  drain_total zero socket p m v h = idle p (omega arith)
  drain_total (suc f) socket p m v h = elim (Bool-cases (has_data p)) [
    | inr no_data ↦ (ground (arith, no_data, nothing_left p no_data), ground (arith, no_data))
    | inl more ↦
        let t = send_data-Sends (socket f) p v in
        let r = send_data freeze_lead (socket f) p in
        let u = drain_total f socket r.1 m t.valid (omega (arith, t.goes_on (m f) more)) in
        (rw more (ap (λ l. r.0 ++ l) u.0 ∙ t.whole), rw more (u.1))
  ]
