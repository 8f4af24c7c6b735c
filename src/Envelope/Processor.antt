-- ===== src/Envelope/Processor.antt =====
-- rmake/messagebus/messageprocessor.py: the envelopes that a connection has to send. Each is sent
-- by a writer of its own, which is kept where the socket has not taken all.
pub mod Order
use rmake.Base.{
  ℕ, Bool, true, false, not, ◌||◌, Option, none, some, List, [], ◌∷◌, ◌++◌, is_some, is_empty,
}
use rmake.Envelope.Writer.{Bytes, Writer, Written, get_writer, write_call}

-- The header is frozen, the payload has its size.
pub record Envelope : Type 0 where
  pub header : Bytes
  pub content : Option Bytes
  pub payload_size : ℕ

pub record Processor : Type 0 where
  pub message_queue : List Envelope
  pub partial_write : Option Writer

-- `MessageProcessor.__init__`, without the envelope that is being read
abbrev pub new_processor : Processor
new_processor = record { message_queue = []; partial_write = none }

-- `sendMessage`, with the envelope of the message
unfoldable pub send_message : Envelope → Processor → Processor
send_message e p = record p { message_queue = p.message_queue ++ e ∷ [] }

unfoldable pub has_data : Processor → Bool
has_data p = not (is_empty p.message_queue) || is_some p.partial_write

-- What the socket takes of the three writes of a call.
pub record Counts : Type 0 where
  pub of_lead : Option ℕ
  pub of_header : Option ℕ
  pub of_payload : Option ℕ

-- The bytes that are sent, and the processor after it.
abbrev pub Sent : Type 0
Sent = Bytes × Processor

module _ (freeze_lead : ℕ → ℕ → Bytes) where
  unfoldable pub writer_of : Envelope → Writer
  writer_of e = get_writer freeze_lead e.header e.content e.payload_size

  -- The end of `sendData`.
  unfoldable pub keep_partial : Written → Processor → Sent
  keep_partial w p =
      (w.out, record p { partial_write = elim (w.finished) [ true ↦ none | false ↦ some w.after ] })

  unfoldable pub send_with : Counts → Writer → Processor → Sent
  send_with c s p = keep_partial (write_call c.of_lead c.of_header c.of_payload s) p

  unfoldable pub send_next : Counts → List Envelope → Processor → Sent
  send_next c [] p = ([], p)
  send_next c (e ∷ es) p = send_with c (writer_of e) (record p { message_queue = es })

  unfoldable pub send_from : Counts → Option Writer → Processor → Sent
  send_from c none p = send_next c p.message_queue p
  send_from c (some s) p = send_with c s p

  -- `sendData`
  unfoldable pub send_data : Counts → Processor → Sent
  send_data c p = send_from c p.partial_write p
