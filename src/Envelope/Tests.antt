-- ===== src/Envelope/Tests.antt =====
-- A message of three parts in small pieces, and a header that comes in two.
use rmake.Base.{ℕ, ◌≡◌, refl, true, false, none, some, [], ◌∷◌, arith}
use rmake.Envelope.Writer.{
  Bytes, get_writer, write_call, write_header, write_payload, write_from, write_buf, refill,
}
use rmake.Envelope.Processor.{
  Envelope, Processor, Counts, send_data, send_from, send_next, send_with, keep_partial, writer_of,
  has_data,
}
use rmake.Envelope.Processor.Order.{
  AllMove, IsQueue, Sends, send_data-Sends, pending, drain, drain_total,
}
use rmake.Envelope.Header.{
  Header, one, thaw_from_stream, start_read, kept_of, read_piece, cut_lines, read_lines, left_over,
  end_piece, read_line, split_word, skip_spaces, is_space, strip_colon, append_header,
}
use rmake.Envelope.Header.Pieces.{feed, join, feed-eq}

abbrev sizes : ℕ → ℕ → Bytes
sizes header payload = header ∷ payload ∷ []

abbrev letter : Envelope
letter = record { header = 7 ∷ 8 ∷ 9 ∷ []; content = some (1 ∷ 2 ∷ 3 ∷ []); payload_size = 3 }

abbrev card : Envelope
card = record { header = 5 ∷ []; content = none; payload_size = 0 }

abbrev outgoing : Processor
outgoing = record { message_queue = letter ∷ card ∷ []; partial_write = none }

-- Two bytes at a time.
abbrev slow : Counts
slow = record { of_lead = some 2; of_header = some 2; of_payload = some 2 }

outgoing-IsQueue : IsQueue sizes outgoing
outgoing-IsQueue = record { partial = tt; sized = (refl, (tt, tt)) }

slow_moves : AllMove slow
slow_moves = (omega arith, omega arith, omega arith)

drain_test :
    (drain sizes 13 (λ i. slow) outgoing).0 ≡ 3 ∷ 3 ∷ 7 ∷ 8 ∷ 9 ∷ 1 ∷ 2 ∷ 3 ∷ 1 ∷ 0 ∷ 5 ∷ []
unfolding send_data send_from send_next send_with keep_partial writer_of has_data get_writer
    write_call write_header write_payload write_from write_buf refill
drain_test = refl

-- The lead is taken, and nothing of the header.
abbrev stuck : Counts
stuck = record { of_lead = some 2; of_header = some 0; of_payload = some 0 }

send_data_example : Sends sizes stuck outgoing (send_data sizes stuck outgoing)
send_data_example = send_data-Sends sizes stuck outgoing outgoing-IsQueue

drain_example :
    ((drain sizes 13 (λ i. slow) outgoing).0 ≡ pending sizes outgoing)
    × (has_data (drain sizes 13 (λ i. slow) outgoing).1 ≡ false)
drain_example =
    drain_total sizes 13 (λ i. slow) outgoing (λ i. slow_moves) outgoing-IsQueue (omega arith)

-- `a: bc` and a newline
abbrev header : Header
header = record { headers = []; frozen_size = 6; buf = none; bytes_read = 0 }

abbrev front : Bytes
front = 97 ∷ 58 ∷ []

abbrev back : Bytes
back = 32 ∷ 98 ∷ 99 ∷ 10 ∷ []

feed_test :
    feed (front ∷ back ∷ []) header
    ≡ some (
      true,
      record {
        headers = (97 ∷ [], one (98 ∷ 99 ∷ [])) ∷ [];
        frozen_size = 6;
        buf = none;
        bytes_read = 0;
      },
    )
unfolding thaw_from_stream start_read kept_of read_piece cut_lines read_lines left_over end_piece
    read_line split_word skip_spaces is_space strip_colon append_header
feed_test = refl

feed_example : feed (front ∷ back ∷ []) header ≡ thaw_from_stream (join (front ∷ back ∷ [])) header
feed_example = feed-eq front (back ∷ []) header refl (refl, (refl, tt)) refl
