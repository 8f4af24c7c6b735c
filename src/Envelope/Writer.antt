-- ===== src/Envelope/Writer.antt =====
-- EnvelopeWriter: each call writes what the socket takes, and the next one goes on from there. How
-- many bytes a write takes is an argument: `none` where the stream gives no count, for all of them.
pub mod Remaining
pub mod Calls
use rmake.Base.{
  ℕ, ◌+◌, ◌-◌, min, Bool, true, false, Option, none, some, List, [], ◌++◌, length, take, drop,
  is_empty, ltb, ◌==◌, if◌then◌else◌,
}

abbrev pub Bytes : Type 0
Bytes = List ℕ

-- The payload stream, if there is one, and its size belong to the envelope. The lead and the header
-- are those that are frozen when the first call is made.
pub record Writer : Type 0 where
  pub content : Option Bytes
  pub payload_size : ℕ
  pub lead_written : Bool
  pub header_written : Bool
  pub lead : Bytes
  pub header : Bytes
  pub buf : Option Bytes
  pub bytes_read : ℕ
  pub bytes_written : ℕ

-- `freeze_lead` makes the lead from the sizes of the header and the payload.
unfoldable pub get_writer : (ℕ → ℕ → Bytes) → Bytes → Option Bytes → ℕ → Writer
get_writer freeze_lead header content size = record {
  content = content;
  payload_size = size;
  lead_written = false;
  header_written = false;
  lead = freeze_lead (length header) size;
  header = header;
  buf = none;
  bytes_read = 0;
  bytes_written = 0;
}

-- What one write of a buffer takes.
abbrev pub taken : Option ℕ → Bytes → ℕ
taken none buf = length buf
taken (some n) buf = min n (length buf)

-- The bytes that a call has written, the writer after it, and whether all is written.
pub record Written : Type 0 where
  pub out : Bytes
  pub after : Writer
  pub finished : Bool

-- Writing from a buffer that is not empty, or was all that there is.
unfoldable pub write_buf : Option ℕ → Bytes → Writer → Written
write_buf rc b s =
    let n = taken rc b in
    let written = s.bytes_written + n in
    record {
      out = take n b;
      after = record s {
        bytes_written = written;
        buf = if written == s.payload_size then none else some (drop n b);
      };
      finished = written == s.payload_size;
    }

-- A buffer that is used up is filled from the stream; `false` where the stream has no more.
unfoldable pub refill : Option ℕ → Bytes → Writer → Written
refill rc content s =
    let b = take (s.payload_size - s.bytes_read) (drop s.bytes_read content) in
    let s' = record s { bytes_read = s.bytes_read + length b; buf = some b } in
    if is_empty b then record { out = []; after = s'; finished = false } else write_buf rc b s'

unfoldable pub write_from : Option ℕ → Bytes → Bytes → Writer → Written
write_from rc content b s =
    if ltb s.bytes_written s.payload_size
    then (if is_empty b then refill rc content s else write_buf rc b s)
    else record {
      out = [];
      after = record s { buf = if s.bytes_written == s.payload_size then none else some b };
      finished = s.bytes_written == s.payload_size;
    }

-- The part of a call that writes the payload.
unfoldable pub write_payload : Option ℕ → Option Bytes → Option Bytes → Writer → Written
write_payload rc none b s = record { out = []; after = s; finished = true }
write_payload rc (some content) none s =
    write_from rc content [] (record s { bytes_read = 0; bytes_written = 0; buf = some [] })
write_payload rc (some content) (some b) s = write_from rc content b s

abbrev pub prefixed : Bytes → Written → Written
prefixed out w = record w { out = out ++ w.out }

unfoldable pub write_header : Option ℕ → Option ℕ → Writer → Written
write_header rc rc' s =
    let n = taken rc s.header in
    let left = drop n s.header in
    let s' = record s { header = left; header_written = is_empty left } in
    let rest = prefixed (take n s.header) (write_payload rc' s'.content s'.buf s') in
    let out : Written = record { out = take n s.header; after = s'; finished = false } in
    if s.header_written
    then write_payload rc' s.content s.buf s
    else (if is_empty left then rest else out)

-- `__call__` with the counts of its three writes.
unfoldable pub write_call : Option ℕ → Option ℕ → Option ℕ → Writer → Written
write_call rc rc' rc'' s =
    let n = taken rc s.lead in
    let left = drop n s.lead in
    let s' = record s { lead = left; lead_written = is_empty left } in
    let rest = prefixed (take n s.lead) (write_header rc' rc'' s') in
    let out : Written = record { out = take n s.lead; after = s'; finished = false } in
    if s.lead_written then write_header rc' rc'' s else (if is_empty left then rest else out)
