-- ===== src/Envelope/Header.antt =====
-- rmake/messagebus/envelope.py (PHeader): the header of a message is read in whatever pieces come
-- from the socket, and taken apart line by line.
pub mod Pieces
use rmake.Base.{
  ℕ, ◌+◌, Bool, true, false, not, ◌&&◌, ◌||◌, Option, none, some, List, [], ◌∷◌, ◌++◌, length,
  is_empty, leb, ◌==◌, ◌>>=◌, if◌then◌else◌,
}
use rmake.Envelope.Writer.{Bytes}

-- A header that came once, or more often.
pub data Value : Type 0 where
  one : Bytes → Value
  many : List Bytes → Value

abbrev pub Headers : Type 0
Headers = List (Bytes × Value)

abbrev pub same_bytes : Bytes → Bytes → Bool
same_bytes [] [] = true
same_bytes (x ∷ xs) (y ∷ ys) = x == y && same_bytes xs ys
same_bytes _ _ = false

unfoldable pub add_value : Bytes → Value → Value
add_value v (one x) = many (x ∷ v ∷ [])
add_value v (many xs) = many (xs ++ v ∷ [])

-- `append_header`: a line holds no newline.
unfoldable pub append_header : Bytes → Bytes → Headers → Headers
append_header key v [] = (key, one v) ∷ []
append_header key v ((k, x) ∷ hs) =
    if same_bytes k key then (k, add_value v x) ∷ hs else (k, x) ∷ append_header key v hs

unfoldable pub is_space : ℕ → Bool
is_space c = leb 9 c && leb c 13 || c == 32

unfoldable pub skip_spaces : Bytes → Bytes
skip_spaces [] = []
skip_spaces (c ∷ cs) = if is_space c then skip_spaces cs else c ∷ cs

-- The word at the front, and what comes after it.
unfoldable pub split_word : Bytes → Bytes × Bytes
split_word [] = ([], [])
split_word (c ∷ cs) = let r = split_word cs in if is_space c then ([], c ∷ cs) else (c ∷ r.0, r.1)

-- `key[:-1]` if the key ends with a colon; a RuntimeError else, `none`.
unfoldable pub strip_colon : Bytes → Option Bytes
strip_colon [] = none
strip_colon (c ∷ []) = if c == 58 then some [] else none
strip_colon (c ∷ d ∷ ds) = do k ← strip_colon (d ∷ ds); some (c ∷ k)

-- `readLine`: a line of spaces only raises a ValueError.
unfoldable pub read_line : Bytes → Headers → Option Headers
read_line ln hs =
    let item = split_word (skip_spaces ln) in
    do key ← strip_colon item.0; some (append_header key (skip_spaces item.1) hs)

pub record Header : Type 0 where
  pub headers : Headers
  pub frozen_size : ℕ
  -- The pieces of a line that is not complete, joined; `none` between two headers.
  pub buf : Option Bytes
  pub bytes_read : ℕ

-- The complete lines of a piece, and what follows the last newline.
unfoldable pub cut_lines : Bytes → List Bytes × Bytes
cut_lines [] = ([], [])
cut_lines (c ∷ cs) =
    let r = cut_lines cs in
    if c == 10
    then ([] ∷ r.0, r.1)
    else elim (r.0) [ [] ↦ ([], c ∷ r.1) | l ∷ ls ↦ ((c ∷ l) ∷ ls, r.1) ]

-- The loop over the newlines: the first line begins with what was kept.
unfoldable pub read_lines : Bytes → List Bytes → Headers → Option Headers
read_lines kept [] hs = some hs
read_lines kept (l ∷ ls) hs = do hs' ← read_line (kept ++ l) hs; read_lines [] ls hs'

unfoldable pub left_over : Bytes → List Bytes → Bytes → Bytes
left_over kept [] rest = kept ++ rest
left_over kept (l ∷ ls) rest = rest

-- The headers and the line that is not complete, after a piece.
unfoldable pub read_piece : Bytes → Bytes → Headers → Option (Headers × Bytes)
read_piece kept piece hs = do
  let cut = cut_lines piece
  hs' ← read_lines kept cut.0 hs
  some (hs', left_over kept cut.0 cut.1)

-- Whether all is read; then no line may be left over.
unfoldable pub end_piece : ℕ → Headers × Bytes → Header → Option (Bool × Header)
end_piece read r h =
    if read == h.frozen_size
    then (if is_empty r.1
        then some (true, record h { headers = r.0; buf = none; bytes_read = 0 })
        else none)
    else some (false, record h { headers = r.0; buf = some r.1; bytes_read = read })

-- `thawFromStream`, where the stream gives `piece`.
unfoldable pub start_read : Header → Header
start_read h = elim (h.buf) [
  | none ↦ record h { headers = []; buf = some []; bytes_read = 0 }
  | some b ↦ h
]

unfoldable pub kept_of : Option Bytes → Bytes
kept_of none = []
kept_of (some b) = b

unfoldable pub thaw_from_stream : Bytes → Header → Option (Bool × Header)
thaw_from_stream piece h =
    let h' = start_read h in
    let read = (do
      r ← read_piece (kept_of h'.buf) piece h'.headers
      end_piece (h'.bytes_read + length piece) r h') in
    if h.frozen_size == 0 then some (true, h) else read
