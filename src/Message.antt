-- ===== src/Message.antt =====
-- common/message.hpp: the messages on a socket, read and written. A message is a FlatBuffers buffer
-- with its size in front, as 4 bytes in little endian, and is padded to a multiple of 8 bytes.
pub mod Frames
pub mod Reader
pub mod Writer
use partake.Prelude.{
  ℕ, zero, suc, ◌+◌, ◌-◌, ◌*◌, ◌/◌, ◌^◌, ◌≤◌, Bool, true, false, ◌&&◌, ◌||◌, not, Option, none,
  some, List, [], ◌∷◌, ◌++◌, min, max, ltb, leb, ◌==◌, if◌then◌else◌, length, take, drop,
}

abbrev pub max_message_frame_len : ℕ
max_message_frame_len = 32768

abbrev pub initial_readbuf_size : ℕ
initial_readbuf_size = 1024

-- `(s + 7) & ~7`, which clears the low three bits.
unfoldable pub round_size_up_to_alignment : ℕ → ℕ
round_size_up_to_alignment s = (s + 7) / 8 * 8

-- `flatbuffers::GetPrefixedSize`, of at least 4 bytes.
abbrev pub prefixed_size : List ℕ → ℕ
prefixed_size (b0 ∷ b1 ∷ b2 ∷ b3 ∷ bs) = b0 + 2 ^ 8 * b1 + 2 ^ 16 * b2 + 2 ^ 24 * b3
prefixed_size bs = 0

unfoldable pub read_message_frame_size : List ℕ → ℕ
unfolding round_size_up_to_alignment
read_message_frame_size bytes =
    if ltb (length bytes) 4 then 0 else round_size_up_to_alignment (prefixed_size bytes + 4)

-- Where a round of reading stands: the messages that were handled, the bytes that remain, the size
-- of the frame that they start with, and whether a handler said that it was the last.
pub record Delimited : Type 0 where
  pub messages : List (List ℕ)
  pub remaining : List ℕ
  pub frame_size : ℕ
  pub is_done : Bool

abbrev pub is_incomplete : ℕ → List ℕ → Bool
is_incomplete frame_size bytes = frame_size == 0 || ltb (length bytes) frame_size

abbrev with_message : List ℕ → Delimited → Delimited
with_message m d = record d { messages = m ∷ d.messages }

-- The loop that delimits messages, where `handle_msg` tells of each whether it is the last.
unfoldable pub delimit : ℕ → (List ℕ → Bool) → List ℕ → Delimited
unfolding read_message_frame_size
delimit zero handle_msg bytes = record {
  messages = [];
  remaining = bytes;
  frame_size = read_message_frame_size bytes;
  is_done = false;
}
delimit (suc fuel) handle_msg bytes =
    let frame_size = read_message_frame_size bytes in
    let rest = delimit fuel handle_msg (drop frame_size bytes) in
    if is_incomplete frame_size bytes
    then record { messages = []; remaining = bytes; frame_size = frame_size; is_done = false }
    else if handle_msg (take frame_size bytes)
    then record {
      messages = take frame_size bytes ∷ [];
      remaining = drop frame_size bytes;
      frame_size = frame_size;
      is_done = true;
    }
    else with_message (take frame_size bytes) rest

pub data End : Type 0 where
  finished message_too_long eof_in_message : End

-- What follows a read: the end, or the next read, behind the bytes that remain in a buffer of so
-- many bytes.
pub data Next : Type 0 where
  ended : End → Next
  read_on : List ℕ → ℕ → Next

unfoldable pub grown : ℕ → ℕ → ℕ
grown frame_size buffer_size =
    if ltb buffer_size frame_size
    then max frame_size (min max_message_frame_len (3 * buffer_size / 2))
    else buffer_size

-- The handler of a read that did not fail but may have reached the end of the stream, on all bytes
-- that are in the buffer.
unfoldable pub on_read : (List ℕ → Bool) → ℕ → Bool → List ℕ → List (List ℕ) × Next
unfolding delimit grown
on_read handle_msg buffer_size is_eof bytes =
    let d = delimit (length bytes) handle_msg bytes in
    (
      d.messages,
      if d.is_done
          then ended finished
          else if ltb max_message_frame_len d.frame_size
          then ended message_too_long
          else if is_eof
          then (if length d.remaining == 0 then ended finished else ended eof_in_message)
          else read_on d.remaining (grown d.frame_size buffer_size),
    )
