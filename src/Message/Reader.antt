-- ===== src/Message/Reader.antt =====
-- common/message.hpp: `async_message_reader`, from one read to the next.
use partake.Prelude.{
  ℕ, ◌≤◌, ◌<◌, ◌≡◌, Bool, true, List, ltb, length, arith, Bool-cases, inl, inr, ◌⊎◌,
}
use partake.Message.{
  max_message_frame_len, initial_readbuf_size, read_message_frame_size, is_incomplete, delimit,
  grown, on_read, Next, read_on, ended,
}
use partake.Message.Frames.{delimit_lem}

-- The buffer that a reader has, and its use.
abbrev IsBuffer : ℕ → Type 0
IsBuffer size = (initial_readbuf_size ≤ size) × (size ≤ max_message_frame_len)

-- What happens next leaves a buffer that is not full, and never larger than the largest frame.
abbrev pub HasRoom : Next → Type 0
HasRoom (ended e) = Unit {0}
HasRoom (read_on bytes size) = IsBuffer size × (length bytes < size)

grown-IsBuffer :
    (frame size n : ℕ)
    → IsBuffer size
    → frame ≤ max_message_frame_len
    → n < initial_readbuf_size ⊎ n < frame
    → IsBuffer (grown frame size) × (n < grown frame size)
unfolding grown
grown-IsBuffer frame size n (lo, hi) small h = ground arith

incomplete_short :
    (frame : ℕ) (l : List ℕ)
    → frame ≡ read_message_frame_size l
    → is_incomplete frame l ≡ true
    → length l < initial_readbuf_size ⊎ length l < frame
unfolding read_message_frame_size
incomplete_short frame l e h = ground arith

-- After a read into a buffer within its bounds, the reader ends or reads on into a buffer with room
-- for at least one byte, so that it never waits for a read of no bytes; the buffer stays within the
-- largest frame.
pub on_read-HasRoom :
    (handle_msg : List ℕ → Bool) (size : ℕ) (is_eof : Bool) (bytes : List ℕ)
    → IsBuffer size
    → HasRoom (on_read handle_msg size is_eof bytes).1
unfolding on_read
on_read-HasRoom handle_msg size is_eof bytes b =
    let d = delimit (length bytes) handle_msg bytes in
    let (all, frames, handled, stop) = delimit_lem (length bytes) handle_msg bytes (omega arith) in
    elim stop [
      | inl e ↦ rw e tt
      | inr (e, k) ↦ elim (Bool-cases (ltb max_message_frame_len d.frame_size)) [
        | inl long ↦ ground arith
        | inr fits ↦ ground (
          arith,
          grown-IsBuffer d.frame_size size (length d.remaining) b (ground arith)
              (incomplete_short d.frame_size d.remaining k e),
        )
      ]
    ]
