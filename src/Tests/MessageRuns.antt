-- ===== src/Tests/MessageRuns.antt =====
-- common/message.hpp and common/proquint.cpp on small inputs: two frames of 8 bytes and the start
-- of a third.
use partake.Prelude.{ℕ, ◌+◌, ◌≡◌, Bool, true, false, some, List, [], ◌∷◌, ◌++◌, length, arith, ◌⊎◌}
use partake.Message.{read_message_frame_size, is_incomplete, delimit, on_read}
use partake.Message.Frames.{concat, AllFrames, AreHandled, delimit_lem}
use partake.Message.Reader.{HasRoom, on_read-HasRoom}
use partake.Message.Writer.{
  Writer, async_write_message, on_written, in_flight, is_nil, Reach, started, given, wrote,
  Reach-served,
}
use partake.Proquint.{validate, proquint_from_u64}
use partake.Proquint.RoundTrip.{validate-proquint_from_u64}

abbrev bytes : List ℕ
bytes = 4 ∷ 0 ∷ 0 ∷ 0 ∷ 1 ∷ 2 ∷ 3 ∷ 4 ∷ 3 ∷ 0 ∷ 0 ∷ 0 ∷ 5 ∷ 6 ∷ 7 ∷ 0 ∷ 9 ∷ 0 ∷ 0 ∷ 0 ∷ 8 ∷ []

abbrev never_last : List ℕ → Bool
never_last m = false

delimit_lem_example :
    (concat (delimit 21 never_last bytes).messages ++ (delimit 21 never_last bytes).remaining
      ≡ bytes)
    × AllFrames (delimit 21 never_last bytes).messages
    × AreHandled never_last
        (delimit 21 never_last bytes).messages
        (delimit 21 never_last bytes).is_done
    × (((delimit 21 never_last bytes).is_done ≡ true)
        ⊎ ((is_incomplete
                (delimit 21 never_last bytes).frame_size
                (delimit 21 never_last bytes).remaining
              ≡ true)
            × ((delimit 21 never_last bytes).frame_size
                ≡ read_message_frame_size (delimit 21 never_last bytes).remaining)))
delimit_lem_example = delimit_lem 21 never_last bytes (omega arith)

on_read-HasRoom_example : HasRoom (on_read never_last 1024 false bytes).1
on_read-HasRoom_example = on_read-HasRoom never_last 1024 false bytes (omega arith, omega arith)

abbrev nothing : Writer
nothing = record { write_next = []; being_written = []; completions = [] }

abbrev after_error : Writer
after_error = on_written 16 true (async_write_message 5 (async_write_message 9 nothing))

reach : Reach 2 after_error
reach = wrote 16 true (given 5 (given 9 started))

Reach-served_example :
    (length after_error.completions + in_flight after_error ≡ 2)
    × (is_nil after_error.being_written ≡ true → after_error.write_next ≡ [])
Reach-served_example = Reach-served reach

validate-proquint_from_u64_example :
    validate (proquint_from_u64 0x7f00_0001_3f54_dcc1) ≡ some 0x7f00_0001_3f54_dcc1
validate-proquint_from_u64_example = validate-proquint_from_u64 0x7f00_0001_3f54_dcc1 (omega arith)
