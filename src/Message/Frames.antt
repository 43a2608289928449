-- ===== src/Message/Frames.antt =====
-- common/message.hpp: the loop that delimits messages.
use partake.Prelude.{
  ℕ, zero, suc, ◌+◌, ◌%◌, ◌≤◌, ◌<◌, ◌≡◌, refl, Bool, true, false, List, [], ◌∷◌, ◌++◌, length,
  length-take, length-drop, take-append-drop, take, drop, arith, Bool-cases, inl, inr, ◌⊎◌, ◌∙◌,
  append_assoc, append-nil,
}
use partake.Message.{
  round_size_up_to_alignment, prefixed_size, read_message_frame_size, is_incomplete, delimit,
}

-- The rounded size is the least multiple of 8 that is not below the size.
round_size_up_lem :
    (s : ℕ)
    → (round_size_up_to_alignment s % 8 ≡ 0)
      × (s ≤ round_size_up_to_alignment s)
      × (round_size_up_to_alignment s < s + 8)
unfolding round_size_up_to_alignment
round_size_up_lem s = omega arith

-- The size of a frame is read from its first 4 bytes.
frame-take :
    (n : ℕ) (l : List ℕ)
    → 4 ≤ n
    → 4 ≤ length l
    → read_message_frame_size (take n l) ≡ read_message_frame_size l
unfolding read_message_frame_size
frame-take zero l h k = absurd (omega arith)
frame-take (suc zero) l h k = absurd (omega arith)
frame-take (suc (suc zero)) l h k = absurd (omega arith)
frame-take (suc (suc (suc zero))) l h k = absurd (omega arith)
frame-take (suc (suc (suc (suc n)))) [] h k = absurd (omega arith)
frame-take (suc (suc (suc (suc n)))) (a ∷ []) h k = absurd (omega arith)
frame-take (suc (suc (suc (suc n)))) (a ∷ b ∷ []) h k = absurd (omega arith)
frame-take (suc (suc (suc (suc n)))) (a ∷ b ∷ c ∷ []) h k = absurd (omega arith)
frame-take (suc (suc (suc (suc n)))) (a ∷ b ∷ c ∷ d ∷ l) h k = ground (arith, length-take n l)

frame-enough : (l : List ℕ) → 0 < read_message_frame_size l → 4 ≤ length l
unfolding read_message_frame_size
frame-enough l h = ground arith

frame-big : (l : List ℕ) → 4 ≤ length l → 4 ≤ read_message_frame_size l
unfolding read_message_frame_size
frame-big l h = ground (arith, round_size_up_lem (prefixed_size l + 4))

-- A frame that is complete has at least 8 bytes, and its size is that of the message.
complete-frame :
    (l : List ℕ)
    → is_incomplete (read_message_frame_size l) l ≡ false
    → (0 < read_message_frame_size l)
      × (read_message_frame_size l ≤ length l)
      × (read_message_frame_size (take (read_message_frame_size l) l)
          ≡ length (take (read_message_frame_size l) l))
complete-frame l e =
    let n = read_message_frame_size l in
    let many : 4 ≤ length l = frame-enough l (ground arith) in
    let long : 4 ≤ n = frame-big l many in
    (ground arith, ground arith, frame-take n l long many ∙ ground (arith, length-take n l))

abbrev pub concat : List (List ℕ) → List ℕ
concat [] = []
concat (m ∷ ms) = m ++ concat ms

-- Every message is a whole frame.
abbrev pub AllFrames : List (List ℕ) → Type 0
AllFrames [] = Unit {0}
AllFrames (m ∷ ms) = (read_message_frame_size m ≡ length m) × (0 < length m) × AllFrames ms

-- Whether the handler said of the last message that it is the end is `is_done`, and it did not say
-- so of one before.
abbrev pub AreHandled : (List ℕ → Bool) → List (List ℕ) → Bool → Type 0
AreHandled handle_msg [] is_done = is_done ≡ false
AreHandled handle_msg (m ∷ []) is_done = handle_msg m ≡ is_done
AreHandled handle_msg (m ∷ n ∷ ms) is_done =
    (handle_msg m ≡ false) × AreHandled handle_msg (n ∷ ms) is_done

AreHandled-more :
    (handle_msg : List ℕ → Bool) (m : List ℕ) (ms : List (List ℕ)) (is_done : Bool)
    → handle_msg m ≡ false
    → AreHandled handle_msg ms is_done
    → AreHandled handle_msg (m ∷ ms) is_done
AreHandled-more handle_msg m [] is_done k h = rw (k, h) refl
AreHandled-more handle_msg m (n ∷ ms) is_done k h = (k, h)

-- The loop with at least as many rounds as there are bytes: the messages and what remains are the
-- bytes that were there, and each message is one whole frame. The loop is done exactly if the
-- handler says of the last message that it is the end, and the handler does not say so of one
-- before; and if the loop is not done, what remains is no whole frame.
pub delimit_lem :
    (fuel : ℕ) (handle_msg : List ℕ → Bool) (bytes : List ℕ)
    → length bytes ≤ fuel
    → (concat (delimit fuel handle_msg bytes).messages ++ (delimit fuel handle_msg bytes).remaining
        ≡ bytes)
      × AllFrames (delimit fuel handle_msg bytes).messages
      × AreHandled handle_msg
          (delimit fuel handle_msg bytes).messages
          (delimit fuel handle_msg bytes).is_done
      × (((delimit fuel handle_msg bytes).is_done ≡ true)
          ⊎ ((is_incomplete
                  (delimit fuel handle_msg bytes).frame_size
                  (delimit fuel handle_msg bytes).remaining
                ≡ true)
              × ((delimit fuel handle_msg bytes).frame_size
                  ≡ read_message_frame_size (delimit fuel handle_msg bytes).remaining)))
unfolding delimit
delimit_lem zero handle_msg bytes h = (refl, tt, refl, inr (short bytes h, refl))
  where
    short : (l : List ℕ) → length l ≤ 0 → is_incomplete (read_message_frame_size l) l ≡ true
    short [] k = refl
    short (x ∷ l) k = absurd (omega arith)
delimit_lem (suc fuel) handle_msg bytes h =
    let n = read_message_frame_size bytes in
    elim (Bool-cases (is_incomplete n bytes)) [
      | inl e ↦ rw e (refl, tt, refl, inr (e, refl))
      | inr e ↦
          let (pos, fits, whole) = complete-frame bytes e in
          let (all, frames, handled, stop) =
            delimit_lem fuel handle_msg (drop n bytes) (omega (arith, length-drop n bytes)) in
          elim (Bool-cases (handle_msg (take n bytes))) [
            | inl k ↦
                rw (e, k)
                  (
                    rw (append-nil (take n bytes)) (take-append-drop n bytes),
                    (whole, ground (arith, length-take n bytes), tt),
                    k,
                    inl refl,
                  )
            | inr k ↦
                rw (e, k)
                  (
                    append_assoc (take n bytes)
                          (concat (delimit fuel handle_msg (drop n bytes)).messages)
                          (delimit fuel handle_msg (drop n bytes)).remaining
                        ∙ rw all (take-append-drop n bytes),
                    (whole, ground (arith, length-take n bytes), frames),
                    AreHandled-more handle_msg (take n bytes)
                        (delimit fuel handle_msg (drop n bytes)).messages
                        (delimit fuel handle_msg (drop n bytes)).is_done k handled,
                    stop,
                  )
          ]
    ]
