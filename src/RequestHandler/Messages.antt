-- ===== src/RequestHandler/Messages.antt =====
-- daemon/request_handler.hpp: which requests of a message are handled.
use partake.Prelude.{
  ℕ, ◌≡◌, refl, Bool, true, false, ◌||◌, List, [], ◌∷◌, ◌++◌, if◌then◌else◌, Bool-cases, inl, inr,
  append-nil,
}
use partake.RequestHandler.{
  Request, ping, hello, quit, get_segment, alloc_request, open_object, close_object, share_key,
  unshare_key, create, discard, unknown, Session, Responses, handle_request, is_last, add_response,
  handle_message,
}

-- A request that ends its message: Quit, or one of no known type.
abbrev pub is_quit_or_unknown : Request → Bool
is_quit_or_unknown r = elim r [ quit ↦ true | unknown ↦ true | _ ↦ false ]

module _ {ℓ} (Segment : Type ℓ) (segment : Segment) (log2_block_size : ℕ) where
  is_last-is_quit_or_unknown :
      (r : Request) → is_last Segment segment log2_block_size r ≡ is_quit_or_unknown r
  unfolding is_last
  is_last-is_quit_or_unknown ping = refl
  is_last-is_quit_or_unknown (hello name pid) = refl
  is_last-is_quit_or_unknown quit = refl
  is_last-is_quit_or_unknown (get_segment id) = refl
  is_last-is_quit_or_unknown (alloc_request size policy) = refl
  is_last-is_quit_or_unknown (open_object key policy wait) = refl
  is_last-is_quit_or_unknown (close_object key) = refl
  is_last-is_quit_or_unknown (share_key key) = refl
  is_last-is_quit_or_unknown (unshare_key key wait) = refl
  is_last-is_quit_or_unknown (create key count) = refl
  is_last-is_quit_or_unknown (discard key) = refl
  is_last-is_quit_or_unknown unknown = refl

  -- The requests up to the first that ends the message.
  abbrev pub up_to_last : List (ℕ × Request) → List (ℕ × Request)
  up_to_last [] = []
  up_to_last ((seqno, r) ∷ rs) =
      if is_quit_or_unknown r then (seqno, r) ∷ [] else (seqno, r) ∷ up_to_last rs

  abbrev pub has_last : List (ℕ × Request) → Bool
  has_last [] = false
  has_last ((seqno, r) ∷ rs) = is_quit_or_unknown r || has_last rs

  -- All requests one after the other.
  abbrev pub run_all :
      ℕ → List (ℕ × Request) → Session → Responses Segment segment log2_block_size × Session
  run_all now [] s = ([], s)
  run_all now ((seqno, r) ∷ rs) s =
      let (response, s') = handle_request Segment segment log2_block_size now seqno r s in
      let (rest, s'') = run_all now rs s' in
      (add_response Segment segment log2_block_size seqno response ++ rest, s'')

  -- A message is handled as its requests up to the first that is Quit or of no known type, one
  -- after the other; the requests after that have no effect and no response; and the message is the
  -- last of the session exactly if there is such a request.
  pub handle_message-up_to_last :
      (now : ℕ) (rs : List (ℕ × Request)) (s : Session)
      → handle_message Segment segment log2_block_size now rs s
        ≡ ((run_all now (up_to_last rs) s).0, has_last rs, (run_all now (up_to_last rs) s).1)
  unfolding handle_message
  handle_message-up_to_last now [] s = refl
  handle_message-up_to_last now ((seqno, r) ∷ rs) s = elim (Bool-cases (is_quit_or_unknown r)) [
    | inl e ↦
        rw
          (
            is_last-is_quit_or_unknown r,
            e,
            append-nil (
                add_response Segment segment log2_block_size seqno
                  (handle_request Segment segment log2_block_size now seqno r s).0),
          )
          refl
    | inr e ↦
        rw
          (
            is_last-is_quit_or_unknown r,
            e,
            handle_message-up_to_last now rs
                (handle_request Segment segment log2_block_size now seqno r s).1,
          )
          refl
  ]
