-- ===== src/RequestHandler.antt =====
-- daemon/request_handler.hpp: the requests of one message, in order, with `hello` and `get_segment`
-- of daemon/session.hpp. The segment's description is a parameter.
pub mod Messages
use partake.Prelude.{
  ℕ, zero, suc, ◌+◌, ◌≡◌, refl, Bool, true, false, ◌||◌, Option, none, some, List, [], ◌∷◌, ◌++◌,
  take, ◌==◌, if◌then◌else◌, arith, Bool-cases, inl, inr, ◌∙◌, ap,
}
use partake.Protocol.{Status, invalid_request, no_such_segment, Policy}
use partake.Session.{World, Answer, refused, deferred}
use partake.Session.Departure.{drop_session_requests}
use partake.Session.Requests.{
  alloc, open_request, close, share_object, unshare, create_voucher, discard_voucher,
}

abbrev max_client_name_length : ℕ
max_client_name_length = 1023

-- A request, without its sequence number. `unknown` has a type that the protocol does not have.
pub data Request : Type 0 where
  ping : Request
  hello : List ℕ → ℕ → Request
  quit : Request
  get_segment : ℕ → Request
  alloc_request : ℕ → Policy → Request
  open_object : ℕ → Policy → Bool → Request
  close_object : ℕ → Request
  share_key : ℕ → Request
  unshare_key : ℕ → Bool → Request
  create : ℕ → ℕ → Request
  discard : ℕ → Request
  unknown : Request

-- The session of a client, and the world that it shares with the others.
pub record Session : Type 0 where
  pub id : ℕ
  pub has_said_hello : Bool
  pub client_name : List ℕ
  pub client_pid : ℕ
  pub voucher_ttl : ℕ
  pub world : World

module _ {ℓ} (Segment : Type ℓ) (segment : Segment) (log2_block_size : ℕ) where
  pub data Response : Type ℓ where
    pong : Response
    greeted : ℕ → Response
    goodbye : Response
    mapped : Segment → Response
    answered : Answer → Response

  abbrev error : Status → Response
  error s = answered (refused s)

  abbrev say_hello : List ℕ → ℕ → Session → Response × Session
  say_hello name pid s = if s.has_said_hello then (error invalid_request, s) else (
    greeted s.id,
    record s {
      client_name = take max_client_name_length name;
      client_pid = pid;
      has_said_hello = true;
    },
  )

  abbrev find_segment : ℕ → Session → Response × Session
  find_segment id s = if id == 0 then (mapped segment, s) else (error no_such_segment, s)

  abbrev on_world : Session → Answer × World → Response × Session
  on_world s (a, w) = (answered a, record s { world = w })

  -- `handle_request`, with the case of `handle_message` for a type that the protocol does not have:
  -- `handle_err` drops the pending requests of the session. It also closes the socket.
  unfoldable pub handle_request : ℕ → ℕ → Request → Session → Response × Session
  unfolding alloc open_request close share_object unshare create_voucher discard_voucher
      drop_session_requests
  handle_request now seqno ping s = (pong, s)
  handle_request now seqno (hello name pid) s = say_hello name pid s
  handle_request now seqno quit s = (goodbye, s)
  handle_request now seqno (get_segment id) s = find_segment id s
  handle_request now seqno (alloc_request size policy) s =
      on_world s (alloc log2_block_size s.id size policy s.world)
  handle_request now seqno (open_object key policy wait) s =
      on_world s (open_request s.id key policy wait now seqno s.world)
  handle_request now seqno (close_object key) s = on_world s (close s.id key s.world)
  handle_request now seqno (share_key key) s = on_world s (share_object s.id key s.world)
  handle_request now seqno (unshare_key key wait) s =
      on_world s (unshare s.id key wait seqno s.world)
  handle_request now seqno (create key count) s =
      on_world s (create_voucher s.id key count now s.voucher_ttl s.world)
  handle_request now seqno (discard key) s = on_world s (discard_voucher key now s.world)
  handle_request now seqno unknown s =
      (error invalid_request, record s { world = drop_session_requests s.id s.world })

  -- Whether the message ends with this request.
  unfoldable pub is_last : Request → Bool
  is_last ping = false
  is_last (hello name pid) = false
  is_last quit = true
  is_last (get_segment id) = false
  is_last (alloc_request size policy) = false
  is_last (open_object key policy wait) = false
  is_last (close_object key) = false
  is_last (share_key key) = false
  is_last (unshare_key key wait) = false
  is_last (create key count) = false
  is_last (discard key) = false
  is_last unknown = true

  abbrev pub Responses : Type ℓ
  Responses = List (ℕ × Response)

  -- What a request adds to the message of responses; a deferred response is written later.
  unfoldable pub add_response : ℕ → Response → Responses
  add_response seqno pong = (seqno, pong) ∷ []
  add_response seqno (greeted id) = (seqno, greeted id) ∷ []
  add_response seqno goodbye = (seqno, goodbye) ∷ []
  add_response seqno (mapped m) = (seqno, mapped m) ∷ []
  add_response seqno (answered deferred) = []
  add_response seqno (answered a) = (seqno, answered a) ∷ []

  -- `handle_message`, of a message that was verified: the responses, whether it was the last
  -- message, and the session.
  unfoldable pub handle_message : ℕ → List (ℕ × Request) → Session → Responses × Bool × Session
  unfolding handle_request is_last add_response
  handle_message now [] s = ([], false, s)
  handle_message now ((seqno, r) ∷ rs) s =
      let (response, s') = handle_request now seqno r s in
      let (rest, done, s'') = handle_message now rs s' in
      if is_last r
      then (add_response seqno response, true, s')
      else (add_response seqno response ++ rest, done, s'')
