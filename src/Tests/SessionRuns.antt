-- ===== src/Tests/SessionRuns.antt =====
-- daemon/session.hpp, daemon/voucher.hpp, daemon/voucher_queue.hpp, daemon/request_handler.hpp and
-- daemon/client.hpp on small inputs.
use partake.Prelude.{
  leb, if◌then◌else◌, ℕ, ◌+◌, ◌-◌, ◌*◌, ◌<◌, ◌≡◌, refl, Bool, true, false, Option, none, some, List,
  [], ◌∷◌, arith, hit, length, ltb, ◌==◌,
}
use partake.KeySequence.{initial, generate}
use partake.SizeClass.{
  free_list_index_for_size, countl_zero, countl_zero_software_nonzero, clz_loop,
}
use partake.Arena.{arena, allocate, allocate_count, scan_lists, scan}
use partake.Allocator.{allocate_bytes, blocks_for}
use partake.Protocol.{default}
use partake.Object.{Object}
use partake.Session.{World, Voucher, allocated}
use partake.Session.Requests.{alloc}
use partake.Session.Answers.{alloc-out_of_room}
use partake.Session.Vouchers.{claim_times, claim_times_lem}
use partake.VoucherQueue.{
  Entry, empty_queue, expiration_extra_delay, enqueue, schedule_expiration, drop_expired,
}
use partake.VoucherQueue.Expiry.{count, count-drop_expired}
use partake.VoucherQueue.Timer.{
  started, enqueued, is_nil, is_running, twice_a_second, timer_postponed, Reach-running,
}
use partake.RequestHandler.{Request, ping, quit, hello, Session, handle_message}
use partake.RequestHandler.Messages.{up_to_last, has_last, run_all, handle_message-up_to_last}
use partake.Client.{
  Client, started as client_started, start, write_response, responded, completed, ended,
  on_end_of_read, on_write_complete, Reach-closed, new_client,
}

abbrev world : World
world = record {
  objects = [];
  vouchers = [];
  env = record { prev_key = initial; sent = []; fault = false };
  arena = arena 10;
}

no_room : allocate_bytes 12 50000 world.arena ≡ none
unfolding arena allocate_bytes blocks_for allocate allocate_count scan_lists scan
    free_list_index_for_size countl_zero countl_zero_software_nonzero clz_loop
no_room = refl

alloc-out_of_room_example : (alloc 12 1 50000 default world).0 ≡ allocated (generate initial) none
alloc-out_of_room_example = alloc-out_of_room 12 1 50000 default world (omega arith) no_room

-- An object that handle 0 of session 1 has open, and writes or has shared.
abbrev object : Bool → Option ℕ → Object
object is_shared writer = record {
  address = 0;
  key = 5;
  policy = default;
  resource = some 0;
  shared = is_shared;
  n_open_handles = 1;
  n_vouchers = 0;
  exc_writer = writer;
  awaiting_share = [];
  awaiting_unique = none;
  handles =
      record {
        id = 0;
        session = 1;
        hooked = true;
        open_count = 1;
        pending_on_share = [];
        pending_on_unique = none;
      }
      ∷ [];
}

abbrev voucher : Voucher
voucher = record { key = 9; target = 0; count = 3; expiry = 100; queued = true }

claim_times_lem_example :
    claim_times 2 50 voucher
    ≡ (if leb 2 3 then some (record voucher { count = 3 - 2; queued = ltb 2 3 }) else none)
claim_times_lem_example = claim_times_lem 2 50 voucher (omega arith) refl (omega arith)

abbrev entries : List Entry
entries =
    record { time = 30; voucher = 1 }
    ∷ record { time = 10; voucher = 2 }
    ∷ record { time = 20; voucher = 3 }
    ∷ []

count-drop_expired_example :
    count (record { time = 30; voucher = 1 }) (drop_expired 3 20 entries) ≡ 1
count-drop_expired_example =
    count-drop_expired 20 3 (record { time = 30; voucher = 1 }) entries (omega arith)

timer_postponed_example :
    ((twice_a_second 10000 7).scheduled ≡ some (10000 + 500 * 7 + expiration_extra_delay))
    × (length (twice_a_second 10000 7).entries ≡ 8)
timer_postponed_example = timer_postponed 10000 7

one_queued : is_nil (enqueue (record { time = 30; voucher = 1 }) empty_queue).entries ≡ false
unfolding enqueue schedule_expiration
one_queued = refl

Reach-running_example :
    is_running (enqueue (record { time = 30; voucher = 1 }) empty_queue).scheduled ≡ true
Reach-running_example =
    Reach-running (enqueued (record { time = 30; voucher = 1 }) started) one_queued

abbrev session : Session
session = record {
  id = 1;
  has_said_hello = false;
  client_name = [];
  client_pid = 0;
  voucher_ttl = 10000;
  world = world;
}

abbrev requests : List (ℕ × Request)
requests = (1, hello (65 ∷ []) 42) ∷ (2, quit) ∷ (3, ping) ∷ []

handle_message-up_to_last_example : handle_message ℕ 77 12 0 requests session ≡ (
  (run_all ℕ 77 12 0 (up_to_last ℕ 77 12 requests) session).0,
  has_last ℕ 77 12 requests,
  (run_all ℕ 77 12 0 (up_to_last ℕ 77 12 requests) session).1,
)
handle_message-up_to_last_example = handle_message-up_to_last ℕ 77 12 0 requests session

abbrev writing : Client
writing = on_end_of_read (write_response (start new_client))

still_writing : 0 < writing.n_writes
unfolding on_end_of_read write_response start
still_writing = omega arith

in_flight : 0 < (start new_client).io_refcount
unfolding start
in_flight = omega arith

still_reading_then : (write_response (start new_client)).is_reading ≡ true
unfolding start write_response
still_reading_then = refl

Reach-closed_example :
    ((on_write_complete writing).io_refcount
      ≡ hit (on_write_complete writing).is_reading + (on_write_complete writing).n_writes)
    × ((on_write_complete writing).n_closed ≡ hit ((on_write_complete writing).io_refcount == 0))
Reach-closed_example =
    Reach-closed
      (completed (ended (responded client_started in_flight) still_reading_then) still_writing)
