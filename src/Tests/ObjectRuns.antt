-- ===== src/Tests/ObjectRuns.antt =====
-- daemon/proper_object.hpp, daemon/handle.hpp and daemon/session.hpp: an object that session 1
-- allocates, session 2 waits for, and session 1 shares or closes.
use partake.Prelude.{
  ◌-◌, ◌<◌, ◌≡◌, refl, true, false, none, some, [], arith, inr, ◌==◌, if◌then◌else◌,
}
use partake.KeySequence.{initial, generate}
use partake.Arena.{arena}
use partake.Protocol.{default}
use partake.Object.{
  resume_all_on_share, resume_requests_pending_on_share, resume_opens, resume_open, owner, Cell,
  opens, waits_share, set_opens, set_waits_share, is_empty, handle_open,
}
use partake.Closing.{
  share, handle_close, close_all, set_exclusive_writer, add_request_pending_on_share,
}
use partake.Closing.Invariant.{IsValid}
use partake.Closing.Share.{Shared, share-Shared}
use partake.Closing.Close.Opens.{opens-handle_close, close_all-closed}
use partake.Session.{World, create_handle, fresh, hooked_handle}
use partake.Session.Requests.{
  first_handle, new_object, open_with, with_handle, can_open_immediately,
}
use partake.Session.Lifetime.{FitCounts, Reach, started, stepped, opened_new, shared, Reach-IsValid}
use partake.Session.Answers.{open_with-twice}

abbrev world : World
world = record {
  objects = [];
  vouchers = [];
  env = record { prev_key = initial; sent = []; fault = false };
  arena = arena 10;
}

-- Allocated by session 1.
abbrev c0 : Cell
c0 = first_handle 1 default (record {
  obj = new_object default (some 0) world;
  env = record world.env { prev_key = generate initial };
})

-- Session 2 waits for it, with its request 7.
abbrev c1 : Cell
c1 = open_with 2 none 7 c0

open_now : 0 < c0.obj.n_open_handles
unfolding first_handle create_handle handle_open set_exclusive_writer fresh hooked_handle set_opens
    opens
open_now = omega arith

none_yet : hooked_handle 2 c0.obj.handles ≡ none
unfolding first_handle create_handle handle_open set_exclusive_writer fresh hooked_handle set_opens
    opens
none_yet = refl

fit_1 : FitCounts c1.obj
unfolding first_handle create_handle handle_open set_exclusive_writer fresh hooked_handle set_opens
    opens open_with with_handle add_request_pending_on_share set_waits_share waits_share
fit_1 = (omega arith, omega arith, (omega arith, (omega arith, tt)))

fit_shared : FitCounts (share c1).obj
unfolding first_handle create_handle handle_open set_exclusive_writer fresh hooked_handle set_opens
    opens open_with with_handle add_request_pending_on_share set_waits_share waits_share share
    resume_all_on_share resume_requests_pending_on_share resume_opens resume_open owner
fit_shared = (omega arith, omega arith, (omega arith, (omega arith, tt)))

reach_1 : Reach c1
reach_1 =
    stepped (started 1 default (some 0) world refl) (opened_new 2 7 none_yet (inr open_now)) fit_1

writer : c1.obj.exc_writer ≡ some 0
unfolding first_handle create_handle handle_open set_exclusive_writer fresh hooked_handle set_opens
    opens open_with with_handle add_request_pending_on_share set_waits_share waits_share
writer = refl

is_open : 0 < opens 0 c1.obj.handles
unfolding first_handle create_handle handle_open set_exclusive_writer fresh hooked_handle set_opens
    opens open_with with_handle add_request_pending_on_share set_waits_share waits_share
is_open = omega arith

is_closed : can_open_immediately c1.obj ≡ false
unfolding first_handle create_handle handle_open set_exclusive_writer fresh hooked_handle set_opens
    opens open_with with_handle add_request_pending_on_share set_waits_share waits_share
is_closed = refl

is_waiting : is_empty (waits_share 1 c1.obj.handles) ≡ false
unfolding first_handle create_handle handle_open set_exclusive_writer fresh hooked_handle set_opens
    opens open_with with_handle add_request_pending_on_share set_waits_share waits_share
is_waiting = refl

valid_1 : IsValid c1
valid_1 = Reach-IsValid reach_1

Reach-IsValid_example : IsValid (share c1)
Reach-IsValid_example = Reach-IsValid (stepped reach_1 (shared 0 writer) fit_shared)

share-Shared_example : Shared c1 (share c1)
share-Shared_example = share-Shared c1 valid_1 0 writer

opens-handle_close_example :
    opens 1 (handle_close 0 c1).obj.handles
    ≡ (if 1 == 0 then opens 0 c1.obj.handles - 1 else opens 1 c1.obj.handles)
opens-handle_close_example = opens-handle_close 0 c1 valid_1 is_open 1

close_all-closed_example : IsValid (close_all 0 c1) × (opens 0 (close_all 0 c1).obj.handles ≡ 0)
close_all-closed_example = close_all-closed 0 c1 valid_1

open_with-twice_example : (open_with 2 (some 1) 8 c1).env.fault ≡ true
open_with-twice_example = open_with-twice 2 1 8 c1 valid_1 is_closed is_waiting
