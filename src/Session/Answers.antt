-- ===== src/Session/Answers.antt =====
-- daemon/session.hpp: what the requests are answered.
use partake.Prelude.{ℕ, ◌^◌, ◌<◌, ◌≡◌, refl, Bool, true, false, none, some, leb, arith, ap}
use partake.Allocator.{allocate_bytes}
use partake.KeySequence.{generate}
use partake.Protocol.{Policy}
use partake.Closing.{add_request_pending_on_share}
use partake.Closing.Invariant.{IsValid}
use partake.Object.{Object, Cell, waits_share, is_empty, is_set, is_open_uniquely}
use partake.Session.{World, allocated, unshared_now}
use partake.Session.Requests.{
  alloc, take_resource, open_with, with_handle, can_open_immediately, unshare_object,
}

-- A request for an object of a size of 64 bits for which the allocator has no room is answered with
-- success: the response carries a new key and a failed allocation.
pub alloc-out_of_room :
    (shift s size : ℕ) (policy : Policy) (w : World)
    → size < 2 ^ 64
    → allocate_bytes shift size w.arena ≡ none
    → (alloc shift s size policy w).0 ≡ allocated (generate w.env.prev_key) none
unfolding alloc take_resource
alloc-out_of_room shift s size policy w small full =
    let fits : leb (2 ^ 64) size ≡ false = ground arith in
    rw fits (ap (allocated (generate w.env.prev_key)) (rw (take_resource, full) refl))

-- An Unshare request is answered with a new key at once only if the object is shared, no request
-- waits for it yet, and the handle is its single user, open once and with no voucher for the
-- object; the key is the next of the sequence.
unshare_object-unshared :
    (o : Object) (i : ℕ) (wait : Bool) (seqno k : ℕ) (w : World)
    → (unshare_object o i wait seqno w).0 ≡ unshared_now k
    → (o.shared ≡ true)
      × (is_set o.awaiting_unique ≡ false)
      × (is_open_uniquely i o ≡ true)
      × (k ≡ generate w.env.prev_key)
unfolding unshare_object
unshare_object-unshared o i wait seqno k w e = ground (arith, e)

-- An Open request that has to wait, through a handle of a valid object that waits already, fails an
-- assertion: the handle is on the object's list of waiting handles, and is put on it again.
pub open_with-twice :
    (s i seqno : ℕ) (c : Cell)
    → IsValid c
    → can_open_immediately c.obj ≡ false
    → is_empty (waits_share i c.obj.handles) ≡ false
    → (open_with s (some i) seqno c).env.fault ≡ true
unfolding open_with with_handle add_request_pending_on_share
open_with-twice s i seqno c v e h = rw e (ground (arith, v.waiting i))
