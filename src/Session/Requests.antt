-- ===== src/Session/Requests.antt =====
-- daemon/session.hpp: the handlers of the requests. `now` is the time at which the message came,
-- `seqno` the request's number, `s` the session.
use partake.Prelude.{
  ℕ, ◌+◌, ◌^◌, Bool, true, false, ◌&&◌, not, Option, none, some, List, [], ◌∷◌, leb, ◌==◌,
  if◌then◌else◌,
}
use partake.Arena.{Arena}
use partake.Allocator.{allocate_bytes}
use partake.KeySequence.{generate}
use partake.Protocol.{
  out_of_shmem, invalid_request, no_such_object, object_busy, object_reserved, Policy, default,
  primitive,
}
use partake.Object.{Object, Cell, is_set, is_id, opens, handle_open, is_open_uniquely, do_unshare}
use partake.Closing.{
  share, handle_close, set_exclusive_writer, add_request_pending_on_share,
  set_request_pending_on_unique, add_voucher,
}
use partake.Session.{
  World, Answer, allocated, opened_now, closed, shared_now, unshared_now, voucher_created,
  discarded, refused, deferred, same_policy, update, object_at, object_with_key, voucher_with_key,
  find_handle, find_target, claim_voucher, fresh, create_handle,
}
use partake.Session.Release.{release}

-- An address that no object has.
unfoldable pub free_address : List Object → ℕ
free_address [] = 0
free_address (o ∷ os) = o.address + 1 + free_address os

-- `repository::create_object`. It makes an object of any resource, of a failed allocation, too.
abbrev pub new_object : Policy → Option ℕ → World → Object
new_object policy resource w = record {
  address = free_address w.objects;
  key = generate w.env.prev_key;
  policy = policy;
  resource = resource;
  shared = false;
  n_open_handles = 0;
  n_vouchers = 0;
  exc_writer = none;
  awaiting_share = [];
  awaiting_unique = none;
  handles = [];
}

unfoldable pub create_object : Policy → Option ℕ → World → World
create_object policy resource w = record w {
  objects = new_object policy resource w ∷ w.objects;
  env = record w.env { prev_key = generate w.env.prev_key };
}

-- The resource that the allocator gives for a request of `size` bytes.
unfoldable pub take_resource : ℕ → ℕ → Arena → Option ℕ × Arena
take_resource shift size a = elim (allocate_bytes shift size a) [
  | none ↦ (none, a)
  | some (start, a') ↦ (some start, a')
]

-- The handle that `alloc` makes: open, and the exclusive writer under the default policy.
unfoldable pub first_handle : ℕ → Policy → Cell → Cell
unfolding create_handle handle_open set_exclusive_writer fresh
first_handle s policy c =
    let c' = create_handle s c in
    let i = fresh c.obj.handles in
    let c'' = handle_open i c' in
    elim policy [ default ↦ set_exclusive_writer i c'' | primitive ↦ c'' ]

unfoldable pub alloc : ℕ → ℕ → ℕ → Policy → World → Answer × World
unfolding take_resource create_object first_handle release
alloc shift s size policy w =
    if leb (2 ^ 64) size
    then (refused out_of_shmem, w)
    else (let (resource, a) = take_resource shift size w.arena in
        let w' = create_object policy resource (record w { arena = a }) in
        (
          allocated (generate w.env.prev_key) resource,
          release (update (free_address w.objects) (first_handle s policy) w'),
        ))

-- The handle that `open` goes on with: the one found, or a new one.
abbrev handle_for : ℕ → Option ℕ → Object → ℕ
handle_for s none o = fresh o.handles
handle_for s (some i) o = i

unfoldable pub with_handle : ℕ → Option ℕ → Cell → Cell
unfolding create_handle
with_handle s none c = create_handle s c
with_handle s (some i) c = c

abbrev pub can_open_immediately : Object → Bool
can_open_immediately o = elim o.policy [ primitive ↦ true | default ↦ o.shared ]

-- What `open` does once it has a handle.
unfoldable pub open_with : ℕ → Option ℕ → ℕ → Cell → Cell
unfolding with_handle handle_open add_request_pending_on_share
open_with s hnd seqno c =
    let i = handle_for s hnd c.obj in
    let c' = with_handle s hnd c in
    if can_open_immediately c.obj then handle_open i c' else add_request_pending_on_share i seqno c'

abbrev open_answer : Object → Answer
open_answer o = if can_open_immediately o then opened_now o.key o.resource else deferred

unfoldable pub open_claimed : ℕ → Object → Option ℕ → ℕ → World → Answer × World
unfolding open_with
open_claimed s o hnd seqno w = (open_answer o, update o.address (open_with s hnd seqno) w)

-- `open`, from the object found on.
unfoldable pub open_object :
    ℕ → Object → Option ℕ → Option ℕ → Policy → Bool → ℕ → ℕ → World → Answer × World
unfolding open_claimed
open_object s o hnd vchr policy wait now seqno w =
    if not (same_policy o.policy policy)
    then (refused no_such_object, w)
    else if not (can_open_immediately o) && o.n_open_handles == 0
    then (
      refused no_such_object,
      elim vchr [ none ↦ w | some k ↦ elim (claim_voucher k now w) [ none ↦ w | some w' ↦ w' ] ],
    )
    else if not (can_open_immediately o) && not wait
    then (refused object_busy, w)
    else elim vchr [
      | none ↦ open_claimed s o hnd seqno w
      | some k ↦ elim (claim_voucher k now w) [
        | none ↦ (refused no_such_object, w)
        | some w' ↦ open_claimed s o hnd seqno w'
      ]
    ]

abbrev released : Answer × World → Answer × World
released (a, w) = (a, release w)

unfoldable pub open_request : ℕ → ℕ → Policy → Bool → ℕ → ℕ → World → Answer × World
unfolding open_object release
open_request s key policy wait now seqno w = elim (find_handle s key w.objects) [
  | some (o, i) ↦ released (open_object s o (some i) none policy wait now seqno w)
  | none ↦ elim (find_target key now w) [
    | none ↦ (refused no_such_object, w)
    | some (o, vchr) ↦ released (open_object s o none vchr policy wait now seqno w)
  ]
]

unfoldable pub close : ℕ → ℕ → World → Answer × World
unfolding handle_close release
close s key w = elim (find_handle s key w.objects) [
  | none ↦ (refused no_such_object, w)
  | some (o, i) ↦
      if opens i o.handles == 0
      then (refused no_such_object, w)
      else (closed, release (update o.address (handle_close i) w))
]

unfoldable pub share_object : ℕ → ℕ → World → Answer × World
unfolding share release
share_object s key w = elim (find_handle s key w.objects) [
  | none ↦ (refused no_such_object, w)
  | some (o, i) ↦
      if is_id i o.exc_writer
      then (shared_now, release (update o.address share w))
      else (refused no_such_object, w)
]

-- `unshare`, from the object and handle found on.
unfoldable pub unshare_object : Object → ℕ → Bool → ℕ → World → Answer × World
unfolding do_unshare set_request_pending_on_unique release
unshare_object o i wait seqno w =
    if opens i o.handles == 0
    then (refused no_such_object, w)
    else if not o.shared
    then (refused no_such_object, w)
    else if is_set o.awaiting_unique
    then (refused object_reserved, w)
    else if is_open_uniquely i o
    then (unshared_now (generate w.env.prev_key), release (update o.address (do_unshare i) w))
    else if not wait
    then (refused object_busy, w)
    else (deferred, release (update o.address (set_request_pending_on_unique i seqno) w))

unfoldable pub unshare : ℕ → ℕ → Bool → ℕ → World → Answer × World
unfolding unshare_object
unshare s key wait seqno w = elim (find_handle s key w.objects) [
  | none ↦ (refused no_such_object, w)
  | some (o, i) ↦ unshare_object o i wait seqno w
]

-- `repository::create_voucher`, for an object that was found.
unfoldable pub voucher_for : Object → ℕ → ℕ → World → Answer × World
unfolding add_voucher release
voucher_for o count expiry w =
    let w' = update o.address add_voucher w in
    let key = generate w.env.prev_key in
    (
      voucher_created key,
      release (record w' {
        env = record w'.env { prev_key = key };
        vouchers =
            record { key = key; target = o.address; count = count; expiry = expiry; queued = true }
            ∷ w.vouchers;
      }),
    )

unfoldable pub create_voucher : ℕ → ℕ → ℕ → ℕ → ℕ → World → Answer × World
unfolding voucher_for
create_voucher s target count now ttl w =
    if count == 0 then (refused invalid_request, w) else elim (find_handle s target w.objects) [
      | some (o, i) ↦ voucher_for o count (now + ttl) w
      | none ↦ elim (find_target target now w) [
        | none ↦ (refused no_such_object, w)
        | some (o, vchr) ↦ voucher_for o count (now + ttl) w
      ]
    ]

unfoldable pub discard_voucher : ℕ → ℕ → World → Answer × World
unfolding release
discard_voucher key now w = elim (object_with_key key w.objects) [
  | some o ↦ (discarded key, w)
  | none ↦ elim (voucher_with_key key w.vouchers) [
    | none ↦ (refused no_such_object, w)
    | some v ↦ elim (claim_voucher key now w) [
      | none ↦ (refused no_such_object, w)
      | some w' ↦ elim (object_at v.target w.objects) [
        | none ↦ (refused no_such_object, w)
        | some o ↦ (discarded o.key, release w')
      ]
    ]
  ]
]
