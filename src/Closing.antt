-- ===== src/Closing.antt =====
-- daemon/proper_object.hpp and daemon/handle.hpp: the operations that close, share and wait, and
-- what they resume.
pub mod Invariant
pub mod Resume
pub mod Woken
pub mod Share
pub mod Settle
pub mod Drain
pub mod Unique
pub mod Dropped
pub mod Writer
pub mod Close
pub mod Waiting
use partake.Prelude.{
  ℕ, zero, suc, ◌+◌, ◌-◌, Bool, true, false, ◌&&◌, ◌||◌, not, Option, none, some, List, [], ◌∷◌,
  ◌++◌, ltb, ◌==◌, if◌then◌else◌,
}
use partake.Object.{
  Handle, Object, Cell, Env, assert, is_id, is_set, is_empty, contains, without, opens, waits_share,
  waits_unique, set_opens, set_waits_share, set_waits_unique, on_obj, is_opened_by_unique_handle,
  is_open_uniquely, resume_requests_pending_on_share, resume_all_on_share,
  resume_request_pending_on_unique,
}

abbrev pub forget_awaiting_unique : Object → Object
forget_awaiting_unique o = record o { awaiting_unique = none }

-- Whether a waiting Unshare request can go on, or can only fail because its own handle closed.
abbrev pub wakes : Object → ℕ → Bool
wakes o w = is_opened_by_unique_handle o && is_open_uniquely w o

-- The first half of `proper_object::close`, after the count: the request that waits for unique
-- ownership.
unfoldable pub close_unique : ℕ → Cell → Cell
close_unique i c = elim c.obj.awaiting_unique [
  | none ↦ c
  | some w ↦
      if wakes c.obj w || w == i
      then on_obj forget_awaiting_unique (resume_request_pending_on_unique w c)
      else c
]

-- `while (not handles_awaiting_share.empty())`
unfoldable pub drain : List ℕ → Cell → Cell
drain [] c = c
drain (i ∷ is) c =
    drain is (resume_requests_pending_on_share i (on_obj (λ o. record o { awaiting_share = is }) c))

-- The second half: if the exclusive writer closed, those that wait for it to share fail.
unfoldable pub close_writer : ℕ → Cell → Cell
unfolding drain
close_writer i c =
    if is_id i c.obj.exc_writer
    then drain c.obj.awaiting_share
        (assert (c.obj.n_open_handles == 0) (on_obj (λ o. record o { exc_writer = none }) c))
    else c

-- `proper_object::close`
unfoldable pub object_close : ℕ → Cell → Cell
unfolding close_unique close_writer
object_close i c =
    let c' = assert (ltb 0 c.obj.n_open_handles) c in
    close_writer i
      (close_unique i (on_obj (λ o. record o { n_open_handles = o.n_open_handles - 1 }) c'))

-- `handle::close`
unfoldable pub handle_close : ℕ → Cell → Cell
unfolding object_close
handle_close i c =
    let n = opens i c.obj.handles in
    let c' =
      on_obj (λ o. record o { handles = set_opens i (n - 1) o.handles }) (assert (ltb 0 n) c) in
    if n == 1
    then object_close i c'
    else if is_open_uniquely i c'.obj && is_set c'.obj.awaiting_unique
    then resume_request_pending_on_unique i
        (on_obj forget_awaiting_unique (assert (is_id i c'.obj.awaiting_unique) c'))
    else c'

-- `proper_object::share`
unfoldable pub share : Cell → Cell
share c =
    let c' = assert (not c.obj.shared && is_set c.obj.exc_writer) c in
    let c'' = on_obj (λ o. record o { shared = true; exc_writer = none }) c' in
    on_obj (λ o. record o { awaiting_share = [] }) (resume_all_on_share c''.obj.awaiting_share c'')

-- `proper_object::exclusive_writer`, the setter.
unfoldable pub set_exclusive_writer : ℕ → Cell → Cell
set_exclusive_writer i c =
    on_obj (λ o. record o { exc_writer = some i }) (assert (not (is_set c.obj.exc_writer)) c)

-- `handle::add_request_pending_on_share`. The list is intrusive: a handle that is on it already
-- cannot be pushed, which the container asserts.
unfoldable pub add_request_pending_on_share : ℕ → ℕ → Cell → Cell
add_request_pending_on_share i seqno c =
    let c' = assert (not c.obj.shared && not (contains i c.obj.awaiting_share)) c in
    on_obj
      (λ o. record o {
        awaiting_share = o.awaiting_share ++ i ∷ [];
        handles = set_waits_share i (waits_share i o.handles ++ seqno ∷ []) o.handles;
      })
      c'

-- `handle::set_request_pending_on_unique_ownership`
unfoldable pub set_request_pending_on_unique : ℕ → ℕ → Cell → Cell
set_request_pending_on_unique i seqno c =
    let free = not (is_set (waits_unique i c.obj.handles)) in
    let c' = assert (free && (c.obj.shared && not (is_set c.obj.awaiting_unique))) c in
    on_obj
      (λ o. record o {
        awaiting_unique = some i;
        handles = set_waits_unique i (some seqno) o.handles;
      })
      c'

unfoldable pub drop_share : ℕ → Cell → Cell
drop_share i c =
    if is_empty (waits_share i c.obj.handles)
    then c
    else on_obj
        (λ o. record o {
          awaiting_share = without i o.awaiting_share;
          handles = set_waits_share i [] o.handles;
        })
        c

unfoldable pub drop_unique : ℕ → Cell → Cell
drop_unique i c =
    if is_set (waits_unique i c.obj.handles)
    then on_obj
        (λ o. record o { awaiting_unique = none; handles = set_waits_unique i none o.handles })
        (assert (is_id i c.obj.awaiting_unique) c)
    else c

-- `handle::drop_pending_requests`
unfoldable pub drop_pending_requests : ℕ → Cell → Cell
unfolding drop_share drop_unique
drop_pending_requests i c = drop_unique i (drop_share i c)

-- `while (open_count > 0) close();`, which takes as many rounds as the handle is open.
unfoldable pub close_repeatedly : ℕ → ℕ → Cell → Cell
unfolding handle_close
close_repeatedly zero i c = c
close_repeatedly (suc fuel) i c = elim (ltb 0 (opens i c.obj.handles)) [
  | true ↦ close_repeatedly fuel i (handle_close i c)
  | false ↦ c
]

-- `handle::close_all`
unfoldable pub close_all : ℕ → Cell → Cell
unfolding drop_pending_requests close_repeatedly
close_all i c = let c' = drop_pending_requests i c in close_repeatedly (opens i c'.obj.handles) i c'

-- `proper_object::add_voucher` and `proper_object::drop_voucher`
unfoldable pub add_voucher : Cell → Cell
add_voucher c = on_obj (λ o. record o { n_vouchers = o.n_vouchers + 1 }) c

unfoldable pub drop_voucher : Cell → Cell
drop_voucher c =
    let c' =
      on_obj (λ o. record o { n_vouchers = o.n_vouchers - 1 })
        (assert (ltb 0 c.obj.n_vouchers) c) in
    elim c'.obj.awaiting_unique [
      | none ↦ c'
      | some w ↦
          if wakes c'.obj w
          then on_obj forget_awaiting_unique (resume_request_pending_on_unique w c')
          else c'
    ]
