-- ===== src/Session.antt =====
-- daemon/session.hpp, daemon/repository.hpp and daemon/voucher.hpp: the requests of the sessions,
-- on the objects and vouchers of the repository. A voucher refers to its object by the address.
-- What the shared pointers keep alive is what `release` keeps: a handle that is open or waits, a
-- voucher that is in the queue, and an object with a handle or a voucher.
pub mod Release
pub mod Requests
pub mod Departure
pub mod Expired
pub mod Invariant
pub mod Lifetime
pub mod Vouchers
pub mod Answers
pub mod Ledger
pub mod Whole
use mathlib.Core.Option
use partake.Prelude.{
  ℕ, zero, suc, ◌+◌, ◌-◌, ◌*◌, ◌/◌, ◌^◌, Bool, true, false, ◌&&◌, ◌||◌, not, Option, none, some,
  List, [], ◌∷◌, ◌++◌, ltb, leb, ◌==◌, if◌then◌else◌,
}
use partake.Arena.{Arena, allocate, deallocate}
use partake.KeySequence.{generate}
use partake.Protocol.{
  Status, invalid_request, no_such_object, object_busy, object_reserved, Policy, default, primitive,
}
use partake.Object.{
  assert, Handle, Object, Cell, Env, is_set, is_empty, is_id, opens, handle_open, is_open_uniquely,
  do_unshare,
}
use partake.Closing.{
  share, handle_close, set_exclusive_writer, add_request_pending_on_share,
  set_request_pending_on_unique, drop_pending_requests, close_all, add_voucher, drop_voucher,
}

pub record Voucher : Type 0 where
  pub key : ℕ
  pub target : ℕ
  pub count : ℕ
  pub expiry : ℕ
  pub queued : Bool

pub record World : Type 0 where
  pub objects : List Object
  pub vouchers : List Voucher
  pub env : Env
  pub arena : Arena

-- What a request is answered at once; `deferred`: its response comes later.
pub data Answer : Type 0 where
  allocated : ℕ → Option ℕ → Answer
  opened_now : ℕ → Option ℕ → Answer
  closed : Answer
  shared_now : Answer
  unshared_now : ℕ → Answer
  voucher_created : ℕ → Answer
  discarded : ℕ → Answer
  refused : Status → Answer
  deferred : Answer

abbrev pub same_policy : Policy → Policy → Bool
same_policy default default = true
same_policy default primitive = false
same_policy primitive default = false
same_policy primitive primitive = true

-- An operation on the object at an address.
unfoldable pub at_object : ℕ → (Cell → Cell) → List Object → Env → List Object × Env
at_object a f [] env = ([], env)
at_object a f (o ∷ os) env =
    let (rest, env') = at_object a f os env in
    if a == o.address
    then (let c = f (record { obj = o; env = env }) in (c.obj ∷ os, c.env))
    else (o ∷ rest, env')

unfoldable pub update : ℕ → (Cell → Cell) → World → World
unfolding at_object
update a f w = let (os, env) = at_object a f w.objects w.env in record w { objects = os; env = env }

unfoldable pub object_at : ℕ → List Object → Option Object
object_at a [] = none
object_at a (o ∷ os) = if a == o.address then some o else object_at a os

unfoldable pub object_with_key : ℕ → List Object → Option Object
object_with_key k [] = none
object_with_key k (o ∷ os) = if k == o.key then some o else object_with_key k os

unfoldable pub voucher_with_key : ℕ → List Voucher → Option Voucher
voucher_with_key k [] = none
voucher_with_key k (v ∷ vs) = if k == v.key then some v else voucher_with_key k vs

-- The handle of a session in its handle table, if any.
unfoldable pub hooked_handle : ℕ → List Handle → Option ℕ
hooked_handle s [] = none
hooked_handle s (h ∷ hs) = if h.hooked && h.session == s then some h.id else hooked_handle s hs

-- `find_handle`, with the object that the handle refers to.
unfoldable pub find_handle : ℕ → ℕ → List Object → Option (Object × ℕ)
find_handle s k [] = none
find_handle s k (o ∷ os) = elim (if k == o.key then hooked_handle s o.handles else none) [
  | some i ↦ some (o, i)
  | none ↦ find_handle s k os
]

-- `voucher::is_valid`
abbrev pub is_valid : Voucher → ℕ → Bool
is_valid v now = ltb 0 v.count && leb now v.expiry

-- `find_target`: the object with its voucher, if it was found by one.
unfoldable pub find_target : ℕ → ℕ → World → Option (Object × Option ℕ)
find_target k now w = elim (object_with_key k w.objects) [
  | some o ↦ some (o, none)
  | none ↦ elim (voucher_with_key k w.vouchers) [
    | none ↦ none
    | some v ↦
        if is_valid v now
        then Option.map (λ o. (o, some k)) (object_at v.target w.objects)
        else none
  ]
]

-- `voucher::claim`, and the voucher leaves the queue with its last use.
abbrev pub claim : ℕ → Voucher → Voucher
claim now v =
    let v' = record v { count = v.count - 1 } in record v' { queued = v.queued && is_valid v' now }

-- `none`: it returns false.
unfoldable pub claim_once : ℕ → Voucher → Option Voucher
claim_once now v = if is_valid v now then some (claim now v) else none

unfoldable pub claim_in : ℕ → ℕ → List Voucher → Option (List Voucher)
unfolding claim_once
claim_in k now [] = none
claim_in k now (v ∷ vs) =
    let rest = claim_in k now vs in
    if k == v.key
    then Option.map (λ v'. v' ∷ vs) (claim_once now v)
    else Option.map (λ vs'. v ∷ vs') rest

-- `repository::claim_voucher`; `none`: it returns false.
abbrev pub claim_voucher : ℕ → ℕ → World → Option World
claim_voucher k now w = Option.map (λ vs. record w { vouchers = vs }) (claim_in k now w.vouchers)

-- A number that no handle of the object has.
unfoldable pub fresh : List Handle → ℕ
fresh [] = 0
fresh (h ∷ hs) = h.id + 1 + fresh hs

-- `create_handle`. The table takes no second handle with the same key. The deleter of such a handle
-- would erase a node that is in no table: that is recorded as a failed assertion.
unfoldable pub create_handle : ℕ → Cell → Cell
create_handle s c = record (assert (not (is_set (hooked_handle s c.obj.handles))) c) {
  obj = record c.obj {
    handles =
        record {
          id = fresh c.obj.handles;
          session = s;
          hooked = not (is_set (hooked_handle s c.obj.handles));
          open_count = 0;
          pending_on_share = [];
          pending_on_unique = none;
        }
        ∷ c.obj.handles;
  };
}
