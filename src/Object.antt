-- ===== src/Object.antt =====
-- daemon/object.hpp, daemon/proper_object.hpp and daemon/handle.hpp: an object with its handles,
-- and what the handlers of pending requests in daemon/session.hpp do when they are resumed. A
-- handle is known by a number, its address in the program, and is kept with the object that it
-- refers to, which never changes. An assertion that fails is recorded in `fault`.
pub mod Handles
use partake.Prelude.{
  ℕ, zero, suc, ◌+◌, ◌-◌, Bool, true, false, ◌&&◌, ◌||◌, not, Option, none, some, List, [], ◌∷◌,
  ◌++◌, ltb, ◌==◌, if◌then◌else◌,
}
use partake.KeySequence.{generate}
use partake.Protocol.{Status, no_such_object, Policy}

-- A pending request is known by its sequence number, which its handler captured. Those that wait
-- for the object to be shared are Open requests, the other is an Unshare request. `hooked` says
-- that the handle is in the handle table of its session. `shared_self` is left out: the code sets it
-- exactly as long as `open_count` is not 0. `open_count` and the counts of an object are `unsigned` in
-- the code and natural numbers here.
pub record Handle : Type 0 where
  pub id : ℕ
  pub session : ℕ
  pub hooked : Bool
  pub open_count : ℕ
  pub pending_on_share : List ℕ
  pub pending_on_unique : Option ℕ

-- `address` is the object's identity, which stays when its key changes. `resource` is where the
-- blocks start that its allocation holds, if the allocation succeeded.
pub record Object : Type 0 where
  pub address : ℕ
  pub key : ℕ
  pub policy : Policy
  pub resource : Option ℕ
  pub shared : Bool
  pub n_open_handles : ℕ
  pub n_vouchers : ℕ
  pub exc_writer : Option ℕ
  pub awaiting_share : List ℕ
  pub awaiting_unique : Option ℕ
  pub handles : List Handle

-- The response that a handler writes for a request that was deferred: to which session, for which
-- request, and with which key or status.
pub data Reply : Type 0 where
  opened : ℕ → ℕ → ℕ → Reply
  unshared : ℕ → ℕ → ℕ → Reply
  failed : ℕ → ℕ → Status → Reply

-- What the operations of all objects share.
pub record Env : Type 0 where
  pub prev_key : ℕ
  pub sent : List Reply
  pub fault : Bool

pub record Cell : Type 0 where
  pub obj : Object
  pub env : Env

-- `assert(cond)`
abbrev pub assert : Bool → Cell → Cell
assert cond c = record c { env = record c.env { fault = c.env.fault || not cond } }

abbrev send : Reply → Cell → Cell
send r c = record c { env = record c.env { sent = c.env.sent ++ r ∷ [] } }

abbrev pub is_id : ℕ → Option ℕ → Bool
is_id i none = false
is_id i (some j) = i == j

abbrev pub is_set : Option ℕ → Bool
is_set none = false
is_set (some j) = true

abbrev pub is_empty : List ℕ → Bool
is_empty [] = true
is_empty (x ∷ xs) = false

unfoldable pub contains : ℕ → List ℕ → Bool
contains i [] = false
contains i (x ∷ xs) = i == x || contains i xs

unfoldable pub without : ℕ → List ℕ → List ℕ
without i [] = []
without i (x ∷ xs) = if i == x then xs else x ∷ without i xs

-- The fields of the handle with a given number.
unfoldable pub opens : ℕ → List Handle → ℕ
opens i [] = 0
opens i (h ∷ hs) = if i == h.id then h.open_count else opens i hs

unfoldable pub waits_share : ℕ → List Handle → List ℕ
waits_share i [] = []
waits_share i (h ∷ hs) = if i == h.id then h.pending_on_share else waits_share i hs

unfoldable pub waits_unique : ℕ → List Handle → Option ℕ
waits_unique i [] = none
waits_unique i (h ∷ hs) = if i == h.id then h.pending_on_unique else waits_unique i hs

unfoldable pub owner : ℕ → List Handle → ℕ
owner i [] = 0
owner i (h ∷ hs) = if i == h.id then h.session else owner i hs

unfoldable pub present : ℕ → List Handle → Bool
present i [] = false
present i (h ∷ hs) = i == h.id || present i hs

unfoldable pub set_opens : ℕ → ℕ → List Handle → List Handle
set_opens i n [] = []
set_opens i n (h ∷ hs) =
    if i == h.id then record h { open_count = n } ∷ hs else h ∷ set_opens i n hs

unfoldable pub set_waits_share : ℕ → List ℕ → List Handle → List Handle
set_waits_share i l [] = []
set_waits_share i l (h ∷ hs) =
    if i == h.id then record h { pending_on_share = l } ∷ hs else h ∷ set_waits_share i l hs

unfoldable pub set_waits_unique : ℕ → Option ℕ → List Handle → List Handle
set_waits_unique i o [] = []
set_waits_unique i o (h ∷ hs) =
    if i == h.id then record h { pending_on_unique = o } ∷ hs else h ∷ set_waits_unique i o hs

abbrev pub on_obj : (Object → Object) → Cell → Cell
on_obj f c = record c { obj = f c.obj }

-- `handle::open`, with `proper_object::open`.
unfoldable pub handle_open : ℕ → Cell → Cell
handle_open i c = record c {
  obj = record c.obj {
    handles = set_opens i (opens i c.obj.handles + 1) c.obj.handles;
    n_open_handles =
        if opens i c.obj.handles == 0 then c.obj.n_open_handles + 1 else c.obj.n_open_handles;
  };
}

-- `proper_object::is_opened_by_unique_handle` and `handle::is_open_uniquely`.
abbrev pub is_opened_by_unique_handle : Object → Bool
is_opened_by_unique_handle o = o.n_open_handles == 1 && o.n_vouchers == 0

abbrev pub is_open_uniquely : ℕ → Object → Bool
is_open_uniquely i o = opens i o.handles == 1 && is_opened_by_unique_handle o

-- The handler of a pending Open request.
unfoldable pub resume_open : ℕ → ℕ → Cell → Cell
unfolding handle_open
resume_open i seqno c =
    if c.obj.shared
    then send (opened (owner i c.obj.handles) seqno c.obj.key) (handle_open i c)
    else send (failed (owner i c.obj.handles) seqno no_such_object) c

unfoldable pub resume_opens : ℕ → List ℕ → Cell → Cell
resume_opens i [] c = c
resume_opens i (seqno ∷ seqnos) c = resume_opens i seqnos (resume_open i seqno c)

-- `handle::resume_requests_pending_on_share`
unfoldable pub resume_requests_pending_on_share : ℕ → Cell → Cell
unfolding resume_opens
resume_requests_pending_on_share i c =
    on_obj (λ o. record o { handles = set_waits_share i [] o.handles })
      (resume_opens i (waits_share i c.obj.handles) c)

unfoldable pub resume_all_on_share : List ℕ → Cell → Cell
resume_all_on_share [] c = c
resume_all_on_share (i ∷ is) c = resume_all_on_share is (resume_requests_pending_on_share i c)

-- `proper_object::unshare` and `repository::rekey_object`, as `session::do_unshare` calls them.
unfoldable pub do_unshare : ℕ → Cell → Cell
do_unshare i c =
    let c' =
      assert (c.obj.shared && (c.obj.n_open_handles == 1 && not (is_set c.obj.exc_writer))) c in
    record {
      obj = record c'.obj { shared = false; exc_writer = some i; key = generate c'.env.prev_key };
      env = record c'.env { prev_key = generate c'.env.prev_key };
    }

-- The handler of a pending Unshare request.
unfoldable pub resume_unshare : ℕ → ℕ → Cell → Cell
unfolding do_unshare
resume_unshare i seqno c =
    if is_open_uniquely i c.obj
    then (let c' = do_unshare i c in send (unshared (owner i c.obj.handles) seqno c'.obj.key) c')
    else send (failed (owner i c.obj.handles) seqno no_such_object) c

-- `handle::resume_request_pending_on_unique_ownership`
unfoldable pub resume_request_pending_on_unique : ℕ → Cell → Cell
unfolding resume_unshare
resume_request_pending_on_unique i c = elim (waits_unique i c.obj.handles) [
  | none ↦ c
  | some seqno ↦
      on_obj (λ o. record o { handles = set_waits_unique i none o.handles })
        (resume_unshare i seqno c)
]
