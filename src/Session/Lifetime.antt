-- ===== src/Session/Lifetime.antt =====
-- daemon/session.hpp: an object from its allocation on, through any sequence of the requests of the
-- sessions, with the guards that their handlers check first.
use partake.Prelude.{ℕ, ◌^◌, ◌<◌, ◌≡◌, true, false, Option, none, some, List, [], ◌∷◌, arith, ◌⊎◌}
use partake.KeySequence.{generate}
use partake.Protocol.{Policy}
use partake.Object.{Handle, Object, Cell, opens, waits_share, present, is_open_uniquely, do_unshare}
use partake.Object.Handles.{opens-present}
use partake.Closing.{
  share, handle_close, set_request_pending_on_unique, drop_pending_requests, close_all, add_voucher,
  drop_voucher,
}
use partake.Closing.Invariant.{IsValid}
use partake.Closing.Share.{share-Shared}
use partake.Closing.Close.{handle_close-IsValid}
use partake.Closing.Close.Opens.{close_all-closed}
use partake.Closing.Waiting.{set_request-IsValid, drop_pending_requests-IsValid}
use partake.Session.{World, hooked_handle}
use partake.Session.Requests.{new_object, first_handle, open_with, can_open_immediately}
use partake.Session.Invariant.{
  open_with-IsValid, open_with_new-IsValid, first_handle-IsValid, add_voucher-IsValid,
  drop_voucher-IsValid, do_unshare-IsValid,
}

-- What a request of any session does to the object. `opened`: a session opens it through a handle
-- that it has and that does not wait for it to be shared, which no handler checks. `opened_new`: a
-- session that has none in its table makes a new one; by the key of a voucher, no handler checks
-- that either.
pub data Step : Cell → Cell → Type 0 where
  opened :
      {c : Cell} (s i seqno : ℕ)
      → present i c.obj.handles ≡ true
      → waits_share i c.obj.handles ≡ []
      → (can_open_immediately c.obj ≡ true) ⊎ (0 < c.obj.n_open_handles)
      → Step c (open_with s (some i) seqno c)
  opened_new :
      {c : Cell} (s seqno : ℕ)
      → hooked_handle s c.obj.handles ≡ none
      → (can_open_immediately c.obj ≡ true) ⊎ (0 < c.obj.n_open_handles)
      → Step c (open_with s none seqno c)
  closed : {c : Cell} (i : ℕ) → 0 < opens i c.obj.handles → Step c (handle_close i c)
  shared : {c : Cell} (i : ℕ) → c.obj.exc_writer ≡ some i → Step c (share c)
  unshared :
      {c : Cell} (i : ℕ)
      → c.obj.shared ≡ true
      → c.obj.awaiting_unique ≡ none
      → is_open_uniquely i c.obj ≡ true
      → Step c (do_unshare i c)
  reserved :
      {c : Cell} (i seqno : ℕ)
      → 0 < opens i c.obj.handles
      → c.obj.shared ≡ true
      → c.obj.awaiting_unique ≡ none
      → is_open_uniquely i c.obj ≡ false
      → Step c (set_request_pending_on_unique i seqno c)
  voucher_added : {c : Cell} → Step c (add_voucher c)
  voucher_dropped : {c : Cell} → 0 < c.obj.n_vouchers → Step c (drop_voucher c)
  requests_dropped : {c : Cell} (i : ℕ) → Step c (drop_pending_requests i c)
  all_closed : {c : Cell} (i : ℕ) → Step c (close_all i c)

-- The counts of handles, opens and vouchers are `unsigned`: below 2 ^ 32 they do not wrap around.
abbrev pub FitHandles : List Handle → Type 0
FitHandles [] = Unit {0}
FitHandles (h ∷ hs) = (h.open_count < 2 ^ 32) × FitHandles hs

abbrev pub FitCounts : Object → Type 0
FitCounts o = (o.n_open_handles < 2 ^ 32) × (o.n_vouchers < 2 ^ 32) × FitHandles o.handles

pub data Reach : Cell → Type 0 where
  started :
      (s : ℕ) (policy : Policy) (resource : Option ℕ) (w : World)
      → w.env.fault ≡ false
      → Reach (
          first_handle s policy (record {
            obj = new_object policy resource w;
            env = record w.env { prev_key = generate w.env.prev_key };
          }))
  stepped : {c d : Cell} → Reach c → Step c d → FitCounts d.obj → Reach d

Step-IsValid : {c d : Cell} → Step c d → IsValid c → IsValid d
Step-IsValid {c} (opened s i seqno there quiet h) v = open_with-IsValid s seqno c v i there quiet h
Step-IsValid {c} (opened_new s seqno free h) v = open_with_new-IsValid s seqno c v free h
Step-IsValid {c} (closed i h) v = handle_close-IsValid i c v h
Step-IsValid {c} (shared i h) v = (share-Shared c v i h).valid
Step-IsValid {c} (unshared i e free alone) v = do_unshare-IsValid i c v e free alone
Step-IsValid {c} (reserved i seqno h e free more) v =
    set_request-IsValid i seqno c v (opens-present i c.obj.handles h) h e free
      (ground (arith, more))
Step-IsValid {c} (voucher_added) v = add_voucher-IsValid c v
Step-IsValid {c} (voucher_dropped h) v = drop_voucher-IsValid c v h
Step-IsValid {c} (requests_dropped i) v = drop_pending_requests-IsValid i c v
Step-IsValid {c} (all_closed i) v = (close_all-closed i c v).0

-- From its allocation with one of the two policies of the protocol on, an object is valid through
-- any steps of any sessions, under three conditions that the handlers do not check: a session opens
-- it through no handle that waits for it to be shared; a session makes a new handle for it only if
-- it has none; and its counts stay below 2 ^ 32. Valid: no assertion of the object and its handles
-- has failed; its count of open handles is right; its exclusive writer is its only open handle;
-- whoever waits for it to be shared waits for an exclusive writer, and whoever waits for unique
-- ownership has the object open and does not own it alone yet.
pub Reach-IsValid : {c : Cell} → Reach c → IsValid c
Reach-IsValid (started s policy resource w e) =
    first_handle-IsValid s policy resource w (record w.env { prev_key = generate w.env.prev_key }) e
Reach-IsValid (stepped r s fit) = Step-IsValid s (Reach-IsValid r)
