-- ===== src/Session/Ledger/Lifetime.antt =====
-- daemon/session.hpp, daemon/repository.hpp, daemon/voucher_queue.hpp: the daemon's objects,
-- vouchers and memory from its start on, through any requests of any sessions, their ends, and the
-- expiry of vouchers.
use partake.Prelude.{
  ℕ, ◌+◌, ◌^◌, ◌≡◌, ◌<◌, refl, true, false, Bool, Option, none, some, List, [], ◌∷◌, ◌==◌, ◌∙◌, hit,
  leb, arith, ap, sym,
}
use mathlib.Core.Path.{subst}
use partake.Arena.{arena}
use partake.Arena.Lifetime.{Held, Reach, fresh, held_none}
use partake.KeySequence.{initial}
use partake.Protocol.{Policy}
use partake.Object.{Cell}
use partake.Closing.{drop_pending_requests, close_all}
use partake.Session.{Voucher, World, update, hooked_handle}
use partake.Session.Release.{release}
use partake.Session.Departure.{
  each_object, on_hooked, addresses, drop_session_requests, close_session, expire,
  drop_expired_vouchers, drop_all_vouchers,
}
use partake.Session.Requests.{
  alloc, open_request, close, share_object, unshare, create_voucher, discard_voucher,
}
use partake.Session.Ledger.{row, ledger, Rewrites, same, owners, targets, starts}
use partake.Session.Ledger.Kept.{row-drop_pending_requests, row-close_all}
use partake.Session.Ledger.Released.{Balanced, release-Balanced}
use partake.Session.Ledger.Balanced.{kept-Balanced}
use partake.Session.Ledger.Requested.{
  alloc-Balanced, open_request-Balanced, close-Balanced, share_object-Balanced, unshare-Balanced,
  create_voucher-Balanced, discard_voucher-Balanced,
}

-- The objects, vouchers and memory that a daemon starts with.
abbrev pub new_world : ℕ → World
new_world size = record {
  objects = [];
  vouchers = [];
  env = record { prev_key = initial; sent = []; fault = false };
  arena = arena size;
}

pub data Step (w : World) : World → Type 0 where
  allocated : (shift s bytes : ℕ) (policy : Policy) → Step w (alloc shift s bytes policy w).1
  opened :
      (s key : ℕ) (policy : Policy) (wait : Bool) (now seqno : ℕ)
      → Step w (open_request s key policy wait now seqno w).1
  closed : (s key : ℕ) → Step w (close s key w).1
  shared : (s key : ℕ) → Step w (share_object s key w).1
  unshared : (s key : ℕ) (wait : Bool) (seqno : ℕ) → Step w (unshare s key wait seqno w).1
  voucher_created :
      (s target count now ttl : ℕ) → Step w (create_voucher s target count now ttl w).1
  voucher_discarded : (key now : ℕ) → Step w (discard_voucher key now w).1
  requests_dropped : (s : ℕ) → Step w (drop_session_requests s w)
  session_closed : (s : ℕ) → Step w (close_session s w)
  vouchers_expired : (now : ℕ) → Step w (drop_expired_vouchers now w)
  vouchers_dropped : Step w (drop_all_vouchers w)

pub data Run (size : ℕ) : World → Type 0 where
  started : Run size (new_world size)
  stepped : {w w' : World} → Run size w → Step w w' → Run size w'

targets-expire :
    (b : ℕ) (p : Voucher → Bool) (vs : List Voucher) → targets b (expire p vs) ≡ targets b vs
unfolding expire
targets-expire b p [] = refl
targets-expire b p (v ∷ vs) = ap (λ n. hit (b == v.target) + n) (targets-expire b p vs)

row-on_hooked :
    (s : ℕ) (f : ℕ → Cell → Cell) → ((i : ℕ) → Rewrites same (f i)) → Rewrites same (on_hooked s f)
row-on_hooked s f k c = go (hooked_handle s c.obj.handles) refl
  where
    go : (r : Option ℕ) → hooked_handle s c.obj.handles ≡ r → row (on_hooked s f c).obj ≡ row c.obj
    go none q = rw (on_hooked, q) refl
    go (some i) q = rw (on_hooked, q) (k i c)

module _ (size : ℕ) (small : size < 2 ^ 64) where
  pub each_object-Balanced :
      (s : ℕ) (f : ℕ → Cell → Cell) (as' : List ℕ) (w : World)
      → ((i : ℕ) → Rewrites same (f i))
      → Balanced size w
      → Balanced size (each_object s f as' w)
  unfolding each_object
  each_object-Balanced s f [] w k h = h
  each_object-Balanced s f (a ∷ as') w k h =
      each_object-Balanced s f as' (update a (on_hooked s f) w) k
        (kept-Balanced size small a (on_hooked s f) w (row-on_hooked s f k) h)

  pub expire-Balanced :
      (p : Voucher → Bool) (w : World)
      → Balanced size w
      → Balanced size (record w { vouchers = expire p w.vouchers })
  expire-Balanced p w h = record {
    distinct = h.distinct;
    counted = λ b. h.counted b ∙ sym (targets-expire b p w.vouchers);
    held = h.held;
    reached = h.reached;
    owned = h.owned;
  }

  expired-Balanced :
      (p : Voucher → Bool) (w : World)
      → Balanced size w
      → Balanced size (release (record w { vouchers = expire p w.vouchers }))
  expired-Balanced p w h =
      release-Balanced size (record w { vouchers = expire p w.vouchers }) small
        (expire-Balanced p w h)

  close_session-Balanced : (s : ℕ) (w : World) → Balanced size w → Balanced size (close_session s w)
  unfolding close_session
  close_session-Balanced s w h =
      let as' = addresses w.objects in
      let w' = each_object s drop_pending_requests as' w in
      release-Balanced size (each_object s close_all as' w') small (
        each_object-Balanced s close_all as' w' row-close_all
          (each_object-Balanced s drop_pending_requests as' w row-drop_pending_requests h))

  Step-Balanced : {w w' : World} → Step w w' → Balanced size w → Balanced size w'
  unfolding drop_session_requests drop_expired_vouchers drop_all_vouchers
  Step-Balanced {w} (allocated shift s bytes policy) h =
      alloc-Balanced size small shift s bytes policy w h
  Step-Balanced {w} (opened s key policy wait now seqno) h =
      open_request-Balanced size small s key policy wait now seqno w h
  Step-Balanced {w} (closed s key) h = close-Balanced size small s key w h
  Step-Balanced {w} (shared s key) h = share_object-Balanced size small s key w h
  Step-Balanced {w} (unshared s key wait seqno) h = unshare-Balanced size small s key wait seqno w h
  Step-Balanced {w} (voucher_created s target count now ttl) h =
      create_voucher-Balanced size small s target count now ttl w h
  Step-Balanced {w} (voucher_discarded key now) h = discard_voucher-Balanced size small key now w h
  Step-Balanced {w} (requests_dropped s) h =
      release-Balanced size (each_object s drop_pending_requests (addresses w.objects) w) small (
        each_object-Balanced s drop_pending_requests (addresses w.objects) w
          row-drop_pending_requests h)
  Step-Balanced {w} (session_closed s) h = close_session-Balanced s w h
  Step-Balanced {w} (vouchers_expired now) h = expired-Balanced (λ v. leb v.expiry now) w h
  Step-Balanced {w} vouchers_dropped h = expired-Balanced (λ v. true) w h

-- From the start of a daemon with fewer than 2 ^ 64 blocks of memory on, through any requests of
-- any sessions, their ends and the expiry of vouchers: no two objects have the same address; each
-- object counts exactly the vouchers for it, and there is no voucher for an object that is gone;
-- and the memory that is held in the arena is that of the objects, each having its own.
pub Run-Balanced : (size : ℕ) {w : World} → size < 2 ^ 64 → Run size w → Balanced size w
Run-Balanced size small started = record {
  distinct = λ b. omega arith;
  counted = λ b. refl;
  held = [];
  reached = fresh refl;
  owned = λ s. refl;
}
Run-Balanced size small (stepped r s) = Step-Balanced size small s (Run-Balanced size small r)

nothing_starts : (held : Held) → ((s : ℕ) → starts s held ≡ 0) → held ≡ []
nothing_starts [] h = refl
nothing_starts ((start, count) ∷ held) h = absurd (ground (arith, h start))

-- In a daemon with fewer than 2 ^ 64 blocks of memory, whenever no object is left, whatever was
-- requested before, all memory is one free chunk again, as at the start.
pub memory_returned :
    (size : ℕ) {w : World}
    → size < 2 ^ 64
    → Run size w
    → w.objects ≡ []
    → w.arena.chunks ≡ (arena size).chunks
memory_returned size {w} small r e =
    let b = Run-Balanced size small r in
    let none_held =
      nothing_starts b.held (λ s. omega (arith, ap (λ os. owners s (ledger os)) e, b.owned s)) in
    held_none size small (subst (λ l. Reach size w.arena l) none_held b.reached)
