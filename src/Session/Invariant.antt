-- ===== src/Session/Invariant.antt =====
-- daemon/session.hpp: what the handlers do to the object of a request keeps it valid.
use partake.Prelude.{
  ℕ, ◌-◌, ◌≤◌, ◌<◌, ◌≡◌, refl, true, false, ◌||◌, not, Option, none, some, List, [], ◌∷◌, arith,
  ltb, Bool-cases, ◌⊎◌, inl, inr, ◌∙◌,
}
use partake.Protocol.{Policy, default, primitive}
use partake.Object.{
  Env, Handle, Cell, opens, waits_share, waits_unique, present, set_opens, is_set, contains,
  is_open_uniquely, do_unshare, handle_open,
}
use partake.Closing.{wakes, add_voucher, drop_voucher, set_exclusive_writer}
use partake.Closing.Invariant.{IsValid, handle_open-IsValid}
use partake.Closing.Settle.{
  Unsettled, Unsettled-IsValid, IsValid-Unsettled, unwritten, resume-then-forget-IsValid,
}
use partake.Closing.Waiting.{add_request-IsValid}
use partake.Session.{World, create_handle, fresh, hooked_handle}
use partake.Session.Requests.{
  new_object, first_handle, open_with, with_handle, can_open_immediately,
}

opens_now :
    (c : Cell)
    → can_open_immediately c.obj ≡ true
    → (c.obj.policy ≡ primitive) ⊎ (c.obj.shared ≡ true)
opens_now c e = ground arith

waits_now :
    (c : Cell)
    → IsValid c
    → can_open_immediately c.obj ≡ false
    → (c.obj.shared ≡ false)
      × ((can_open_immediately c.obj ≡ true) ⊎ (0 < c.obj.n_open_handles)
          → is_set c.obj.exc_writer ≡ true)
waits_now c v e = (ground arith, λ h. ground (arith, v.writable))

module _ (j : ℕ) where
  pub absent_opens : (hs : List Handle) → present j hs ≡ false → opens j hs ≡ 0
  unfolding opens present
  absent_opens [] e = refl
  absent_opens (h ∷ hs) e = ground (arith, absent_opens hs)

  pub absent_waits_share : (hs : List Handle) → present j hs ≡ false → waits_share j hs ≡ []
  unfolding waits_share present
  absent_waits_share [] e = refl
  absent_waits_share (h ∷ hs) e = ground (arith, absent_waits_share hs)

  pub absent_waits_unique : (hs : List Handle) → present j hs ≡ false → waits_unique j hs ≡ none
  unfolding waits_unique present
  absent_waits_unique [] e = refl
  absent_waits_unique (h ∷ hs) e = ground (arith, absent_waits_unique hs)

pub above-absent : (n : ℕ) (hs : List Handle) → fresh hs ≤ n → present n hs ≡ false
unfolding fresh present
above-absent n [] h = refl
above-absent n (x ∷ hs) h = ground (arith, above-absent n hs)

module _ (s : ℕ) (c : Cell) where
  abbrev new : ℕ
  new = fresh c.obj.handles

  absent : present new c.obj.handles ≡ false
  absent = above-absent new c.obj.handles (omega arith)

  opens-create_handle : (j : ℕ) → opens j (create_handle s c).obj.handles ≡ opens j c.obj.handles
  unfolding create_handle opens
  opens-create_handle j = ground (arith, absent_opens new c.obj.handles absent)

  waits_share-create_handle :
      (j : ℕ) → waits_share j (create_handle s c).obj.handles ≡ waits_share j c.obj.handles
  unfolding create_handle waits_share
  waits_share-create_handle j = ground (arith, absent_waits_share new c.obj.handles absent)

  waits_unique-create_handle :
      (j : ℕ) → waits_unique j (create_handle s c).obj.handles ≡ waits_unique j c.obj.handles
  unfolding create_handle waits_unique
  waits_unique-create_handle j = ground (arith, absent_waits_unique new c.obj.handles absent)

  present-create_handle : present new (create_handle s c).obj.handles ≡ true
  unfolding create_handle present
  present-create_handle = ground arith

  -- The first handle of a session changes nothing for the others.
  create_handle-IsValid :
      hooked_handle s c.obj.handles ≡ none → IsValid c → IsValid (create_handle s c)
  unfolding create_handle
  create_handle-IsValid free v = record {
    sound = rw free (ground (arith, v.sound));
    counted = ground (arith, v.counted);
    written = λ w e. rw (opens-create_handle w) (v.written w e);
    writable = v.writable;
    waiting = λ j. rw (waits_share-create_handle j) (v.waiting j);
    once = v.once;
    blocked = v.blocked;
    reserved = λ j. rw (waits_unique-create_handle j) (v.reserved j);
    pending = λ w e. rw (opens-create_handle w) (v.pending w e);
    plain = v.plain;
  }

pub add_voucher-IsValid : (c : Cell) → IsValid c → IsValid (add_voucher c)
unfolding add_voucher
add_voucher-IsValid c v = record {
  sound = v.sound;
  counted = v.counted;
  written = v.written;
  writable = v.writable;
  waiting = v.waiting;
  once = v.once;
  blocked = v.blocked;
  reserved = v.reserved;
  pending = λ w e. ground (arith, v.pending w e);
  plain = v.plain;
}

module _ (c : Cell) (v : IsValid c) (some_left : 0 < c.obj.n_vouchers) where
  abbrev fewer : Cell
  fewer = record c {
    obj = record c.obj { n_vouchers = c.obj.n_vouchers - 1 };
    env = record c.env { fault = c.env.fault || not (ltb 0 c.obj.n_vouchers) };
  }

  fewer-Unsettled : Unsettled fewer
  fewer-Unsettled = record {
    sound = ground (arith, v.sound);
    counted = v.counted;
    written = v.written;
    writable = v.writable;
    waiting = v.waiting;
    once = v.once;
    blocked = v.blocked;
    reserved = v.reserved;
    pending = λ w e. (v.pending w e).0;
    plain = v.plain;
  }

  -- The end of a voucher wakes the request that waits for unique ownership, if that was the last
  -- user.
  pub drop_voucher-IsValid : IsValid (drop_voucher c)
  unfolding drop_voucher
  drop_voucher-IsValid = go c.obj.awaiting_unique refl
    where
      go : (o : Option ℕ) → c.obj.awaiting_unique ≡ o → IsValid (drop_voucher c)
      go none k =
          rw (drop_voucher, k) (Unsettled-IsValid fewer-Unsettled λ w e. absurd (ground arith))
      go (some w) k =
          rw (drop_voucher, k)
            (elim (Bool-cases (wakes fewer.obj w)) [
              | inl e ↦ rw e (resume-then-forget-IsValid w fewer fewer-Unsettled k)
              | inr e ↦ rw e (
                  Unsettled-IsValid fewer-Unsettled
                    λ x p. (ground (arith, v.pending x p), ground arith))
            ])

-- Unsharing by the only user makes it the exclusive writer again.
pub do_unshare-IsValid :
    (i : ℕ) (c : Cell)
    → IsValid c
    → c.obj.shared ≡ true
    → c.obj.awaiting_unique ≡ none
    → is_open_uniquely i c.obj ≡ true
    → IsValid (do_unshare i c)
unfolding do_unshare
do_unshare-IsValid i c v open' free alone = record {
  sound = ground (arith, v.sound, unwritten (IsValid-Unsettled v) open');
  counted = v.counted;
  written = λ w e. ground arith;
  writable = λ p s h. refl;
  waiting = v.waiting;
  once = v.once;
  blocked = λ e. (refl, refl);
  reserved = v.reserved;
  pending = λ w e. absurd (ground (arith, free));
  plain = λ p. absurd (ground (arith, v.plain p));
}

-- The object of a new allocation is open, and its handle the exclusive writer under the default
-- policy.
pub first_handle-IsValid :
    (s : ℕ) (policy : Policy) (resource : Option ℕ) (w : World) (env : Env)
    → env.fault ≡ false
    → IsValid (first_handle s policy (record { obj = new_object policy resource w; env = env }))
unfolding first_handle create_handle handle_open set_exclusive_writer fresh hooked_handle set_opens
    opens waits_share waits_unique contains
first_handle-IsValid s default resource w env e = record {
  sound = ground arith;
  counted = refl;
  written = λ x k. ground arith;
  writable = λ p l k. refl;
  waiting = λ j. ground arith;
  once = tt;
  blocked = λ k. (refl, refl);
  reserved = λ j. ground arith;
  pending = λ x k. absurd (ground arith);
  plain = λ p. absurd (ground arith);
}
first_handle-IsValid s primitive resource w env e = record {
  sound = ground arith;
  counted = refl;
  written = λ x k. absurd (ground arith);
  writable = λ p l k. absurd (ground arith);
  waiting = λ j. ground arith;
  once = tt;
  blocked = λ k. absurd (ground arith);
  reserved = λ j. ground arith;
  pending = λ x k. absurd (ground arith);
  plain = λ p. (refl, refl);
}

module _ (s seqno : ℕ) (c : Cell) (v : IsValid c) where
  -- `open` on a valid object that can be opened at once, or is open and not yet shared: with a
  -- handle that was found, which waits for nothing, or with a new one.
  pub open_with-IsValid :
      (i : ℕ)
      → present i c.obj.handles ≡ true
      → waits_share i c.obj.handles ≡ []
      → (can_open_immediately c.obj ≡ true) ⊎ (0 < c.obj.n_open_handles)
      → IsValid (open_with s (some i) seqno c)
  unfolding open_with with_handle
  open_with-IsValid i there quiet h = elim (Bool-cases (can_open_immediately c.obj)) [
    | inl e ↦ rw e (handle_open-IsValid i c there v (opens_now c e))
    | inr e ↦
        rw e
          (add_request-IsValid i seqno c v there (waits_now c v e).0 ((waits_now c v e).1 h) quiet)
  ]

  pub open_with_new-IsValid :
      hooked_handle s c.obj.handles ≡ none
      → (can_open_immediately c.obj ≡ true) ⊎ (0 < c.obj.n_open_handles)
      → IsValid (open_with s none seqno c)
  unfolding open_with with_handle
  open_with_new-IsValid free h =
      let d = create_handle s c in
      let u = create_handle-IsValid s c free v in
      let there = present-create_handle s c in
      elim (Bool-cases (can_open_immediately c.obj)) [
        | inl e ↦ rw e (handle_open-IsValid (fresh c.obj.handles) d there u (opens_now c e))
        | inr e ↦ rw e (
            add_request-IsValid (fresh c.obj.handles) seqno d u there (waits_now c v e).0
              ((waits_now c v e).1 h)
              (waits_share-create_handle s c (fresh c.obj.handles)
                ∙ absent_waits_share (fresh c.obj.handles) c.obj.handles (absent s c)))
      ]
