-- ===== src/Closing/Dropped.antt =====
-- `handle::close` when the handle stays open, and when it closes and is not the exclusive writer.
use partake.Prelude.{
  ℕ, ◌+◌, ◌-◌, ◌<◌, ◌≡◌, refl, true, false, ◌&&◌, ◌||◌, Option, none, some, arith, hit, ltb, ◌==◌,
  if◌then◌else◌, Bool-cases, inl, inr, ◌∙◌, ap,
}
use partake.Object.{
  Cell, opens, present, set_opens, on_obj, assert, is_set, is_id, is_open_uniquely,
  is_opened_by_unique_handle, resume_request_pending_on_unique,
}
use partake.Object.Handles.{
  count_open, opens-set_opens, waits_share-set_opens, waits_unique-set_opens, count_open-set_opens,
  two_open, opens-le-count, opens-present,
}
use partake.Closing.{wakes, forget_awaiting_unique, close_unique}
use partake.Closing.Invariant.{IsValid}
use partake.Closing.Settle.{
  Unsettled, Unsettled-IsValid, resume-then-forget-IsValid, forget-then-resume-IsValid,
}
use partake.Closing.Unique.{assert-Unsettled}

module _ (i : ℕ) (c : Cell) (v : IsValid c) (h : 0 < opens i c.obj.handles) where
  pub there : present i c.obj.handles ≡ true
  there = opens-present i c.obj.handles h

  abbrev pub dropped : Cell
  dropped =
      on_obj (λ o. record o { handles = set_opens i (opens i c.obj.handles - 1) o.handles })
        (assert (ltb 0 (opens i c.obj.handles)) c)

  abbrev pub last : Cell
  last =
      on_obj (λ o. record o { n_open_handles = o.n_open_handles - 1 })
        (assert (ltb 0 dropped.obj.n_open_handles) dropped)

  pub counted-dropped :
      count_open dropped.obj.handles + 1
      ≡ count_open c.obj.handles + hit (ltb 1 (opens i c.obj.handles))
  counted-dropped =
      ground (arith, there, count_open-set_opens i (opens i c.obj.handles - 1) c.obj.handles)

  dropped-Unsettled : 1 < opens i c.obj.handles → Unsettled dropped
  dropped-Unsettled more = record {
    sound = ground (arith, v.sound);
    counted = ground (arith, v.counted, counted-dropped);
    written = λ w e.
        ground
          (arith, v.written w e, opens-set_opens i w (opens i c.obj.handles - 1) c.obj.handles);
    writable = v.writable;
    waiting = λ j.
        ground
          (arith, v.waiting j, waits_share-set_opens i j (opens i c.obj.handles - 1) c.obj.handles);
    once = v.once;
    blocked = v.blocked;
    reserved = λ j.
        ground (
          arith,
          v.reserved j,
          waits_unique-set_opens i j (opens i c.obj.handles - 1) c.obj.handles,
        );
    pending = λ w e. (v.pending w e).0;
    plain = v.plain;
  }

  last-Unsettled : opens i c.obj.handles ≡ 1 → is_id i c.obj.exc_writer ≡ false → Unsettled last
  last-Unsettled one other = record {
    sound = ground (arith, v.sound, v.counted, opens-le-count i c.obj.handles);
    counted = ground (arith, v.counted, counted-dropped);
    written = λ w e. ground (arith, v.written w e, v.counted, two_open i w c.obj.handles);
    writable = λ p s k. ground (arith, v.writable p s);
    waiting = λ j.
        ground
          (arith, v.waiting j, waits_share-set_opens i j (opens i c.obj.handles - 1) c.obj.handles);
    once = v.once;
    blocked = v.blocked;
    reserved = λ j.
        ground (
          arith,
          v.reserved j,
          waits_unique-set_opens i j (opens i c.obj.handles - 1) c.obj.handles,
        );
    pending = λ w e. (v.pending w e).0;
    plain = v.plain;
  }

  -- The handle stays open.
  abbrev pub kept : Cell
  kept =
      if is_open_uniquely i dropped.obj && is_set dropped.obj.awaiting_unique
      then resume_request_pending_on_unique i
          (on_obj forget_awaiting_unique (assert (is_id i dropped.obj.awaiting_unique) dropped))
      else dropped

  -- Only a handle that is open can be the one that owns the object alone.
  waits_alone :
      (w : ℕ)
      → 1 < opens i c.obj.handles
      → c.obj.awaiting_unique ≡ some w
      → is_opened_by_unique_handle dropped.obj ≡ true
      → w ≡ i
  waits_alone w more e alone = ground (arith, v.pending w e, v.counted, two_open i w c.obj.handles)

  pub dropped-IsValid : 1 < opens i c.obj.handles → IsValid kept
  dropped-IsValid more =
      elim (Bool-cases (is_open_uniquely i dropped.obj && is_set dropped.obj.awaiting_unique)) [
        | inl e ↦ rw e (go c.obj.awaiting_unique refl e)
        | inr e ↦ rw e (
            Unsettled-IsValid (dropped-Unsettled more) λ w k. (
              ground (
                arith,
                v.pending w k,
                opens-set_opens i w (opens i c.obj.handles - 1) c.obj.handles,
              ),
              ground (arith, waits_alone w more k),
            ))
      ]
    where
      go :
          (o : Option ℕ)
          → c.obj.awaiting_unique ≡ o
          → is_open_uniquely i dropped.obj && is_set dropped.obj.awaiting_unique ≡ true
          → IsValid (
              resume_request_pending_on_unique i (
                on_obj forget_awaiting_unique
                  (assert (is_id i dropped.obj.awaiting_unique) dropped)))
      go none k e = absurd (ground arith)
      go (some w) k e =
          let same : w ≡ i = waits_alone w more k (ground arith) in
          forget-then-resume-IsValid i (assert (is_id i dropped.obj.awaiting_unique) dropped)
            (assert-Unsettled (dropped-Unsettled more) (ground arith)) (k ∙ ap some same)

  -- The handle closes, and is not the exclusive writer.
  pub last-IsValid :
      opens i c.obj.handles ≡ 1 → is_id i c.obj.exc_writer ≡ false → IsValid (close_unique i last)
  unfolding close_unique
  last-IsValid one other = go c.obj.awaiting_unique refl
    where
      settled :
          (w : ℕ)
          → c.obj.awaiting_unique ≡ some w
          → wakes last.obj w || w == i ≡ false
          → (0 < opens w last.obj.handles) × (wakes last.obj w ≡ false)
      settled w k e = (
        ground
            (arith, v.pending w k, opens-set_opens i w (opens i c.obj.handles - 1) c.obj.handles),
        ground arith,
      )

      go : (o : Option ℕ) → c.obj.awaiting_unique ≡ o → IsValid (close_unique i last)
      go none k =
          rw (close_unique, k)
            (Unsettled-IsValid (last-Unsettled one other) λ w e. absurd (ground arith))
      go (some w) k =
          rw (close_unique, k)
            (elim (Bool-cases (wakes last.obj w || w == i)) [
              | inl e ↦ rw e (resume-then-forget-IsValid w last (last-Unsettled one other) k)
              | inr e ↦
                  rw e
                    (Unsettled-IsValid (last-Unsettled one other) λ x p. settled x p (ground arith))
            ])
