-- ===== src/Closing/Close/Opens.antt =====
-- `handle::close`: what it does to the counts of the handles; and `handle::close_all`.
use partake.Prelude.{
  ℕ, zero, suc, ◌-◌, ◌≤◌, ◌<◌, ◌≡◌, refl, Bool, true, false, ◌&&◌, Option, none, some, [], arith,
  ltb, ◌==◌, if◌then◌else◌, Bool-cases, inl, inr, ◌∙◌, ap,
}
use partake.Object.{
  Cell, opens, on_obj, assert, is_set, is_id, is_open_uniquely, resume_request_pending_on_unique,
}
use partake.Object.Handles.{opens-set_opens, opens-set_waits_share, opens-set_waits_unique}
use partake.Closing.{
  forget_awaiting_unique, close_unique, object_close, handle_close, drop_share, drop_unique,
  drop_pending_requests, close_repeatedly, close_all,
}
use partake.Closing.Invariant.{IsValid}
use partake.Closing.Settle.{opens-resume_request}
use partake.Closing.Waiting.{drop_pending_requests-IsValid}
use partake.Closing.Unique.{
  close_unique-none, opens-close_unique, close_writer_self, close_writer_other,
}
use partake.Closing.Dropped.{there, dropped, last, last-IsValid}
use partake.Closing.Writer.{woken, nobody}
use partake.Closing.Close.{no_writer, handle_close-IsValid}

module _ (i : ℕ) (c : Cell) (v : IsValid c) (h : 0 < opens i c.obj.handles) (j : ℕ) where
  abbrev left : ℕ
  left = if j == i then opens i c.obj.handles - 1 else opens j c.obj.handles

  opens-dropped : opens j (dropped i c v h).obj.handles ≡ left
  opens-dropped =
      ground (arith, opens-set_opens i j (opens i c.obj.handles - 1) c.obj.handles, there i c v h)

  opens-kept :
      (b : Bool)
      → opens j
          (if b
            then resume_request_pending_on_unique i (
                on_obj forget_awaiting_unique
                  (assert (is_id i (dropped i c v h).obj.awaiting_unique) (dropped i c v h)))
            else dropped i c v h).obj.handles
        ≡ left
  opens-kept true =
      opens-resume_request i j (
        on_obj forget_awaiting_unique
          (assert (is_id i (dropped i c v h).obj.awaiting_unique) (dropped i c v h)))
      ∙ opens-dropped
  opens-kept false = opens-dropped

  opens-writer :
      (one : opens i c.obj.handles ≡ 1)
      → c.obj.exc_writer ≡ some i
      → opens j (object_close i (dropped i c v h)).obj.handles ≡ left
  unfolding object_close
  opens-writer one writes =
      rw
        (
          close_unique-none i (last i c v h) (nobody i c v h one writes),
          close_writer_self i (last i c v h) (ground arith),
        )
        (ground (arith, (woken i c v h one writes).opens_at j, v.written i writes, opens-dropped))

  opens-other :
      (one : opens i c.obj.handles ≡ 1)
      → is_id i c.obj.exc_writer ≡ false
      → opens j (object_close i (dropped i c v h)).obj.handles ≡ left
  unfolding object_close
  opens-other one other =
      let d = close_unique i (last i c v h) in
      rw
        (close_writer_other i d
          (no_writer i c v h one (last-IsValid i c v h one other) d.obj.exc_writer refl))
        (opens-close_unique i (last i c v h) j ∙ opens-dropped)

  opens-object_close :
      (o : Option ℕ)
      → c.obj.exc_writer ≡ o
      → opens i c.obj.handles ≡ 1
      → opens j (object_close i (dropped i c v h)).obj.handles ≡ left
  opens-object_close none e one = opens-other one (ground arith)
  opens-object_close (some w) e one = elim (Bool-cases (i == w)) [
    | inl k ↦ opens-writer one (e ∙ ap some (ground arith))
    | inr k ↦ opens-other one (ground arith)
  ]

  -- Closing an open handle of a valid object takes one from the count of the handle, and none from
  -- that of any other.
  pub opens-handle_close : opens j (handle_close i c).obj.handles ≡ left
  unfolding handle_close
  opens-handle_close = elim (Bool-cases (opens i c.obj.handles == 1)) [
    | inl e ↦ rw e (opens-object_close c.obj.exc_writer refl (ground arith))
    | inr e ↦ rw e (
        opens-kept (
          is_open_uniquely i (dropped i c v h).obj && is_set (dropped i c v h).obj.awaiting_unique))
  ]

opens-drop_pending_requests :
    (i j : ℕ) (c : Cell) → opens j (drop_pending_requests i c).obj.handles ≡ opens j c.obj.handles
unfolding drop_pending_requests drop_share drop_unique
opens-drop_pending_requests i j c = ground (
  arith,
  opens-set_waits_share i j [] c.obj.handles,
  opens-set_waits_unique i j none (drop_share i c).obj.handles,
)

-- With as many rounds as the handle is open, the loop closes it, and the object stays valid.
close_repeatedly-closed :
    (n i : ℕ) (c : Cell)
    → IsValid c
    → opens i c.obj.handles ≤ n
    → IsValid (close_repeatedly n i c) × (opens i (close_repeatedly n i c).obj.handles ≡ 0)
unfolding close_repeatedly
close_repeatedly-closed zero i c v h = (v, omega arith)
close_repeatedly-closed (suc n) i c v h = elim (Bool-cases (ltb 0 (opens i c.obj.handles))) [
  | inr e ↦ rw (close_repeatedly, e) (v, ground arith)
  | inl e ↦
      rw (close_repeatedly, e)
        (close_repeatedly-closed n i (handle_close i c) (handle_close-IsValid i c v (ground arith))
          (ground (arith, opens-handle_close i c v (ground arith) i)))
]

-- `close_all` closes the handle for good, whatever waits for the object and however often the
-- handle is open: no assertion fails.
pub close_all-closed :
    (i : ℕ) (c : Cell)
    → IsValid c
    → IsValid (close_all i c) × (opens i (close_all i c).obj.handles ≡ 0)
unfolding close_all
close_all-closed i c v =
    close_repeatedly-closed (opens i (drop_pending_requests i c).obj.handles) i
      (drop_pending_requests i c) (drop_pending_requests-IsValid i c v) (omega arith)
